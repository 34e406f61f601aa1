-- ===== src/Handlers/Batch.antt =====
-- DeleteObjectsHandler.
pub mod Accounts
use azs3_proxy.Prelude.{
  ℕ, Text, codes, Bool, true, false, Option, none, some, List, [], ◌∷◌, ◌++◌, eq_text,
  if◌then◌else◌,
}
use azs3_proxy.Errors.{malformed_xml}
use azs3_proxy.Range.Blocks.{generate_cache_key}
use azs3_proxy.Stats.{record_delete_object}
use azs3_proxy.Handlers.Types.{
  Result, ok, failed, StorageBackend, ObjectCache, S3Request, ObjectIdentifier, DeleteResult,
  delete_result, xml_reply, write_error_response, S3Handler, Handling, stored,
}
use azs3_proxy.Handlers.Objects.{invalidate}

pub record DeleteRequest : Type 0 where
  pub objects : List ObjectIdentifier
  pub quiet : Bool

module _ (backend : StorageBackend) (cache : ObjectCache) where
  -- the call of the backend for one entry
  abbrev pub delete_entry :
      Text → ObjectIdentifier → backend.State → Result (Unit {0}) × backend.State
  delete_entry bucket o s =
      if eq_text o.version_id []
      then backend.delete_object bucket o.key s
      else backend.delete_object_version bucket o.key o.version_id s

  -- one round of the loop for an entry with a key, from the call's result on
  unfoldable pub entry_done :
      Text
      → Bool
      → ObjectIdentifier
      → Result (Unit {0}) × backend.State
      → DeleteResult × S3Handler backend cache
      → DeleteResult × S3Handler backend cache
  entry_done bucket quiet o (failed e, s) (d, h) = (
    record d {
      error = d.error ++ record { key = o.key; version_id = o.version_id; message = e } ∷ [];
    },
    stored backend cache s h,
  )
  entry_done bucket quiet o (ok _, s) (d, h) = (
    if quiet then d else record d { deleted = d.deleted ++ o ∷ [] },
    invalidate backend cache (generate_cache_key bucket o.key) (stored backend cache s h),
  )

  -- the loop; an entry with an empty key is skipped
  unfoldable pub delete_entries :
      Text
      → Bool
      → List ObjectIdentifier
      → DeleteResult × S3Handler backend cache
      → DeleteResult × S3Handler backend cache
  delete_entries bucket quiet [] (d, h) = (d, h)
  delete_entries bucket quiet (o ∷ objects) (d, h) =
      let next =
        if eq_text o.key []
        then (d, h)
        else entry_done bucket quiet o (delete_entry bucket o h.storage) (d, h) in
      delete_entries bucket quiet objects next

  -- DeleteObjectsHandler; `decode` is the request of the XML body. It counts one deletion that
  -- succeeded, whatever the entries did.
  unfoldable pub delete_objects_handler :
      (List ℕ → Option DeleteRequest) → S3Request → Handling backend cache
  delete_objects_handler decode r h = elim (decode r.body) [
    | none ↦ (
      write_error_response (record {
        code = malformed_xml;
        message =
            codes
              "The XML you provided was not well-formed or did not validate against our published schema";
        resource = [];
        request_id = [];
      }),
      h,
    )
    | some request ↦
        let (d, h1) =
          delete_entries r.bucket request.quiet request.objects
            (record { deleted = []; error = [] }, h) in
        (xml_reply (delete_result d), record h1 { stats = record_delete_object true h1.stats })
  ]
