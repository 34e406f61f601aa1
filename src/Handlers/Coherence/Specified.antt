-- ===== src/Handlers/Coherence/Specified.antt =====
-- What the calls of one object do to a map of objects.
use azs3_proxy.Prelude.{ℕ, ◌≤◌, ◌≡◌, refl, Text, false, some, none, List, [], ◌++◌, ◌⊎◌, inl, inr}
use azs3_proxy.Errors.{S3Error}
use azs3_proxy.Errors.Laws.{http_status_bounds}
use azs3_proxy.Handlers.Types.{
  Result, ok, failed, bytes, ObjectInfo, S3Request, Reply, write_error_response, StorageBackend,
  ObjectCache, S3Handler, after,
}
use azs3_proxy.Handlers.Objects.{object_key}
use azs3_proxy.Handlers.Coherence.{IsCache, IsStorage, Objects, Same, SameBut, Coherent}

pub data Call : Type 0 where
  reads : Call
  writes : Call
  removes : Call

-- What the three calls do to the objects, and what they answer: an error changes nothing; a read
-- gives the first bytes of the object, and all of them if `Whole`.
abbrev pub Specified : Call → Type 0 → S3Request → Reply → Objects → Objects → Type 0
Specified reads Whole r reply before after =
    Same before after
    × (((p : List ℕ) × (rest : List ℕ) × (reply.status ≡ 200)
          × (reply.payload ≡ bytes p)
          × (before r.bucket (object_key r) ≡ some (p ++ rest))
          × (Whole → rest ≡ []))
        ⊎ (400 ≤ reply.status))
Specified writes Whole r reply before after =
    ((reply.status ≡ 200)
      × SameBut r.bucket (object_key r) before after
      × (after r.bucket (object_key r) ≡ some r.body))
    ⊎ ((400 ≤ reply.status) × Same before after)
Specified removes Whole r reply before after =
    ((reply.status ≡ 204)
      × SameBut r.bucket (object_key r) before after
      × (after r.bucket (object_key r) ≡ none))
    ⊎ ((400 ≤ reply.status) × Same before after)

pub error_status : (e : S3Error) → 400 ≤ (write_error_response e).status
unfolding write_error_response
error_status e = (http_status_bounds e).0

pub Result-cases :
    {A : Type 0} (x : Result A) → ((e : Text) × (x ≡ failed e)) ⊎ ((a : A) × (x ≡ ok a))
Result-cases (failed e) = inl (e, refl)
Result-cases (ok a) = inr (a, refl)

module _ (backend : StorageBackend) (cache : ObjectCache) where
  -- the body that the storage sends for the object ends without an error
  abbrev pub Whole : S3Request → S3Handler backend cache → Type 0
  Whole r h =
      (info : ObjectInfo)
      → (backend.get_object r.bucket (object_key r) h.storage).0 ≡ ok info
      → info.body_fails ≡ false

module _ (backend : StorageBackend) (cache : ObjectCache) (storage : IsStorage backend)
    (mem : IsCache cache) where
  abbrev pub Kept :
      Call → Type 0 → S3Request → S3Handler backend cache → Reply × S3Handler backend cache → Type 0
  Kept call W r h (reply, h1) =
      Specified call W r reply (storage.objects h.storage) (storage.objects h1.storage)
      × Coherent backend cache storage mem h1
