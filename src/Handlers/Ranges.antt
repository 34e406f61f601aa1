-- ===== src/Handlers/Ranges.antt =====
-- GetObject: a range read, or a read of the whole object.
use azs3_proxy.Prelude.{
  ℕ, Text, codes, Bool, true, false, Option, none, some, [], ◌∷◌, ◌++◌, length, eq_text,
  if◌then◌else◌,
}
use azs3_proxy.Errors.{invalid_range}
use azs3_proxy.Range.Decimal.{decimal}
use azs3_proxy.Range.Header.{RangeError, multiple_ranges}
use azs3_proxy.Range.Blocks.{
  Backend, Served, fall_back, bad_range, partial, short_data, handle_range_get_with_cache,
}
use azs3_proxy.Stats.{record_get_object}
use azs3_proxy.Handlers.Types.{
  ok, failed, Result, ObjectHead, StorageBackend, ObjectCache, S3Request, bytes, Reply, status_only,
  write_error_response, or_placeholder, S3Handler, Handling,
}
use azs3_proxy.Handlers.Listing.{list_objects_v2_handler}
use azs3_proxy.Handlers.Objects.{object_key, resource, last_modified_header}
use azs3_proxy.Handlers.Reads.{get_whole_object}

module _ (backend : StorageBackend) (cache : ObjectCache) where
  -- the object of a request as the range reads see it; they leave the storage as it is
  abbrev pub ranged : S3Request → backend.State → Backend
  ranged r s = record {
    head_object = elim (backend.head_object r.bucket (object_key r) s).0 [
      | failed e ↦ none
      | ok head ↦ if head.exists then some head.size else none
    ];
    get_object_range = λ offset n.
        elim (backend.get_object_range r.bucket (object_key r) offset n s).0 [
          | failed e ↦ none
          | ok info ↦ if info.body_fails then none else some info.body
        ];
  }

  -- 8 MB
  abbrev pub range_block_size : ℕ
  range_block_size = 8388608

  abbrev range_message : RangeError → Text
  range_message multiple_ranges = codes "multiple ranges not supported"
  range_message _ = codes "invalid range"

  -- What a range read answers; `none` is the fall back. `head` has the ETag and the time.
  unfoldable pub range_reply : S3Request → Text → Option Text → Served → Option Reply
  range_reply r etag modified fall_back = none
  range_reply r etag modified (bad_range e) = some (
      write_error_response (record {
        code = invalid_range;
        message = range_message e;
        resource = resource r;
        request_id = [];
      }))
  range_reply r etag modified (partial start end total content) = some (record {
    status = 206;
    headers =
        (codes "Content-Type", codes "application/octet-stream")
        ∷ (codes "ETag", or_placeholder etag)
        ∷ (codes "Accept-Ranges", codes "bytes")
        ∷ (codes "Content-Length", decimal (length content))
        ∷ (
          codes "Content-Range",
          codes "bytes " ++ (decimal start ++ b'-' ∷ (decimal end ++ b'/' ∷ decimal total)),
        )
        ∷ last_modified_header modified;
    payload = bytes content;
  })
  range_reply r etag modified short_data = some (status_only 500)

  abbrev head_etag : Result ObjectHead → Text
  head_etag (failed e) = []
  head_etag (ok head) = head.etag

  abbrev head_modified : Result ObjectHead → Option Text
  head_modified (failed e) = none
  head_modified (ok head) = head.last_modified

  abbrev is_partial : Served → Bool
  is_partial (partial start end total content) = true
  is_partial _ = false

  -- The range read of GetObject; `none` is the fall back. The prefetch that it starts is
  -- `prefetch_blocks`.
  unfoldable pub range_handler :
      S3Request
      → cache.store.State
      → S3Handler backend cache
      → Option Reply × S3Handler backend cache
  range_handler r c h =
      let (served, c1) =
        handle_range_get_with_cache cache.store (ranged r h.storage) r.bucket (object_key r)
          range_block_size r.range_header c in
      let head = (backend.head_object r.bucket (object_key r) h.storage).0 in
      (
        range_reply r (head_etag head) (head_modified head) served,
        record h {
          cache_state = some c1;
          stats = if is_partial served then record_get_object true h.stats else h.stats;
        },
      )

  -- GetObjectHandler
  unfoldable pub get_object_handler : Text → S3Request → Handling backend cache
  get_object_handler now r h =
      if eq_text (object_key r) []
      then list_objects_v2_handler backend cache now r h
      else elim h.cache_state [
        | none ↦ get_whole_object backend cache r h
        | some c ↦
            if eq_text r.range_header []
            then get_whole_object backend cache r h
            else let (answer, h1) = range_handler r c h in
              elim answer [ none ↦ get_whole_object backend cache r h1 | some reply ↦ (reply, h1) ]
      ]
