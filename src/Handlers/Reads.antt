-- ===== src/Handlers/Reads.antt =====
-- GetObject and HeadObject without a range, and the goroutine that fills the cache.
use azs3_proxy.Prelude.{
  ℕ, Text, codes, Bool, true, false, ◌&&◌, Option, none, some, List, [], ◌∷◌, ◌++◌, length, take,
  eq_text, leb, ltb, if◌then◌else◌,
}
use azs3_proxy.Errors.{no_such_key}
use azs3_proxy.Range.Decimal.{decimal}
use azs3_proxy.Range.Blocks.{generate_cache_key}
use azs3_proxy.Stats.{record_get_object, record_head_object}
use azs3_proxy.Handlers.Types.{
  ok, failed, ObjectInfo, StorageBackend, ObjectCache, S3Request, bytes, no_payload, Reply,
  write_error_response, backend_error, placeholder_etag, or_placeholder, S3Handler, Handling, after,
  stored,
}
use azs3_proxy.Handlers.Buckets.{head_bucket_handler}
use azs3_proxy.Handlers.Objects.{object_key, resource, content_length_header, last_modified_header}

-- 50 MB
abbrev pub cache_size_threshold : ℕ
cache_size_threshold = 52428800

-- What GetObject writes of a small object and then caches: as much of the body as fits the size
-- that the backend announced. A body that fails before that is not written at all, and one that
-- ends before that is taken as it is.
unfoldable pub buffered : ObjectInfo → Option (List ℕ)
buffered info =
    if ltb (length info.body) info.size && info.body_fails
    then none
    else some (take info.size info.body)

abbrev object_reply : ObjectInfo → List ℕ → Reply
object_reply info content = record {
  status = 200;
  headers =
      (codes "Content-Type", codes "application/octet-stream")
      ∷ (codes "ETag", or_placeholder info.etag)
      ∷ (content_length_header info.size ++ last_modified_header info.last_modified);
  payload = bytes content;
}

module _ (backend : StorageBackend) (cache : ObjectCache) where
  -- GetObjectFromCache and os.ReadFile of the path, if there is a cache
  unfoldable pub cached : Text → S3Handler backend cache → Option (List ℕ) × S3Handler backend cache
  cached k h = elim h.cache_state [
    | none ↦ (none, h)
    | some c ↦ let r = cache.store.get k c in (r.0, record h { cache_state = some r.1 })
  ]

  -- The end of GetObject, from the body on. A body that fails while it is streamed is cut off.
  unfoldable pub send_object : S3Request → ObjectInfo → Bool → Handling backend cache
  send_object r info should_cache h =
      let counted = record h { stats = record_get_object true h.stats } in
      if should_cache
      then elim (buffered info) [
        | none ↦ (object_reply info [], h)
        | some content ↦ (
          object_reply info content,
          record counted {
            pending = h.pending ++ (generate_cache_key r.bucket (object_key r), content) ∷ [];
          },
        )
      ]
      else (object_reply info info.body, counted)

  abbrev has_cache : S3Handler backend cache → Bool
  has_cache h = elim h.cache_state [ none ↦ false | some c ↦ true ]

  -- GetObject, from the backend on
  unfoldable pub fetch_object : S3Request → Handling backend cache
  fetch_object r h =
      let (result, s) = backend.get_object r.bucket (object_key r) h.storage in
      elim result [
        | failed e ↦
            (backend_error e (resource r), after backend cache s (record_get_object false) h)
        | ok info ↦
            let should_cache =
              has_cache h && (ltb 0 info.size && leb info.size cache_size_threshold) in
            send_object r info should_cache (stored backend cache s h)
      ]

  -- GetObject without a range, from the cache on
  unfoldable pub get_whole_object : S3Request → Handling backend cache
  get_whole_object r h =
      let (found, h1) = cached (generate_cache_key r.bucket (object_key r)) h in
      elim found [
        | none ↦ fetch_object r h1
        | some content ↦ (
          record {
            status = 200;
            headers =
                (codes "Content-Type", codes "application/octet-stream")
                ∷ (codes "ETag", placeholder_etag)
                ∷ (codes "X-Cache-Hit", codes "true")
                ∷ [];
            payload = bytes content;
          },
          h1,
        )
      ]

  -- a goroutine of GetObject: CacheObject
  unfoldable pub run_pending : S3Handler backend cache → S3Handler backend cache
  run_pending h = elim h.pending [
    | [] ↦ h
    | (k, content) ∷ rest ↦ elim h.cache_state [
      | none ↦ record h { pending = rest }
      | some c ↦ record h { cache_state = some (cache.store.put k content c).1; pending = rest }
    ]
  ]

  -- HeadObject, from the backend on
  unfoldable pub fetch_head : S3Request → Handling backend cache
  fetch_head r h =
      let (result, s) = backend.head_object r.bucket (object_key r) h.storage in
      elim result [
        | failed e ↦
            (backend_error e (resource r), after backend cache s (record_head_object false) h)
        | ok head ↦
            if head.exists
            then (
              record {
                status = 200;
                headers =
                    content_length_header head.size
                    ++ (last_modified_header head.last_modified
                        ++ (codes "ETag", or_placeholder head.etag) ∷ []);
                payload = no_payload;
              },
              after backend cache s (record_head_object true) h,
            )
            else (
              write_error_response (record {
                code = no_such_key;
                message = codes "The specified key does not exist.";
                resource = resource r;
                request_id = [];
              }),
              after backend cache s (record_head_object false) h,
            )
      ]

  -- HeadObjectHandler; os.Stat of the cached file gives its length
  unfoldable pub head_object_handler : S3Request → Handling backend cache
  head_object_handler r h =
      let (found, h1) = cached (generate_cache_key r.bucket (object_key r)) h in
      if eq_text (object_key r) [] then head_bucket_handler backend cache r h else elim found [
        | none ↦ fetch_head r h1
        | some content ↦ (
          record {
            status = 200;
            headers =
                (codes "Content-Type", codes "application/octet-stream")
                ∷ (codes "Content-Length", decimal (length content))
                ∷ (codes "ETag", placeholder_etag)
                ∷ (codes "X-Cache-Hit", codes "true")
                ∷ [];
            payload = no_payload;
          },
          h1,
        )
      ]
