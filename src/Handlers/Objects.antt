-- ===== src/Handlers/Objects.antt =====
-- The handlers that write objects, and what the object handlers share.
use azs3_proxy.Prelude.{
  ℕ, Text, codes, Bool, true, false, Option, none, some, List, [], ◌∷◌, ◌++◌, eq_text, cut, ◌==◌,
  if◌then◌else◌,
}
use azs3_proxy.Chunked.{new_aws_chunked_reader}
use azs3_proxy.Errors.{invalid_argument}
use azs3_proxy.Range.Numbers.{Int64, positive, parse_int}
use azs3_proxy.Range.Decimal.{decimal}
use azs3_proxy.Range.Blocks.{generate_cache_key}
use azs3_proxy.Stats.{record_put_object, record_delete_object}
use azs3_proxy.Handlers.Types.{
  ok, failed, Result, Reader, plain, aws_chunked, StorageBackend, ObjectCache, S3Request,
  no_payload, copy_result, Reply, status_only, xml_reply, write_error_response, backend_error,
  or_placeholder, S3Handler, Handling, after,
}
use azs3_proxy.Handlers.Buckets.{create_bucket_handler, delete_bucket_handler}

-- strings.TrimPrefix(s, "/")
abbrev pub trim_slash : Text → Text
trim_slash [] = []
trim_slash (c ∷ s) = if c == b'/' then s else c ∷ s

-- extractBucketAndKey, the key
abbrev pub object_key : S3Request → Text
object_key r = trim_slash r.path

abbrev pub resource : S3Request → Text
resource r = b'/' ∷ (r.bucket ++ b'/' ∷ object_key r)

-- the header value of a body with the signatures of AWS chunks in it
abbrev pub is_streaming : S3Request → Bool
is_streaming r = eq_text r.content_sha256 (codes "STREAMING-AWS4-HMAC-SHA256-PAYLOAD")

-- The reader that PutObject gives the backend, without its buffer and its counter, and the size.
unfoldable pub put_source : S3Request → Reader × Int64
put_source r =
    if is_streaming r
    then (
      aws_chunked (new_aws_chunked_reader r.body),
      elim r.decoded_content_length [
        | [] ↦ positive 0
        | c ∷ s ↦ elim (parse_int 10 (c ∷ s)) [ none ↦ r.content_length | some n ↦ n ]
      ],
    )
    else (plain r.body, r.content_length)

abbrev pub content_length_header : ℕ → List (Text × Text)
content_length_header size = if size == 0 then [] else (codes "Content-Length", decimal size) ∷ []

abbrev pub last_modified_header : Option Text → List (Text × Text)
last_modified_header none = []
last_modified_header (some t) = (codes "Last-Modified", t) ∷ []

abbrev refused_source : Text → Reply
refused_source message =
    write_error_response
      (record { code = invalid_argument; message = message; resource = []; request_id = [] })

module _ (backend : StorageBackend) (cache : ObjectCache) where
  -- `if h.cacheManager != nil { InvalidateObject }`; an error is logged
  unfoldable pub invalidate : Text → S3Handler backend cache → S3Handler backend cache
  invalidate k h = elim h.cache_state [
    | none ↦ h
    | some c ↦ record h { cache_state = some (cache.invalidate k c).1 }
  ]

  -- the end of PutObject, from the result of the backend on
  unfoldable pub put_done : S3Request → Result Text × backend.State → Handling backend cache
  put_done r (result, s) h = elim result [
    | failed e ↦ (backend_error e (resource r), after backend cache s (record_put_object false) h)
    | ok etag ↦ (
      if eq_text r.copy_source []
          then record {
            status = 200;
            headers = (codes "ETag", or_placeholder etag) ∷ [];
            payload = no_payload;
          }
          else xml_reply (copy_result (or_placeholder etag)),
      invalidate (generate_cache_key r.bucket (object_key r))
          (after backend cache s (record_put_object true) h),
    )
  ]

  -- the branch of PutObject with a copy source; `unescape` is url.QueryUnescape
  unfoldable pub copy_handler : (Text → Option Text) → S3Request → Handling backend cache
  copy_handler unescape r h = elim (unescape r.copy_source) [
    | none ↦ (refused_source (codes "Invalid copy source encoding"), h)
    | some decoded ↦ elim (cut b'/' (trim_slash decoded)) [
      | none ↦ (refused_source (codes "Invalid copy source format"), h)
      | some (src_bucket, src_key) ↦
          put_done r (backend.copy_object src_bucket src_key r.bucket (object_key r) h.storage) h
    ]
  ]

  -- PutObjectHandler
  unfoldable pub put_object_handler : (Text → Option Text) → S3Request → Handling backend cache
  put_object_handler unescape r h =
      let (reader, size) = put_source r in
      if eq_text (object_key r) []
      then create_bucket_handler backend cache r h
      else if eq_text r.copy_source []
      then put_done r (backend.put_object r.bucket (object_key r) size reader h.storage) h
      else copy_handler unescape r h

  -- DeleteObjectHandler
  unfoldable pub delete_object_handler : S3Request → Handling backend cache
  delete_object_handler r h =
      let (result, s) = backend.delete_object r.bucket (object_key r) h.storage in
      if eq_text (object_key r) [] then delete_bucket_handler backend cache r h else elim result [
        | failed e ↦
            (backend_error e (resource r), after backend cache s (record_delete_object false) h)
        | ok _ ↦ (
          status_only 204,
          invalidate (generate_cache_key r.bucket (object_key r))
              (after backend cache s (record_delete_object true) h),
        )
      ]
