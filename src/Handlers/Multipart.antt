-- ===== src/Handlers/Multipart.antt =====
-- The handlers of multipart uploads.
use azs3_proxy.Prelude.{
  ℕ, Text, codes, true, false, not, ◌&&◌, ◌||◌, Option, none, some, List, [], ◌∷◌, eq_text, ltb,
  ◌==◌, if◌then◌else◌,
}
use azs3_proxy.Chunked.{new_aws_chunked_reader}
use azs3_proxy.Range.Numbers.{Int64, positive, negative, parse_int}
use azs3_proxy.Stats.{
  record_initiate_multipart, record_upload_part, record_complete_multipart, record_abort_multipart,
  record_list_parts, record_list_multipart_uploads,
}
use azs3_proxy.Handlers.Types.{
  ok, failed, Reader, plain, aws_chunked, StorageBackend, ObjectCache, S3Request, no_payload,
  upload_initiated, upload_completed, part_list, upload_list, status_only, xml_reply, internal,
  query_get, is_set, Handling, after,
}
use azs3_proxy.Handlers.Objects.{object_key, is_streaming}
use azs3_proxy.Handlers.Batch.{DeleteRequest, delete_objects_handler}

-- the part number, between 1 and 10000
unfoldable pub part_number_of : Option Int64 → Option ℕ
part_number_of none = none
part_number_of (some (negative n)) = none
part_number_of (some (positive n)) = if ltb n 1 || ltb 10000 n then none else some n

-- the reader that UploadPart gives the backend, and the size
unfoldable pub part_source : S3Request → Reader × Int64
part_source r =
    if is_streaming r
    then (
      aws_chunked (new_aws_chunked_reader r.body),
      elim (parse_int 10 r.decoded_content_length) [ none ↦ positive 0 | some n ↦ n ],
    )
    else (plain r.body, elim r.content_length [ positive n ↦ positive n | negative n ↦ positive 0 ])

-- the map from part numbers to tags: a later part with a number replaces an earlier one
unfoldable pub put_tag : ℕ → Text → List (ℕ × Text) → List (ℕ × Text)
put_tag n tag [] = (n, tag) ∷ []
put_tag n tag ((m, t) ∷ tags) =
    let rest = put_tag n tag tags in if m == n then (n, tag) ∷ tags else (m, t) ∷ rest

unfoldable pub part_tags : List (ℕ × Text) → List (ℕ × Text) → List (ℕ × Text)
part_tags [] tags = tags
part_tags ((n, tag) ∷ parts) tags = part_tags parts (put_tag n tag tags)

abbrev pub upload_id : S3Request → Text
upload_id r = query_get r (codes "uploadId")

module _ (backend : StorageBackend) (cache : ObjectCache) where
  -- InitiateMultipartUploadHandler
  unfoldable pub initiate_multipart_upload_handler : S3Request → Handling backend cache
  initiate_multipart_upload_handler r h =
      let (result, s) = backend.initiate_multipart_upload r.bucket (object_key r) h.storage in
      if eq_text (object_key r) []
      then (internal (codes "Key is required for multipart upload") (b'/' ∷ r.bucket), h)
      else elim result [
        | failed e ↦ (internal e [], after backend cache s (record_initiate_multipart false) h)
        | ok id ↦ (
          xml_reply (upload_initiated r.bucket (object_key r) id),
          after backend cache s (record_initiate_multipart true) h,
        )
      ]

  -- UploadPart, from the backend on
  unfoldable pub send_part : ℕ → S3Request → Handling backend cache
  send_part n r h =
      let (reader, size) = part_source r in
      let (result, s) =
        backend.upload_part r.bucket (object_key r) (upload_id r) n size reader h.storage in
      elim result [
        | failed e ↦ (internal e [], after backend cache s (record_upload_part false) h)
        | ok etag ↦ (
          record { status = 200; headers = (codes "ETag", etag) ∷ []; payload = no_payload },
          after backend cache s (record_upload_part true) h,
        )
      ]

  -- UploadPartHandler
  unfoldable pub upload_part_handler : S3Request → Handling backend cache
  upload_part_handler r h =
      let number = query_get r (codes "partNumber") in
      if eq_text (upload_id r) []
      then (internal (codes "uploadId is required") [], h)
      else if eq_text number []
      then (internal (codes "partNumber is required") [], h)
      else elim (part_number_of (parse_int 10 number)) [
        | none ↦ (internal (codes "partNumber must be an integer between 1 and 10000") [], h)
        | some n ↦ send_part n r h
      ]

  -- CompleteMultipartUploadHandler; `decode` is the part list of the XML body
  unfoldable pub complete_multipart_upload_handler :
      (List ℕ → Option (List (ℕ × Text))) → S3Request → Handling backend cache
  complete_multipart_upload_handler decode r h =
      if eq_text (upload_id r) []
      then (internal (codes "uploadId is required") [], h)
      else elim (decode r.body) [
        | none ↦ (internal (codes "Invalid request body") [], h)
        | some parts ↦
            let (result, s) =
              backend.complete_multipart_upload r.bucket (object_key r) (upload_id r)
                (part_tags parts []) h.storage in
            elim result [
              | failed e ↦
                  (internal e [], after backend cache s (record_complete_multipart false) h)
              | ok etag ↦ (
                xml_reply (upload_completed r.bucket (object_key r) etag),
                after backend cache s (record_complete_multipart true) h,
              )
            ]
      ]

  -- AbortMultipartUploadHandler
  unfoldable pub abort_multipart_upload_handler : S3Request → Handling backend cache
  abort_multipart_upload_handler r h =
      let (result, s) =
        backend.abort_multipart_upload r.bucket (object_key r) (upload_id r) h.storage in
      if eq_text (upload_id r) []
      then (internal (codes "uploadId is required") [], h)
      else elim result [
        | failed e ↦ (internal e [], after backend cache s (record_abort_multipart false) h)
        | ok _ ↦ (status_only 204, after backend cache s (record_abort_multipart true) h)
      ]

  -- ListPartsHandler
  unfoldable pub list_parts_handler : S3Request → Handling backend cache
  list_parts_handler r h =
      let (result, s) = backend.list_parts r.bucket (object_key r) (upload_id r) h.storage in
      if eq_text (upload_id r) []
      then (internal (codes "uploadId is required") [], h)
      else elim result [
        | failed e ↦ (internal e [], after backend cache s (record_list_parts false) h)
        | ok parts ↦ (xml_reply (part_list parts), after backend cache s (record_list_parts true) h)
      ]

  -- ListMultipartUploadsHandler
  unfoldable pub list_multipart_uploads_handler : S3Request → Handling backend cache
  list_multipart_uploads_handler r h =
      let (result, s) = backend.list_multipart_uploads r.bucket h.storage in
      elim result [
        | failed e ↦ (internal e [], after backend cache s (record_list_multipart_uploads false) h)
        | ok uploads ↦ (
          xml_reply (upload_list uploads),
          after backend cache s (record_list_multipart_uploads true) h,
        )
      ]

  -- PostObjectHandler
  unfoldable pub post_object_handler :
      (List ℕ → Option (List (ℕ × Text)))
      → (List ℕ → Option DeleteRequest)
      → S3Request
      → Handling backend cache
  post_object_handler decode decode_delete r h =
      if not (eq_text (upload_id r) [])
      then complete_multipart_upload_handler decode r h
      else if is_set (r.query (codes "delete"))
      then delete_objects_handler backend cache decode_delete r h
      else if eq_text (query_get r (codes "uploads")) [] && eq_text (object_key r) []
      then list_multipart_uploads_handler r h
      else initiate_multipart_upload_handler r h
