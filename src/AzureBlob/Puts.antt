-- ===== src/AzureBlob/Puts.antt =====
-- The calls that store an object.
use azs3_proxy.Prelude.{
  ℕ, Text, codes, Bool, ◌&&◌, Option, none, some, List, ◌++◌, leb, ltb, if◌then◌else◌,
}
use azs3_proxy.Range.Numbers.{Int64, positive, negative}
use azs3_proxy.Handlers.Types.{ok, failed, Reader}
use azs3_proxy.AzureBlob.{
  done, refused, BlobService, failing, quoted, contents, read_full, at_state, Operation,
}
use azs3_proxy.AzureBlob.Objects.{stream_block_size, concurrent_download_threshold, get_object}

-- 256 MB
abbrev pub memory_upload_threshold : ℕ
memory_upload_threshold = 268435456

-- the size, where the body is read into memory
unfoldable pub in_memory : Int64 → Option ℕ
in_memory (negative n) = none
in_memory (positive n) = if ltb 0 n && leb n memory_upload_threshold then some n else none

-- the number of concurrent blocks of a stream
unfoldable pub stream_concurrency : Int64 → ℕ
stream_concurrency (negative n) = 16
stream_concurrency (positive n) = if ltb 0 n && ltb n concurrent_download_threshold then 4 else 16

module _ (svc : BlobService) (md5_sum : List ℕ → List ℕ) where
  -- PutObject of a body that is read into memory
  unfoldable pub put_buffer : Text → Text → List ℕ → Operation svc Text
  put_buffer bucket key buf b =
      let (result, s) = svc.upload_buffer bucket key buf (md5_sum buf) b.service in
      (
        elim result [
          | done u ↦ ok (quoted (md5_sum buf))
          | refused e ↦ failing (codes "upload buffer failed") e
        ],
        at_state svc s b,
      )

  -- PutObject of a stream; a hash that cannot be stored is logged
  unfoldable pub put_stream : Text → Text → Int64 → List ℕ × Bool → Operation svc Text
  put_stream bucket key size body b =
      let (result, s) =
        svc.upload_stream stream_block_size (stream_concurrency size) bucket key body b.service in
      elim result [
        | refused e ↦ (failing (codes "upload stream failed") e, at_state svc s b)
        | done u ↦ (
          ok (quoted (md5_sum body.0)),
          at_state svc (svc.set_content_md5 bucket key (md5_sum body.0) s).1 b,
        )
      ]

  -- PutObject, on the bytes of the reader
  unfoldable pub put_contents : Text → Text → Int64 → List ℕ × Bool → Operation svc Text
  put_contents bucket key size body b =
      if b.limited then put_stream bucket key size body b else elim (in_memory size) [
        | none ↦ put_stream bucket key size body b
        | some n ↦ elim (read_full n body) [
          | none ↦ (failed (codes "failed to read body into memory"), b)
          | some buf ↦ put_buffer bucket key buf b
        ]
      ]

  -- PutObject
  unfoldable pub put_object : Text → Text → Int64 → Reader → Operation svc Text
  put_object bucket key size reader b = put_contents bucket key size (contents reader) b

  -- CopyObject
  unfoldable pub copy_object : Text → Text → Text → Text → Operation svc Text
  copy_object src_bucket src_key bucket key b =
      let (source, b1) = get_object svc src_bucket src_key b in
      elim source [
        | failed e ↦ (failed (codes "failed to open source object for copy: " ++ e), b1)
        | ok info ↦
            let (result, b2) =
              put_contents bucket key (positive info.size) (info.body, info.body_fails) b1 in
            (
              elim result [
                | failed e ↦ failed (codes "failed to upload destination object for copy: " ++ e)
                | ok etag ↦ ok etag
              ],
              b2,
            )
      ]
