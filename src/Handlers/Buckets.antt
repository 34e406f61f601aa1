-- ===== src/Handlers/Buckets.antt =====
-- The bucket handlers.
use azs3_proxy.Prelude.{codes, true, false, [], ◌∷◌, if◌then◌else◌}
use azs3_proxy.Stats.{
  record_list_buckets, record_delete_bucket, record_enable_versioning, record_get_versioning,
}
use azs3_proxy.Handlers.Types.{
  ok, failed, StorageBackend, ObjectCache, S3Request, bucket_list, versioning_status, status_only,
  xml_reply, backend_error, internal, Handling, after, stored,
}

module _ (backend : StorageBackend) (cache : ObjectCache) where
  -- ListBucketsHandler
  unfoldable pub list_buckets_handler : Handling backend cache
  list_buckets_handler h =
      let (result, s) = backend.list_buckets h.storage in
      elim result [
        | failed e ↦ (
          internal (codes "Failed to list buckets") [],
          after backend cache s (record_list_buckets false) h,
        )
        | ok names ↦
            (xml_reply (bucket_list names), after backend cache s (record_list_buckets true) h)
      ]

  -- HeadBucketHandler
  unfoldable pub head_bucket_handler : S3Request → Handling backend cache
  head_bucket_handler r h =
      let (result, s) = backend.head_bucket r.bucket h.storage in
      (
        elim result [
          | failed e ↦ status_only 500
          | ok exists ↦ status_only (if exists then 200 else 404)
        ],
        stored backend cache s h,
      )

  -- CreateBucketHandler, which counts nothing
  unfoldable pub create_bucket_handler : S3Request → Handling backend cache
  create_bucket_handler r h =
      let (result, s) = backend.create_bucket r.bucket h.storage in
      (
        elim result [ failed e ↦ backend_error e (b'/' ∷ r.bucket) | ok _ ↦ status_only 200 ],
        stored backend cache s h,
      )

  -- DeleteBucketHandler, which counts no failure
  unfoldable pub delete_bucket_handler : S3Request → Handling backend cache
  delete_bucket_handler r h =
      let (result, s) = backend.delete_bucket r.bucket h.storage in
      elim result [
        | failed e ↦ (backend_error e (b'/' ∷ r.bucket), stored backend cache s h)
        | ok _ ↦ (status_only 204, after backend cache s (record_delete_bucket true) h)
      ]

  -- EnableVersioningHandler
  unfoldable pub enable_versioning_handler : S3Request → Handling backend cache
  enable_versioning_handler r h =
      let (result, s) = backend.enable_versioning r.bucket h.storage in
      elim result [
        | failed e ↦ (
          backend_error e (b'/' ∷ r.bucket),
          after backend cache s (record_enable_versioning false) h,
        )
        | ok _ ↦ (
          xml_reply (versioning_status (codes "Enabled")),
          after backend cache s (record_enable_versioning true) h,
        )
      ]

  -- GetVersioningHandler
  unfoldable pub get_versioning_handler : S3Request → Handling backend cache
  get_versioning_handler r h =
      let (result, s) = backend.get_versioning r.bucket h.storage in
      elim result [
        | failed e ↦ (
          backend_error e (b'/' ∷ r.bucket),
          after backend cache s (record_get_versioning false) h,
        )
        | ok enabled ↦ (
          xml_reply (versioning_status (if enabled then codes "Enabled" else codes "Suspended")),
          after backend cache s (record_get_versioning true) h,
        )
      ]
