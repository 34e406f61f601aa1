-- ===== src/Handlers/Versions.antt =====
-- The handlers of object versions.
use azs3_proxy.Prelude.{codes, true, false, [], ◌∷◌, ◌++◌, eq_text, if◌then◌else◌}
use azs3_proxy.Stats.{record_get_object_version, record_delete_object_version}
use azs3_proxy.Handlers.Types.{
  ok, failed, StorageBackend, ObjectCache, S3Request, bytes, status_only, backend_error, query_get,
  Handling, after,
}
use azs3_proxy.Handlers.Objects.{object_key, resource, last_modified_header}

module _ (backend : StorageBackend) (cache : ObjectCache) where
  -- GetObjectVersionHandler
  unfoldable pub get_object_version_handler : S3Request → Handling backend cache
  get_object_version_handler r h =
      let version_id = query_get r (codes "versionId") in
      let (result, s) = backend.get_object_version r.bucket (object_key r) version_id h.storage in
      elim result [
        | failed e ↦ (
          backend_error e (resource r),
          after backend cache s (record_get_object_version false) h,
        )
        | ok info ↦ (
          record {
            status = 200;
            headers =
                (codes "Content-Type", codes "application/octet-stream")
                ∷ ((if eq_text version_id []
                      then []
                      else (codes "x-amz-version-id", version_id) ∷ [])
                    ++ last_modified_header info.last_modified);
            payload = bytes info.body;
          },
          after backend cache s (record_get_object_version true) h,
        )
      ]

  -- DeleteObjectVersionHandler, which leaves the cache as it is
  unfoldable pub delete_object_version_handler : S3Request → Handling backend cache
  delete_object_version_handler r h =
      let (result, s) =
        backend.delete_object_version r.bucket (object_key r) (query_get r (codes "versionId"))
          h.storage in
      elim result [
        | failed e ↦ (
          backend_error e (resource r),
          after backend cache s (record_delete_object_version false) h,
        )
        | ok _ ↦ (status_only 204, after backend cache s (record_delete_object_version true) h)
      ]
