-- ===== src/AzureBlob/Backend.antt =====
-- The methods of AzureBlobBackend as the interface StorageBackend has them, for an account that the
-- SDK reaches and a hash.
use azs3_proxy.Prelude.{ℕ, List}
use azs3_proxy.Handlers.Types.{StorageBackend}
use azs3_proxy.AzureBlob.{BlobService, AzureBlobBackend}
use azs3_proxy.AzureBlob.Objects
use azs3_proxy.AzureBlob.Puts
use azs3_proxy.AzureBlob.Uploads
use azs3_proxy.AzureBlob.Versions

abbrev pub azure_blob : BlobService → (List ℕ → List ℕ) → StorageBackend
azure_blob svc md5_sum = record {
  State = AzureBlobBackend svc;
  list_buckets = Objects.list_buckets svc;
  create_bucket = Objects.create_bucket svc;
  delete_bucket = Objects.delete_bucket svc;
  head_bucket = Objects.head_bucket svc;
  put_object = Puts.put_object svc md5_sum;
  copy_object = Puts.copy_object svc md5_sum;
  get_object = Objects.get_object svc;
  get_object_range = Objects.get_object_range svc;
  delete_object = Objects.delete_object svc;
  head_object = Objects.head_object svc;
  list_objects_v2 = Objects.list_objects_v2 svc;
  initiate_multipart_upload = Uploads.initiate_multipart_upload svc;
  upload_part = Uploads.upload_part svc md5_sum;
  complete_multipart_upload = Uploads.complete_multipart_upload svc md5_sum;
  abort_multipart_upload = Uploads.abort_multipart_upload svc;
  list_parts = Uploads.list_parts svc;
  list_multipart_uploads = Uploads.list_multipart_uploads svc;
  enable_versioning = Versions.enable_versioning svc;
  get_versioning = Versions.get_versioning svc;
  list_object_versions = Versions.list_object_versions svc;
  get_object_version = Versions.get_object_version svc;
  delete_object_version = Versions.delete_object_version svc;
}
