-- ===== src/Stats.antt =====
-- internal/models/s3_stats.go: the counters of each S3 method and their totals, each an int64 that
-- wraps. The success rates are floats and are left out.
pub mod Totals
use azs3_proxy.Prelude.{ℕ, Bool, true, false, add64, if◌then◌else◌}

-- a field of S3OperationStats for each method
pub data Method : Type 0 where
  list_buckets create_bucket delete_bucket list_objects_v2 get_object : Method
  put_object delete_object head_object delete_multiple initiate_multi : Method
  upload_part complete_multi abort_multi list_parts list_multi_uploads : Method
  enable_version get_version list_obj_versions get_obj_version delete_obj_version : Method

pub record S3MethodStats : Type 0 where
  pub successes : ℕ
  pub failures : ℕ

pub record S3OperationStats : Type 0 where
  pub methods : Method → S3MethodStats
  pub total_successes : ℕ
  pub total_failures : ℕ

abbrev pub same_method : Method → Method → Bool
same_method list_buckets list_buckets = true
same_method create_bucket create_bucket = true
same_method delete_bucket delete_bucket = true
same_method list_objects_v2 list_objects_v2 = true
same_method get_object get_object = true
same_method put_object put_object = true
same_method delete_object delete_object = true
same_method head_object head_object = true
same_method delete_multiple delete_multiple = true
same_method initiate_multi initiate_multi = true
same_method upload_part upload_part = true
same_method complete_multi complete_multi = true
same_method abort_multi abort_multi = true
same_method list_parts list_parts = true
same_method list_multi_uploads list_multi_uploads = true
same_method enable_version enable_version = true
same_method get_version get_version = true
same_method list_obj_versions list_obj_versions = true
same_method get_obj_version get_obj_version = true
same_method delete_obj_version delete_obj_version = true
same_method _ _ = false

abbrev pub record_success : S3MethodStats → S3MethodStats
record_success m = record m { successes = add64 m.successes 1 }

abbrev pub record_failure : S3MethodStats → S3MethodStats
record_failure m = record m { failures = add64 m.failures 1 }

abbrev pub set_method : Method → S3MethodStats → (Method → S3MethodStats) → Method → S3MethodStats
set_method m v f n = if same_method m n then v else f n

-- The body that the twenty Record functions share, over the field that each names.
unfoldable pub record_result : Method → Bool → S3OperationStats → S3OperationStats
record_result m true s = record s {
  methods = set_method m (record_success (s.methods m)) s.methods;
  total_successes = add64 s.total_successes 1;
}
record_result m false s = record s {
  methods = set_method m (record_failure (s.methods m)) s.methods;
  total_failures = add64 s.total_failures 1;
}

abbrev pub record_list_buckets : Bool → S3OperationStats → S3OperationStats
record_list_buckets = record_result list_buckets

abbrev pub record_create_bucket : Bool → S3OperationStats → S3OperationStats
record_create_bucket = record_result create_bucket

abbrev pub record_delete_bucket : Bool → S3OperationStats → S3OperationStats
record_delete_bucket = record_result delete_bucket

abbrev pub record_list_objects_v2 : Bool → S3OperationStats → S3OperationStats
record_list_objects_v2 = record_result list_objects_v2

abbrev pub record_get_object : Bool → S3OperationStats → S3OperationStats
record_get_object = record_result get_object

abbrev pub record_put_object : Bool → S3OperationStats → S3OperationStats
record_put_object = record_result put_object

abbrev pub record_delete_object : Bool → S3OperationStats → S3OperationStats
record_delete_object = record_result delete_object

abbrev pub record_head_object : Bool → S3OperationStats → S3OperationStats
record_head_object = record_result head_object

abbrev pub record_delete_multiple : Bool → S3OperationStats → S3OperationStats
record_delete_multiple = record_result delete_multiple

abbrev pub record_initiate_multipart : Bool → S3OperationStats → S3OperationStats
record_initiate_multipart = record_result initiate_multi

abbrev pub record_upload_part : Bool → S3OperationStats → S3OperationStats
record_upload_part = record_result upload_part

abbrev pub record_complete_multipart : Bool → S3OperationStats → S3OperationStats
record_complete_multipart = record_result complete_multi

abbrev pub record_abort_multipart : Bool → S3OperationStats → S3OperationStats
record_abort_multipart = record_result abort_multi

abbrev pub record_list_parts : Bool → S3OperationStats → S3OperationStats
record_list_parts = record_result list_parts

abbrev pub record_list_multipart_uploads : Bool → S3OperationStats → S3OperationStats
record_list_multipart_uploads = record_result list_multi_uploads

abbrev pub record_enable_versioning : Bool → S3OperationStats → S3OperationStats
record_enable_versioning = record_result enable_version

abbrev pub record_get_versioning : Bool → S3OperationStats → S3OperationStats
record_get_versioning = record_result get_version

abbrev pub record_list_object_versions : Bool → S3OperationStats → S3OperationStats
record_list_object_versions = record_result list_obj_versions

abbrev pub record_get_object_version : Bool → S3OperationStats → S3OperationStats
record_get_object_version = record_result get_obj_version

abbrev pub record_delete_object_version : Bool → S3OperationStats → S3OperationStats
record_delete_object_version = record_result delete_obj_version

-- `Reset`, and the zero value
abbrev pub zero_stats : S3OperationStats
zero_stats = record {
  methods = λ m. record { successes = 0; failures = 0 };
  total_successes = 0;
  total_failures = 0;
}

pub record MethodStatsSnapshot : Type 0 where
  pub success : ℕ
  pub failure : ℕ
  pub total : ℕ

pub record StatsSnapshot : Type 0 where
  pub methods : Method → MethodStatsSnapshot
  pub total_successes : ℕ
  pub total_failures : ℕ
  pub total_requests : ℕ

-- GetStats, without the rates
unfoldable pub get_stats : S3OperationStats → StatsSnapshot
get_stats s = record {
  methods = λ m. record {
    success = (s.methods m).successes;
    failure = (s.methods m).failures;
    total = add64 (s.methods m).successes (s.methods m).failures;
  };
  total_successes = s.total_successes;
  total_failures = s.total_failures;
  total_requests = add64 s.total_successes s.total_failures;
}
