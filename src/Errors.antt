-- ===== src/Errors.antt =====
-- internal/models/errors.go: S3 error codes, and the codes for errors of the Azure SDK.
pub mod Laws
use azs3_proxy.Prelude.{
  ℕ, Text, codes, Bool, List, [], ◌∷◌, Option, none, some, contains, to_lower, if◌then◌else◌,
}

-- The named codes, and any other string.
pub data S3ErrorCode : Type 0 where
  no_such_key no_such_bucket bucket_already_exists access_denied invalid_bucket_name : S3ErrorCode
  invalid_argument invalid_range internal_error malformed_xml : S3ErrorCode
  other_code : Text → S3ErrorCode

-- ErrorCodeToHTTPStatus
unfoldable pub error_code_to_http_status : S3ErrorCode → Option ℕ
error_code_to_http_status no_such_key = some 404
error_code_to_http_status no_such_bucket = some 404
error_code_to_http_status bucket_already_exists = some 409
error_code_to_http_status access_denied = some 403
error_code_to_http_status invalid_bucket_name = some 400
error_code_to_http_status invalid_argument = some 400
error_code_to_http_status invalid_range = some 416
error_code_to_http_status internal_error = some 500
error_code_to_http_status malformed_xml = some 400
error_code_to_http_status (other_code _) = none

-- AzureErrorToS3. Error texts of the Azure SDK are ASCII, so `to_lower` is strings.ToLower on them.
unfoldable pub azure_error_to_s3 : Text → S3ErrorCode
azure_error_to_s3 azure_error =
    let error_str = to_lower azure_error in
    if contains error_str (codes "containernotfound")
    then no_such_bucket
    else if contains error_str (codes "blobnotfound")
    then no_such_key
    else if contains error_str (codes "containeralreadyexists")
    then bucket_already_exists
    else if contains error_str (codes "authorizationpermissionmismatch")
    then access_denied
    else if contains error_str (codes "invalidname")
    then invalid_bucket_name
    else internal_error

pub record S3Error : Type 0 where
  pub code : S3ErrorCode
  pub message : Text
  pub resource : Text
  pub request_id : Text

-- HTTPStatus
unfoldable pub http_status : S3Error → ℕ
http_status e = elim (error_code_to_http_status e.code) [ none ↦ 500 | some status ↦ status ]
