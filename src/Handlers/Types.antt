-- ===== src/Handlers/Types.antt =====
-- The interface of internal/backend/backend.go, the requests that the handlers read and the replies
-- that they write, and the state of S3Handler.
use azs3_proxy.Prelude.{ℕ, Text, codes, Bool, true, false, Option, none, some, List, [], ◌∷◌}
use azs3_proxy.Chunked.{AwsChunkedReader}
use azs3_proxy.Errors.{internal_error, azure_error_to_s3, S3Error, http_status}
use azs3_proxy.Range.Numbers.{Int64}
use azs3_proxy.Range.Blocks.{BlockStore}
use azs3_proxy.Stats.{S3OperationStats}

-- `failed` has the text of the error
pub data Result (A : Type 0) : Type 0 where
  ok : A → Result A
  failed : Text → Result A

-- Body: the bytes that it gives, and whether it then ends with an error other than io.EOF.
-- A time that is zero is `none`.
pub record ObjectInfo : Type 0 where
  pub body : List ℕ
  pub body_fails : Bool
  pub last_modified : Option Text
  pub size : ℕ
  pub etag : Text

pub record ObjectListItem : Type 0 where
  pub key : Text
  pub size : ℕ
  pub last_modified : Option Text
  pub etag : Text

pub record ObjectVersion : Type 0 where
  pub key : Text
  pub version_id : Text
  pub etag : Text
  pub size : ℕ
  pub modified : Text
  pub is_latest : Bool

pub record Part : Type 0 where
  pub part_number : ℕ
  pub etag : Text
  pub size : ℕ

pub record UploadInfo : Type 0 where
  pub key : Text
  pub upload_id : Text
  pub initiated : Text

pub record ObjectHead : Type 0 where
  pub exists : Bool
  pub size : ℕ
  pub last_modified : Option Text
  pub etag : Text

-- the reader of an upload that the backend is given
pub data Reader : Type 0 where
  plain : List ℕ → Reader
  aws_chunked : AwsChunkedReader → Reader

-- StorageBackend. Each call takes the state of the storage and gives the next.
pub record StorageBackend : Type 1 where
  pub State : Type 0
  pub list_buckets : State → Result (List Text) × State
  pub create_bucket : Text → State → Result (Unit {0}) × State
  pub delete_bucket : Text → State → Result (Unit {0}) × State
  pub head_bucket : Text → State → Result Bool × State
  pub put_object : Text → Text → Int64 → Reader → State → Result Text × State
  pub copy_object : Text → Text → Text → Text → State → Result Text × State
  pub get_object : Text → Text → State → Result ObjectInfo × State
  pub get_object_range : Text → Text → ℕ → ℕ → State → Result ObjectInfo × State
  pub delete_object : Text → Text → State → Result (Unit {0}) × State
  pub head_object : Text → Text → State → Result ObjectHead × State
  pub list_objects_v2 : Text → Text → Text → ℕ → State → Result (List ObjectListItem × Text) × State
  pub initiate_multipart_upload : Text → Text → State → Result Text × State
  pub upload_part : Text → Text → Text → ℕ → Int64 → Reader → State → Result Text × State
  pub complete_multipart_upload : Text → Text → Text → List (ℕ × Text) → State → Result Text × State
  pub abort_multipart_upload : Text → Text → Text → State → Result (Unit {0}) × State
  pub list_parts : Text → Text → Text → State → Result (List Part) × State
  pub list_multipart_uploads : Text → State → Result (List UploadInfo) × State
  pub enable_versioning : Text → State → Result (Unit {0}) × State
  pub get_versioning : Text → State → Result Bool × State
  pub list_object_versions : Text → Text → State → Result (List ObjectVersion) × State
  pub get_object_version : Text → Text → Text → State → Result ObjectInfo × State
  pub delete_object_version : Text → Text → Text → State → Result (Unit {0}) × State

-- CacheManager as the handlers call it: what Range.Blocks has, and InvalidateObject, with `false`
-- for an error.
pub record ObjectCache : Type 1 where
  pub store : BlockStore
  pub invalidate : Text → store.State → Bool × store.State

-- A request, after the routes: `bucket` and `path` are the URL parameters of chi, `path` the one of
-- the asterisk; `query` has the first value of each key; a header that is missing is `[]`.
pub record S3Request : Type 0 where
  pub bucket : Text
  pub path : Text
  pub query : Text → Option Text
  pub range_header : Text
  pub copy_source : Text
  pub content_sha256 : Text
  pub decoded_content_length : Text
  pub content_length : Int64
  pub body : List ℕ

-- models.Object and what the XML responses hold of it
pub record Object : Type 0 where
  pub key : Text
  pub last_modified : Text
  pub etag : Text
  pub size : ℕ

pub record ListObjectsV2Response : Type 0 where
  pub name : Text
  pub prefix : Text
  pub delimiter : Text
  pub continuation_token : Text
  pub next_continuation_token : Text
  pub key_count : ℕ
  pub max_keys : ℕ
  pub is_truncated : Bool
  pub contents : List Object
  pub common_prefixes : List Text

-- an entry of a DeleteObjects request, and of its answer
pub record ObjectIdentifier : Type 0 where
  pub key : Text
  pub version_id : Text

pub record ErrorResult : Type 0 where
  pub key : Text
  pub version_id : Text
  pub message : Text

pub record DeleteResult : Type 0 where
  pub deleted : List ObjectIdentifier
  pub error : List ErrorResult

-- What follows the headers: nothing, bytes, or a response struct in XML, without the owner, the
-- storage class and the readings of the clock that it holds beside.
pub data Payload : Type 0 where
  no_payload : Payload
  bytes : List ℕ → Payload
  error_response : S3Error → Payload
  bucket_list : List Text → Payload
  object_list : ListObjectsV2Response → Payload
  version_list : List ObjectVersion → Payload
  versioning_status : Text → Payload
  copy_result : Text → Payload
  upload_initiated : Text → Text → Text → Payload
  upload_completed : Text → Text → Text → Payload
  part_list : List Part → Payload
  upload_list : List UploadInfo → Payload
  delete_result : DeleteResult → Payload

pub record Reply : Type 0 where
  pub status : ℕ
  pub headers : List (Text × Text)
  pub payload : Payload

abbrev pub status_only : ℕ → Reply
status_only status = record { status = status; headers = []; payload = no_payload }

abbrev pub xml_type : Text × Text
xml_type = (codes "Content-Type", codes "application/xml")

abbrev pub xml_reply : Payload → Reply
xml_reply payload = record { status = 200; headers = xml_type ∷ []; payload = payload }

-- writeErrorResponse
unfoldable pub write_error_response : S3Error → Reply
write_error_response e = record {
  status = http_status e;
  headers = xml_type ∷ [];
  payload = error_response e;
}

-- the error of the backend as the handlers report it
abbrev pub backend_error : Text → Text → Reply
backend_error message resource = write_error_response (record {
  code = azure_error_to_s3 message;
  message = message;
  resource = resource;
  request_id = [];
})

abbrev pub internal : Text → Text → Reply
internal message resource =
    write_error_response
      (record { code = internal_error; message = message; resource = resource; request_id = [] })

-- `placeholderETag`, with its quotes
abbrev pub placeholder_etag : Text
placeholder_etag = codes "\"d41d8cd98f00b204e9800998ecf8427e\""

abbrev pub or_placeholder : Text → Text
or_placeholder [] = placeholder_etag
or_placeholder (c ∷ s) = c ∷ s

-- Query().Get(key), and Query().Has(key)
abbrev pub query_get : S3Request → Text → Text
query_get r key = elim (r.query key) [ none ↦ [] | some v ↦ v ]

abbrev pub is_set : Option Text → Bool
is_set none = false
is_set (some v) = true

module _ (backend : StorageBackend) (cache : ObjectCache) where
  -- `cache_state` is `none` where no cache manager is set. `pending` has what the goroutines of
  -- GetObject that have not run yet will cache: the key and the bytes.
  pub record S3Handler : Type 0 where
    pub storage : backend.State
    pub cache_state : Option cache.store.State
    pub stats : S3OperationStats
    pub pending : List (Text × List ℕ)

  -- the next state, with the call counted
  abbrev pub after : backend.State → (S3OperationStats → S3OperationStats) → S3Handler → S3Handler
  after s f h = record h { storage = s; stats = f h.stats }

  abbrev pub stored : backend.State → S3Handler → S3Handler
  stored s h = record h { storage = s }

  -- a handler, for a request that it knows
  abbrev pub Handling : Type 0
  Handling = S3Handler → Reply × S3Handler
