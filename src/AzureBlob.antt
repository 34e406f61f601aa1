-- ===== src/AzureBlob.antt =====
-- The state of AzureBlobBackend of internal/backend/azureblob/client.go, and what it calls of the
-- Azure SDK, which is a parameter.
pub mod Objects
pub mod Puts
pub mod Uploads
pub mod Versions
pub mod Backend
pub mod Account
pub mod Stored
pub mod Opened
pub mod Scheduled
pub mod Fills
pub mod Sliced
pub mod Handled
use azs3_proxy.Prelude.{
  ℕ, Text, codes, eq_text, has_prefix, contains, to_lower, Bool, true, false, ◌&&◌, ◌||◌, Option,
  none, some, List, [], ◌∷◌, ◌++◌, ◌+◌, length, take, ltb, ◌==◌, if◌then◌else◌,
}
use azs3_proxy.Auth.{encode_to_string}
use azs3_proxy.Chunked.{AwsChunkedReader, eof, ReadError, ended, crashed, out_of_fuel, drain}
use azs3_proxy.Download.{Chunk}
use azs3_proxy.Handlers.Types.{Result, ok, failed, Reader, plain, aws_chunked}

-- an error of the SDK: its text, and the code that bloberror.HasCode compares
pub record AzureError : Type 0 where
  pub message : Text
  pub code : Text

pub data Outcome (A : Type 0) : Type 0 where
  done : A → Outcome A
  refused : AzureError → Outcome A

-- What the SDK gives of a blob; a nil pointer is `none`, and a hash that is not there is [].
pub record BlobProperties : Type 0 where
  pub content_length : Option ℕ
  pub last_modified : Option Text
  pub content_md5 : List ℕ
  pub resource_type : Option Text

pub record BlobItem : Type 0 where
  pub name : Option Text
  pub properties : Option BlobProperties
  pub metadata : List (Text × Option Text)
  pub version_id : Option Text

pub record BlobPage : Type 0 where
  pub items : List BlobItem
  pub next_marker : Option Text

-- The calls of the SDK. A pager is the list of its pages. A body is the bytes that it gives, and
-- whether it then ends with an error other than io.EOF. `now` is time.Now, and `time_text` the text
-- of a time. `schedule` is what Go's scheduler decides: the numbers of the chunks of which a worker of
-- a concurrentReader sends the result, in the order of their arrival; a chunk may be missing when the
-- context is done.
pub record BlobService : Type 1 where
  pub State : Type 0
  pub now : State → ℕ × State
  pub time_text : ℕ → Text
  pub list_containers : State → List (Outcome (List (Option Text))) × State
  pub container_properties : Text → State → Outcome (Unit {0}) × State
  pub create_container : Text → State → Outcome (Unit {0}) × State
  pub delete_container : Text → State → Outcome (Unit {0}) × State
  pub blob_properties : Text → Text → State → Outcome BlobProperties × State
  pub upload_buffer : Text → Text → List ℕ → List ℕ → State → Outcome (Unit {0}) × State
  pub upload_stream :
      (block_size concurrency : ℕ)
      → Text
      → Text
      → List ℕ × Bool
      → State
      → Outcome (Unit {0}) × State
  pub set_content_md5 : Text → Text → List ℕ → State → Outcome (Unit {0}) × State
  pub delete_blob : Text → Text → State → Outcome (Unit {0}) × State
  pub download : Text → Text → Option (ℕ × ℕ) → State → Outcome (List ℕ × Bool) × State
  pub schedule : Text → Text → State → List ℕ
  pub list_blobs :
      Text → Option Text → Option Text → Option ℕ → State → List (Outcome BlobPage) × State
  pub stage_block : Text → Text → Text → List ℕ → State → Outcome (Unit {0}) × State
  pub commit_block_list : Text → Text → List Text → State → Outcome (Unit {0}) × State

-- MultipartUploadMetadata, with the three maps of the parts as one; `initiated` is a time
pub record PartData : Type 0 where
  pub block_id : Text
  pub md5 : List ℕ
  pub etag : Text

pub record MultipartUploadMetadata : Type 0 where
  pub upload_id : Text
  pub bucket_name : Text
  pub object_key : Text
  pub parts : List (ℕ × PartData)
  pub initiated : ℕ

-- fmt.Errorf with what failed and the error
abbrev pub failing : {A : Type 0} → Text → AzureError → Result A
failing what e = failed (what ++ codes ": " ++ e.message)

-- bloberror.HasCode
abbrev pub has_code : AzureError → Text → Bool
has_code e code = eq_text e.code code

-- strings.EqualFold on ASCII
abbrev pub equal_fold : Text → Text → Bool
equal_fold s t = eq_text (to_lower s) (to_lower t)

-- a quoted hash
abbrev pub quoted : List ℕ → Text
quoted hash = b'"' ∷ (encode_to_string hash ++ b'"' ∷ [])

-- etagFromContentMD5
unfoldable pub etag_from_content_md5 : List ℕ → Text
etag_from_content_md5 hash = if length hash == 16 then quoted hash else []

-- isHNSDirectoryMarker
unfoldable pub is_folder : List (Text × Option Text) → Bool
is_folder [] = false
is_folder ((k, none) ∷ metadata) = is_folder metadata
is_folder ((k, some v) ∷ metadata) =
    (equal_fold k (codes "hdi_isfolder") && equal_fold v (codes "true")) || is_folder metadata

abbrev resource_type_of : Option BlobProperties → Option Text
resource_type_of none = none
resource_type_of (some props) = props.resource_type

unfoldable pub is_hns_directory_marker : Option BlobProperties → List (Text × Option Text) → Bool
is_hns_directory_marker props metadata = elim (resource_type_of props) [
  | none ↦ is_folder metadata
  | some t ↦ equal_fold t (codes "directory") || is_folder metadata
]

-- What reading the body of a request gives: the bytes, and whether an error other than io.EOF, or a
-- panic, follows them. The reads of a chunked body have any size. A plain body is complete: that a
-- client drops the connection within it is not modelled.
unfoldable pub contents : Reader → List ℕ × Bool
contents (plain bytes) = (bytes, false)
contents (aws_chunked r) = elim (drain (1 + length r.input) (λ i. 8192) (λ i. 8192) r) [
  | ended bytes e ↦ (bytes, elim e [ eof ↦ false | _ ↦ true ])
  | crashed bytes ↦ (bytes, true)
  | out_of_fuel bytes ↦ (bytes, true)
]

-- io.ReadFull into a buffer of a size; `none` where the body is shorter
unfoldable pub read_full : ℕ → List ℕ × Bool → Option (List ℕ)
read_full size (bytes, fails) = if ltb (length bytes) size then none else some (take size bytes)

module _ (svc : BlobService) where
  -- `versioned` are the keys of versionedBuckets; `limited` is whether there is a limiter, which
  -- delays the bytes of a body and changes none
  pub record AzureBlobBackend : Type 0 where
    pub service : svc.State
    pub uploads : List (Text × MultipartUploadMetadata)
    pub versioned : List Text
    pub limited : Bool

  abbrev pub at_state : svc.State → AzureBlobBackend → AzureBlobBackend
  at_state s b = record b { service = s }

  -- an operation of the backend
  abbrev pub Operation : Type 0 → Type 0
  Operation A = AzureBlobBackend → Result A × AzureBlobBackend
