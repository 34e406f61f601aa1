-- ===== src/AzureBlob/Uploads.antt =====
-- The multipart uploads: parts are staged as blocks, and committed in the order of their numbers.
pub mod BlockIds
pub mod Distinct
pub mod Ordered
pub mod Assembled
pub mod Completed
pub mod Shared
use azs3_proxy.Prelude.{
  ℕ, ◌+◌, ◌-◌, ◌/◌, ◌%◌, Text, codes, eq_text, Bool, true, false, not, ◌&&◌, ◌||◌, Option, none,
  some, List, [], ◌∷◌, ◌++◌, map, length, lookup, delete, insert, leb, ltb, ◌==◌, if◌then◌else◌,
}
use azs3_proxy.Auth.{encode_to_string}
use azs3_proxy.Range.Numbers.{Int64}
use azs3_proxy.Range.Decimal.{decimal}
use azs3_proxy.Handlers.Types.{Result, ok, failed, Reader, Part, UploadInfo}
use azs3_proxy.AzureBlob.{
  done, refused, BlobService, PartData, MultipartUploadMetadata, failing, quoted, contents,
  read_full, AzureBlobBackend, at_state, Operation,
}
use azs3_proxy.AzureBlob.Puts.{in_memory}
use azs3_proxy.AzureBlob.Uploads.BlockIds.{block_id}

-- The maps of the parts, by part number.
abbrev pub Parts : Type 0
Parts = List (ℕ × PartData)

unfoldable pub find_part : ℕ → Parts → Option PartData
find_part n [] = none
find_part n ((j, part) ∷ parts) = if j == n then some part else find_part n parts

unfoldable pub delete_part : ℕ → Parts → Parts
delete_part n [] = []
delete_part n ((j, part) ∷ parts) =
    let rest = delete_part n parts in if j == n then rest else (j, part) ∷ rest

unfoldable pub set_part : ℕ → PartData → Parts → Parts
unfolding delete_part
set_part n part parts = (n, part) ∷ delete_part n parts

unfoldable pub insert_sorted : ℕ → PartData → Parts → Parts
insert_sorted n part [] = (n, part) ∷ []
insert_sorted n part ((j, other) ∷ parts) =
    let rest = insert_sorted n part parts in
    if ltb n j then (n, part) ∷ ((j, other) ∷ parts) else (j, other) ∷ rest

-- the parts in the order of sort.Ints on their numbers
unfoldable pub sorted_parts : Parts → Parts
sorted_parts [] = []
sorted_parts ((n, part) ∷ parts) = insert_sorted n part (sorted_parts parts)

abbrev pub block_ids : Parts → List Text
block_ids [] = []
block_ids ((n, part) ∷ parts) = part.block_id ∷ block_ids parts

abbrev pub digests : Parts → List ℕ
digests [] = []
digests ((n, part) ∷ parts) = part.md5 ++ digests parts

-- the entries of ListParts; an ETag that is empty is made of the hash
unfoldable pub listed_parts : Parts → List Part
listed_parts [] = []
listed_parts ((n, part) ∷ parts) =
    record {
      part_number = n;
      etag = elim part.etag [ [] ↦ quoted part.md5 | c ∷ s ↦ c ∷ s ];
      size = 0;
    }
    ∷ listed_parts parts

-- the bytes of a part: as many as the request says, or all
unfoldable pub read_part : Int64 → List ℕ × Bool → Result (List ℕ)
read_part size body = elim (in_memory size) [
  | some n ↦ elim (read_full n body) [
    | none ↦ failed (codes "failed to read part body")
    | some buf ↦ ok buf
  ]
  | none ↦ if body.1 then failed (codes "failed to read part data") else ok body.0
]

-- the upload that a call names, if it is one of the bucket and the key
unfoldable pub upload_of :
    Text → Text → Text → List (Text × MultipartUploadMetadata) → Result MultipartUploadMetadata
upload_of bucket key upload_id uploads = elim (lookup upload_id uploads) [
  | none ↦ failed (codes "no such upload: " ++ upload_id)
  | some upload ↦
      if eq_text upload.bucket_name bucket && eq_text upload.object_key key
      then ok upload
      else failed (codes "upload ID does not match bucket/key")
]

-- the entries of ListMultipartUploads, with the text of a time
unfoldable pub listed_uploads :
    (ℕ → Text) → Text → List (Text × MultipartUploadMetadata) → List UploadInfo
listed_uploads time_text bucket [] = []
listed_uploads time_text bucket ((upload_id, upload) ∷ uploads) =
    let rest = listed_uploads time_text bucket uploads in
    if eq_text upload.bucket_name bucket
    then record {
      key = upload.object_key;
      upload_id = upload.upload_id;
      initiated = time_text upload.initiated;
    }
      ∷ rest
    else rest

module _ (svc : BlobService) where
  -- InitiateMultipartUpload; the time of the id is also the one of the upload
  unfoldable pub initiate_multipart_upload : Text → Text → Operation svc Text
  initiate_multipart_upload bucket key b =
      let (nanos, s) = svc.now b.service in
      let upload_id = bucket ++ (b'-' ∷ (key ++ (b'-' ∷ decimal nanos))) in
      let upload : MultipartUploadMetadata = record {
        upload_id = upload_id;
        bucket_name = bucket;
        object_key = key;
        parts = [];
        initiated = nanos;
      } in
      (ok upload_id, record b { service = s; uploads = insert upload_id upload b.uploads })

  -- AbortMultipartUpload
  unfoldable pub abort_multipart_upload : Text → Text → Text → Operation svc (Unit {0})
  abort_multipart_upload bucket key upload_id b = elim (upload_of bucket key upload_id b.uploads) [
    | failed e ↦ (failed e, b)
    | ok upload ↦ (ok tt, record b { uploads = delete upload_id b.uploads })
  ]

  -- ListParts
  unfoldable pub list_parts : Text → Text → Text → Operation svc (List Part)
  list_parts bucket key upload_id b = elim (upload_of bucket key upload_id b.uploads) [
    | failed e ↦ (failed e, b)
    | ok upload ↦ (ok (listed_parts (sorted_parts upload.parts)), b)
  ]

  -- ListMultipartUploads
  unfoldable pub list_multipart_uploads : Text → Operation svc (List UploadInfo)
  list_multipart_uploads bucket b = (ok (listed_uploads svc.time_text bucket b.uploads), b)

module _ (svc : BlobService) (md5_sum : List ℕ → List ℕ) where
  -- UploadPart, for an upload that it has found and bytes that it has read
  unfoldable pub stage_part : MultipartUploadMetadata → Text → ℕ → List ℕ → Operation svc Text
  stage_part upload upload_id part_number bytes b =
      let (result, s) =
        svc.stage_block upload.bucket_name upload.object_key (block_id part_number) bytes
          b.service in
      elim result [
        | refused e ↦ (failing (codes "failed to stage block") e, at_state svc s b)
        | done u ↦
            let etag = quoted (md5_sum bytes) in
            let part : PartData = record {
              block_id = block_id part_number;
              md5 = md5_sum bytes;
              etag = etag;
            } in
            let upload1 = record upload { parts = set_part part_number part upload.parts } in
            (ok etag, record b { service = s; uploads = insert upload_id upload1 b.uploads })
      ]

  -- UploadPart
  unfoldable pub upload_part : Text → Text → Text → ℕ → Int64 → Reader → Operation svc Text
  upload_part bucket key upload_id part_number size reader b =
      elim (upload_of bucket key upload_id b.uploads) [
        | failed e ↦ (failed e, b)
        | ok upload ↦ elim (read_part size (contents reader)) [
          | failed e ↦ (failed e, b)
          | ok bytes ↦ stage_part upload upload_id part_number bytes b
        ]
      ]

  -- CompleteMultipartUpload, for an upload that it has found, and its parts in order
  unfoldable pub commit_parts : MultipartUploadMetadata → Text → Parts → Operation svc Text
  commit_parts upload upload_id parts b =
      let (result, s) =
        svc.commit_block_list upload.bucket_name upload.object_key (block_ids parts) b.service in
      elim result [
        | refused e ↦ (failing (codes "failed to commit block list") e, at_state svc s b)
        | done u ↦ (
          ok (
              b'"'
              ∷ (encode_to_string (md5_sum (digests parts))
                  ++ (b'-' ∷ (decimal (length parts) ++ (b'"' ∷ []))))),
          record b { service = s; uploads = delete upload_id b.uploads },
        )
      ]

  -- CompleteMultipartUpload; the parts that the client names are not looked at
  unfoldable pub complete_multipart_upload :
      Text → Text → Text → List (ℕ × Text) → Operation svc Text
  complete_multipart_upload bucket key upload_id part_etags b =
      elim (upload_of bucket key upload_id b.uploads) [
        | failed e ↦ (failed e, b)
        | ok upload ↦ elim upload.parts [
          | [] ↦ (failed (codes "no parts uploaded"), b)
          | part ∷ parts ↦ commit_parts upload upload_id (sorted_parts (part ∷ parts)) b
        ]
      ]
