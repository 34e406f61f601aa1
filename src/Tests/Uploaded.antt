-- ===== src/Tests/Uploaded.antt =====
-- Runs of the Azure backend over an account that is a function.
use azs3_proxy.Prelude.{
  ℕ, ◌≤◌, ◌≡◌, ◌≢◌, refl, Text, codes, eq_text, eq_text_iff, lookup, insert, delete, false, none,
  some, List, [], ◌∷◌, length, arith,
}
use azs3_proxy.Range.Numbers.{positive}
use azs3_proxy.Range.Decimal.{decimal, decimal_loop}
use azs3_proxy.Handlers.Types.{Result, ok, plain}
use azs3_proxy.AzureBlob.{AzureBlobBackend, contents, read_full, quoted}
use azs3_proxy.AzureBlob.Puts.{in_memory}
use azs3_proxy.AzureBlob.Uploads.{
  initiate_multipart_upload, upload_part, stage_part, upload_of, complete_multipart_upload,
  read_part, set_part, delete_part, insert_sorted, sorted_parts, commit_parts,
}
use azs3_proxy.AzureBlob.Uploads.BlockIds.{block_id, decimal10, encode_base64, sextet}
use azs3_proxy.AzureBlob.Account.{joined}
use azs3_proxy.AzureBlob.Uploads.Ordered.{whole, newest}
use azs3_proxy.AzureBlob.Uploads.Assembled.{Uploading, begins, uploads, elsewhere}
use azs3_proxy.AzureBlob.Uploads.Completed.{Completed, complete_multipart_upload-Completed}
use azs3_proxy.AzureBlob.Uploads.Shared.{replaced, complete_multipart_upload-mixed}
use azs3_proxy.Tests.Handled.{holds}
use azs3_proxy.Tests.Blobs.{service0, objects0, blocks0, staging0}

abbrev pub bucket0 : Text
bucket0 = codes "b"

abbrev pub key0 : Text
key0 = codes "k"

abbrev pub hash0 : List ℕ → List ℕ
hash0 bytes = bytes

abbrev pub backend0 : AzureBlobBackend service0
backend0 = record {
  service = record {
    objects = holds bucket0 key0 (some (codes "hello")) (λ b q. none);
    staged = λ b q id. none;
    clock = 5;
  };
  uploads = [];
  versioned = [];
  limited = false;
}

-- the id of the upload that begins at 5
abbrev first0 : Text
first0 = codes "b-k-5"

abbrev second0 : Text
second0 = codes "b-k-6"

abbrev begun0 : AzureBlobBackend service0
begun0 = (initiate_multipart_upload service0 bucket0 key0 backend0).1

abbrev sends0 :
    Text → ℕ → Text → AzureBlobBackend service0 → Result Text × AzureBlobBackend service0
sends0 id n bytes =
    upload_part service0 hash0 bucket0 key0 id n (positive (length bytes)) (plain bytes)

abbrev part2 : AzureBlobBackend service0
part2 = (sends0 first0 2 (codes "de") begun0).1

abbrev part1 : AzureBlobBackend service0
part1 = (sends0 first0 1 (codes "abc") part2).1

begins0 : (initiate_multipart_upload service0 bucket0 key0 backend0).0 ≡ ok first0
unfolding initiate_multipart_upload decimal decimal_loop
begins0 = refl

reads2 : read_part (positive 2) (contents (plain (codes "de"))) ≡ ok (codes "de")
unfolding read_part contents in_memory read_full
reads2 = refl

reads1 : read_part (positive 3) (contents (plain (codes "abc"))) ≡ ok (codes "abc")
unfolding read_part contents in_memory read_full
reads1 = refl

sends2 : (sends0 first0 2 (codes "de") begun0).0 ≡ ok (quoted (codes "de"))
unfolding initiate_multipart_upload decimal decimal_loop upload_part upload_of lookup insert delete
    eq_text read_part contents in_memory read_full stage_part
sends2 = refl

sends1 : (sends0 first0 1 (codes "abc") part2).0 ≡ ok (quoted (codes "abc"))
unfolding initiate_multipart_upload decimal decimal_loop upload_part upload_of lookup insert delete
    eq_text read_part contents in_memory read_full stage_part set_part
sends1 = refl

abbrev sent0 : List (ℕ × List ℕ)
sent0 = (1, codes "abc") ∷ ((2, codes "de") ∷ [])

abbrev Uploading0 : Text → List (ℕ × List ℕ) → AzureBlobBackend service0 → Type 0
Uploading0 = Uploading service0 hash0 objects0 blocks0 staging0 bucket0 key0

uploading0 : Uploading0 first0 sent0 part1
uploading0 =
    uploads 1 (positive 3) (plain (codes "abc")) (codes "abc") (quoted (codes "abc"))
      (uploads 2 (positive 2) (plain (codes "de")) (codes "de") (quoted (codes "de"))
        (begins backend0 begins0 refl) reads2 sends2 refl)
      reads1 sends1 refl

top0 : (m : ℕ) → 3 ≤ m → newest m sent0 ≡ none
unfolding newest
top0 m h = ground arith

complete_multipart_upload-Completed_example :
    Completed service0 hash0 objects0 blocks0 staging0 bucket0 key0 first0 whole 3 sent0 part1
      (complete_multipart_upload service0 hash0 bucket0 key0 first0 [] part1)
complete_multipart_upload-Completed_example =
    complete_multipart_upload-Completed service0 hash0 objects0 blocks0 staging0 bucket0 key0 first0
      3 sent0 part1 [] uploading0 top0

-- what the commit of that upload leaves
completed0 :
    ((complete_multipart_upload service0 hash0 bucket0 key0 first0 [] part1).1.service.objects
      bucket0 key0)
    ≡ some (codes "abcde")
unfolding initiate_multipart_upload decimal decimal_loop upload_part upload_of lookup insert delete
    eq_text read_part contents in_memory read_full stage_part set_part delete_part
    complete_multipart_upload commit_parts sorted_parts insert_sorted joined block_id decimal10
    encode_base64 sextet
completed0 = refl

abbrev both0 : AzureBlobBackend service0
both0 = (initiate_multipart_upload service0 bucket0 key0 part1).1

clock0 : (initiate_multipart_upload service0 bucket0 key0 part1).0 ≡ ok second0
unfolding initiate_multipart_upload decimal decimal_loop upload_part upload_of lookup insert delete
    eq_text read_part contents in_memory read_full stage_part set_part
clock0 = refl

known0 : lookup first0 both0.uploads ≡ lookup first0 part1.uploads
unfolding initiate_multipart_upload decimal decimal_loop upload_part upload_of lookup insert delete
    eq_text read_part contents in_memory read_full stage_part set_part
known0 = refl

left0 : (id : Text) → blocks0 both0.service bucket0 key0 id ≡ blocks0 part1.service bucket0 key0 id
unfolding initiate_multipart_upload
left0 id = refl

reads3 : read_part (positive 1) (contents (plain (codes "z"))) ≡ ok (codes "z")
unfolding read_part contents in_memory read_full
reads3 = refl

sends3 : (sends0 second0 1 (codes "z") both0).0 ≡ ok (quoted (codes "z"))
unfolding initiate_multipart_upload decimal decimal_loop upload_part upload_of lookup insert delete
    eq_text read_part contents in_memory read_full stage_part set_part
sends3 = refl

differ0 : second0 ≢ first0
unfolding eq_text
differ0 e = let f = (eq_text_iff second0 first0).1 e in cc

complete_multipart_upload-mixed_example :
    Completed service0 hash0 objects0 blocks0 staging0 bucket0 key0 first0
      (replaced 1 (codes "z"))
      3
      sent0
      (sends0 second0 1 (codes "z") both0).1
      (complete_multipart_upload service0 hash0 bucket0 key0 first0 []
        (sends0 second0 1 (codes "z") both0).1)
complete_multipart_upload-mixed_example =
    complete_multipart_upload-mixed service0 hash0 objects0 blocks0 staging0 bucket0 key0 first0
      second0 differ0 3 sent0 [] both0 1 (positive 1) (plain (codes "z")) (codes "z")
      (quoted (codes "z")) [] (elsewhere uploading0 known0 left0) (begins part1 clock0 refl) top0
      reads3 sends3
