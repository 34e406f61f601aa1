-- ===== src/Tests/Opened.antt =====
-- Reads and copies of the Azure backend, over an account that is a function.
use azs3_proxy.Prelude.{
  ℕ, ◌+◌, ◌≡◌, ◌≢◌, refl, Text, codes, eq_text, false, some, List, [], length, slice,
}
use azs3_proxy.Handlers.Types.{ok, ObjectInfo}
use azs3_proxy.AzureBlob.{etag_from_content_md5}
use azs3_proxy.AzureBlob.Objects.{get_object, open_body, get_object_range, info_of, clamped}
use azs3_proxy.AzureBlob.Puts.{copy_object}
use azs3_proxy.AzureBlob.Opened.{Opened, OpenedIf, get_object-Opened}
use azs3_proxy.AzureBlob.Scheduled.{AllSent}
use azs3_proxy.AzureBlob.Sliced.{get_object_range-Opened}
use azs3_proxy.AzureBlob.Fills.{Copied, copy_object-Copied}
use azs3_proxy.Tests.Blobs.{service0, objects0, account0, all_sent0}
use azs3_proxy.Tests.Uploaded.{bucket0, key0, hash0, backend0}

abbrev info0 : ℕ → Text → ObjectInfo
info0 size body = record {
  body = body;
  body_fails = false;
  last_modified = some [];
  size = size;
  etag = [];
}

opens0 : (get_object service0 bucket0 key0 backend0).0 ≡ ok (info0 5 (codes "hello"))
unfolding get_object open_body info_of etag_from_content_md5 eq_text
opens0 = refl

get_object-Opened_example :
    (content : List ℕ) × (objects0 backend0.service bucket0 key0 ≡ some content)
    × OpenedIf
        (AllSent service0 objects0 account0 bucket0 key0
          (service0.blob_properties bucket0 key0 backend0.service).1)
        content
        (codes "hello", false)
    × (5 ≡ length content)
get_object-Opened_example =
    get_object-Opened service0 objects0 account0 bucket0 key0 backend0 (info0 5 (codes "hello"))
      opens0

slices0 : (get_object_range service0 bucket0 key0 1 3 backend0).0 ≡ ok (info0 3 (codes "ell"))
unfolding get_object_range info_of etag_from_content_md5 eq_text clamped slice
slices0 = refl

get_object_range-Opened_example :
    (content : List ℕ) × (objects0 backend0.service bucket0 key0 ≡ some content)
    × Opened (slice content 1 (1 + 3)) (codes "ell", false)
    × (content ≢ [] → 3 ≡ length (slice content 1 (1 + 3)))
get_object_range-Opened_example =
    get_object_range-Opened service0 objects0 account0 bucket0 key0 1 3 backend0
      (info0 3 (codes "ell")) slices0

copy_object-Copied_example :
    Copied service0 hash0 objects0 account0 bucket0 key0 bucket0
      (codes "copy")
      backend0
      (copy_object service0 hash0 bucket0 key0 bucket0 (codes "copy") backend0)
copy_object-Copied_example =
    copy_object-Copied service0 hash0 objects0 account0 bucket0 key0 bucket0 (codes "copy") backend0
      (all_sent0 bucket0 key0 backend0.service)
