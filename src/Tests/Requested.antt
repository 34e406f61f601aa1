-- ===== src/Tests/Requested.antt =====
-- The theorems of lists, of batches and of upload parts, on concrete requests.
use azs3_proxy.Prelude.{
  ℕ, ◌≤◌, ◌≡◌, ◌≢◌, ◌↔◌, refl, Text, codes, eq_text, has_prefix, false, Option, none, some, List,
  [], ◌∷◌, map, ◌⊎◌, arith, if◌then◌else◌,
}
use azs3_proxy.Range.Numbers.{positive, parse_int}
use azs3_proxy.Handlers.Types.{
  ObjectListItem, DeleteResult, delete_result, xml_reply, query_get, S3Request, S3Handler,
}
use azs3_proxy.Handlers.Ranges.{get_object_handler}
use azs3_proxy.Handlers.Listing.{
  index_of, list_object, seen_prefix, common_prefix, list_entries, max_keys,
}
use azs3_proxy.Handlers.Listing.Groups.{
  directs, prefixes, Among, Once, list_entries-directs, max_keys_bounds,
}
use azs3_proxy.Handlers.Batch.{DeleteRequest, delete_objects_handler}
use azs3_proxy.Handlers.Batch.Accounts.{asked, answered, delete_objects_handler-asked}
use azs3_proxy.Handlers.Multipart.{
  upload_id, send_part, upload_part_handler, complete_multipart_upload_handler,
}
use azs3_proxy.Handlers.Versions.{delete_object_version_handler}
use azs3_proxy.Handlers.Parts.{upload_part_handler-part_number_of, get_object_handler-unmarked}
use azs3_proxy.Handlers.Races.{IsHit}
use azs3_proxy.Tests.Handled.{storage0, cache0, known, request, request-IsPlain}

abbrev item : Text → ObjectListItem
item key = record { key = key; size = 1; last_modified = none; etag = [] }

abbrev items0 : List ObjectListItem
items0 = item (codes "a/x/1") ∷ item (codes "a/y") ∷ item (codes "a/x/2") ∷ []

list_test :
    list_entries [] (codes "a/") (codes "/") items0
    ≡ some (list_object [] (item (codes "a/y")) ∷ [], codes "a/x/" ∷ [])
unfolding list_entries azs3_proxy.Handlers.Listing.group azs3_proxy.Handlers.Listing.group_item
    common_prefix index_of seen_prefix has_prefix eq_text
list_test = refl

list_entries-directs_example :
    (ps : List Text) × (list_entries [] (codes "a/") (codes "/") items0
      ≡ some (map (list_object []) (directs (codes "a/") (codes "/") items0), ps))
    × Once ps
    × ((q : Text) → Among q ps ↔ Among q (prefixes (codes "a/") (codes "/") items0))
list_entries-directs_example =
    list_entries-directs [] (codes "a/") b'/' [] items0
      (omega arith, (omega arith, (omega arith, tt)))

abbrev two_keys : DeleteRequest
two_keys = record {
  objects =
      record { key = codes "k"; version_id = [] }
      ∷ record { key = codes "q"; version_id = codes "1" }
      ∷ record { key = codes "k"; version_id = [] }
      ∷ [];
  quiet = false;
}

delete_objects_handler-asked_example :
    (d : DeleteResult) × ((delete_objects_handler
        (storage0 (λ n. n))
        cache0
        (λ b. some two_keys)
        (request [])
        known).0
      ≡ xml_reply (delete_result d))
    × (answered (codes "k") d ≡ asked (codes "k") two_keys.objects)
    × (answered [] d ≡ 0)
delete_objects_handler-asked_example =
    delete_objects_handler-asked (storage0 (λ n. n)) cache0 (λ b. some two_keys) (request []) known
      two_keys b'k' [] refl refl

abbrev part_query : Text → Option Text
part_query k =
    if eq_text k (codes "partNumber")
    then some (codes "10001")
    else if eq_text k (codes "uploadId")
    then some (codes "u")
    else none

abbrev part_request : S3Request
part_request = record (request []) { query = part_query }

upload_part_handler-part_number_of_example :
    (((upload_part_handler (storage0 (λ n. n)) cache0 part_request known).0.status ≡ 500)
      × ((upload_part_handler (storage0 (λ n. n)) cache0 part_request known).1 ≡ known))
    ⊎ ((n : ℕ) × (1 ≤ n)
        × (n ≤ 10000)
        × (upload_id part_request ≢ [])
        × (parse_int 10 (query_get part_request (codes "partNumber")) ≡ some (positive n))
        × (upload_part_handler (storage0 (λ n. n)) cache0 part_request known
            ≡ send_part (storage0 (λ n. n)) cache0 n part_request known))
upload_part_handler-part_number_of_example =
    upload_part_handler-part_number_of (storage0 (λ n. n)) cache0 part_request known

abbrev cached0 : Text → Option (List ℕ)
cached0 k = if eq_text k (codes "b/k") then some (9 ∷ []) else none

abbrev warm : S3Handler (storage0 (λ n. n)) cache0
warm = record known { cache_state = some cached0 }

get_object_handler-unmarked_example :
    IsHit
      (9 ∷ [])
      (get_object_handler
        (storage0 (λ n. n))
        cache0
        []
        (request [])
        (complete_multipart_upload_handler
          (storage0 (λ n. n))
          cache0
          (λ b. some [])
          (request [])
          warm).1).0
    × IsHit
        (9 ∷ [])
        (get_object_handler
          (storage0 (λ n. n))
          cache0
          []
          (request [])
          (delete_object_version_handler (storage0 (λ n. n)) cache0 (request []) warm).1).0
unfolding eq_text
get_object_handler-unmarked_example =
    get_object_handler-unmarked (storage0 (λ n. n)) cache0 [] (λ b. some []) (request [])
      (request []) (9 ∷ []) cached0 warm (request-IsPlain []) refl refl

max_keys_bounds_example : (1 ≤ max_keys (codes "5000")) × (max_keys (codes "5000") ≤ 1000)
max_keys_bounds_example = max_keys_bounds (codes "5000")
