-- ===== src/Handlers/Listing.antt =====
-- The handlers that list objects and their versions.
pub mod Groups
use azs3_proxy.Prelude.{
  ℕ, zero, suc, ◌+◌, Text, codes, Bool, true, false, not, ◌||◌, Option, none, some, List, [], ◌∷◌,
  ◌++◌, map, length, take, drop, eq_text, has_prefix, ltb, ◌==◌, if◌then◌else◌,
}
use azs3_proxy.Range.Numbers.{Int64, positive, negative, parse_int}
use azs3_proxy.Stats.{record_list_objects_v2, record_list_object_versions}
use azs3_proxy.Handlers.Types.{
  ok, failed, ObjectListItem, ObjectVersion, StorageBackend, ObjectCache, S3Request, Object,
  ListObjectsV2Response, object_list, version_list, xml_reply, status_only, backend_error,
  or_placeholder, query_get, Handling, after, stored,
}

-- the value of max-keys after strconv.Atoi
unfoldable pub max_keys_of : Option Int64 → ℕ
max_keys_of none = 1000
max_keys_of (some (negative n)) = 1000
max_keys_of (some (positive n)) = if n == 0 || ltb 1000 n then 1000 else n

unfoldable pub max_keys : Text → ℕ
max_keys [] = 1000
max_keys (c ∷ s) = max_keys_of (parse_int 10 (c ∷ s))

-- strings.Index
unfoldable pub index_of : Text → Text → Option ℕ
index_of [] sub = if has_prefix [] sub then some 0 else none
index_of (c ∷ s) sub =
    let rest = index_of s sub in
    if has_prefix (c ∷ s) sub then some 0 else elim rest [ none ↦ none | some i ↦ some (suc i) ]

-- The entry of a list; `now` is the time that stands in for one that is missing.
abbrev pub list_object : Text → ObjectListItem → Object
list_object now item = record {
  key = item.key;
  last_modified = elim item.last_modified [ none ↦ now | some t ↦ t ];
  etag = or_placeholder item.etag;
  size = item.size;
}

-- the map of the prefixes seen
unfoldable pub seen_prefix : Text → List Text → Bool
seen_prefix cp [] = false
seen_prefix cp (p ∷ ps) = eq_text p cp || seen_prefix cp ps

-- the common prefix that a key is grouped under, if it has the delimiter behind the prefix
unfoldable pub common_prefix : Text → Text → Text → Option Text
common_prefix prefix delimiter key =
    let rest = drop (length prefix) key in
    elim (index_of rest delimiter) [
      | none ↦ none
      | some idx ↦ some (prefix ++ take (idx + length delimiter) rest)
    ]

-- one round of the loop that groups keys; the keys of `seen` are the common prefixes so far
unfoldable pub group_item :
    Text → ObjectListItem → Option Text → List Object × List Text → List Object × List Text
group_item now item none (objects, prefixes) = (objects ++ list_object now item ∷ [], prefixes)
group_item now item (some cp) (objects, prefixes) =
    (objects, if seen_prefix cp prefixes then prefixes else prefixes ++ cp ∷ [])

-- The loop. A key shorter than the prefix makes the slice panic, which is `none`.
unfoldable pub group :
    Text
    → Text
    → Text
    → List ObjectListItem
    → List Object × List Text
    → Option (List Object × List Text)
group now prefix delimiter [] entries = some entries
group now prefix delimiter (item ∷ items) entries =
    let more =
      group now prefix delimiter items
        (group_item now item (common_prefix prefix delimiter item.key) entries) in
    if ltb (length item.key) (length prefix) then none else more

-- the contents and the common prefixes of a list
unfoldable pub list_entries :
    Text → Text → Text → List ObjectListItem → Option (List Object × List Text)
list_entries now prefix [] items = some (map (list_object now) items, [])
list_entries now prefix (c ∷ delimiter) items = group now prefix (c ∷ delimiter) items ([], [])

abbrev pub version_entry : ObjectVersion → ObjectVersion
version_entry v = record v { etag = or_placeholder v.etag }

module _ (backend : StorageBackend) (cache : ObjectCache) where
  -- ListObjectsV2Handler; middleware.Recoverer answers a panic with 500
  unfoldable pub list_objects_v2_handler : Text → S3Request → Handling backend cache
  list_objects_v2_handler now r h =
      let prefix = query_get r (codes "prefix") in
      let delimiter = query_get r (codes "delimiter") in
      let token = query_get r (codes "continuation-token") in
      let limit = max_keys (query_get r (codes "max-keys")) in
      let (result, s) = backend.list_objects_v2 r.bucket prefix token limit h.storage in
      elim result [
        | failed e ↦ (
          backend_error e (b'/' ∷ r.bucket),
          after backend cache s (record_list_objects_v2 false) h,
        )
        | ok (items, next_token) ↦ elim (list_entries now prefix delimiter items) [
          | none ↦ (status_only 500, stored backend cache s h)
          | some (objects, prefixes) ↦ (
            xml_reply (
                object_list (record {
                  name = r.bucket;
                  prefix = prefix;
                  delimiter = delimiter;
                  continuation_token = token;
                  next_continuation_token = next_token;
                  key_count = length objects + length prefixes;
                  max_keys = limit;
                  is_truncated = not (eq_text next_token []);
                  contents = objects;
                  common_prefixes = prefixes;
                })),
            after backend cache s (record_list_objects_v2 true) h,
          )
        ]
      ]

  -- ListObjectVersionsHandler
  unfoldable pub list_object_versions_handler : S3Request → Handling backend cache
  list_object_versions_handler r h =
      let (result, s) =
        backend.list_object_versions r.bucket (query_get r (codes "prefix")) h.storage in
      elim result [
        | failed e ↦ (
          backend_error e (b'/' ∷ r.bucket),
          after backend cache s (record_list_object_versions false) h,
        )
        | ok versions ↦ (
          xml_reply (version_list (map version_entry versions)),
          after backend cache s (record_list_object_versions true) h,
        )
      ]
