-- ===== src/AzureBlob/Objects.antt =====
-- The buckets and the objects.
use azs3_proxy.Prelude.{
  ℕ, ◌-◌, min, Text, codes, eq_text, contains, trim_space, Bool, true, false, ◌||◌, Option, none,
  some, List, [], ◌∷◌, ◌++◌, length, leb, ltb, ◌==◌, if◌then◌else◌,
}
use azs3_proxy.Download.{Ending, eof, run, Chunk, chunk_start, chunk_count, work}
use azs3_proxy.Handlers.Types.{Result, ok, failed, ObjectInfo, ObjectHead, ObjectListItem}
use azs3_proxy.AzureBlob.{
  done, refused, Outcome, BlobProperties, BlobItem, BlobService, failing, has_code,
  etag_from_content_md5, is_hns_directory_marker, at_state, Operation,
}

-- the names that are not nil
abbrev names_of : List (Option Text) → List Text
names_of [] = []
names_of (none ∷ items) = names_of items
names_of (some name ∷ items) = name ∷ names_of items

-- the loop over the pages
unfoldable pub all_names : List (Outcome (List (Option Text))) → List Text → Result (List Text)
all_names [] buckets = ok buckets
all_names (refused e ∷ pages) buckets = failing (codes "list containers failed") e
all_names (done items ∷ pages) buckets = all_names pages (buckets ++ names_of items)

-- 8 MB, and 64 MB
abbrev pub stream_block_size : ℕ
stream_block_size = 8388608

abbrev pub concurrent_download_threshold : ℕ
concurrent_download_threshold = 67108864

abbrev pub or_zero : Option ℕ → ℕ
or_zero none = 0
or_zero (some n) = n

-- the bytes of a response that a worker reads
abbrev pub sent_bytes : Outcome (List ℕ × Bool) → Option (List ℕ)
sent_bytes (refused e) = none
sent_bytes (done body) = some body.0

-- the list entry of a blob, if it has a name and is no directory
unfoldable pub list_item : BlobItem → Option ObjectListItem
list_item item = elim item.name [
  | none ↦ none
  | some name ↦
      if is_hns_directory_marker item.properties item.metadata
      then none
      else some (elim item.properties [
        | none ↦ record { key = name; size = 0; last_modified = none; etag = [] }
        | some props ↦ record {
          key = name;
          size = or_zero props.content_length;
          last_modified = props.last_modified;
          etag = etag_from_content_md5 props.content_md5;
        }
      ])
]

unfoldable pub list_items : List BlobItem → List ObjectListItem
list_items [] = []
list_items (item ∷ items) = elim (list_item item) [
  | none ↦ list_items items
  | some entry ↦ entry ∷ list_items items
]

abbrev unless_empty : Text → Option Text
unless_empty [] = none
unless_empty (c ∷ s) = some (c ∷ s)

abbrev or_empty : Option Text → Text
or_empty none = []
or_empty (some s) = s

-- an error text that HeadObject takes for a blob that is not there
unfoldable pub is_not_found : Text → Bool
is_not_found message =
    contains message (codes "404")
    || (contains message (codes "BlobNotFound") || contains message (codes "InvalidUri"))

-- what is read of an object, at a time that stands for the one that is missing
unfoldable pub info_of : Text → BlobProperties → ℕ → List ℕ × Bool → ObjectInfo
info_of time props size (body, fails) = record {
  body = body;
  body_fails = fails;
  last_modified = some (elim props.last_modified [ none ↦ time | some t ↦ t ]);
  size = size;
  etag = etag_from_content_md5 props.content_md5;
}

-- whether the pipe of a concurrentReader ends with an error
abbrev pub broken : Ending → Bool
broken eof = false
broken _ = true

-- the range that GetObjectRange asks for; `none` where it starts behind the blob
unfoldable pub clamped : (total offset count : ℕ) → Option (ℕ × ℕ)
clamped total offset count =
    if total == 0
    then some (offset, count)
    else if leb total offset
    then none
    else some (offset, min count (total - offset))

-- the head of an object that is not there
abbrev pub absent : ObjectHead
absent = record { exists = false; size = 0; last_modified = none; etag = [] }

module _ (svc : BlobService) where
  abbrev pub time_of : svc.State → Text
  time_of s = svc.time_text (svc.now s).0

  -- ListBuckets
  unfoldable pub list_buckets : Operation svc (List Text)
  list_buckets b =
      let (pages, s) = svc.list_containers b.service in (all_names pages [], at_state svc s b)

  -- HeadBucket
  unfoldable pub head_bucket : Text → Operation svc Bool
  head_bucket bucket b =
      let (result, s) = svc.container_properties bucket b.service in
      (
        elim result [
          | done u ↦ ok true
          | refused e ↦
              if has_code e (codes "ContainerNotFound") then ok false else failed e.message
        ],
        at_state svc s b,
      )

  -- CreateBucket
  unfoldable pub create_bucket : Text → Operation svc (Unit {0})
  create_bucket bucket b =
      let (result, s) = svc.create_container bucket b.service in
      (
        elim result [ done u ↦ ok tt | refused e ↦ failing (codes "create container failed") e ],
        at_state svc s b,
      )

  -- DeleteBucket
  unfoldable pub delete_bucket : Text → Operation svc (Unit {0})
  delete_bucket bucket b =
      let (result, s) = svc.delete_container bucket b.service in
      (
        elim result [ done u ↦ ok tt | refused e ↦ failing (codes "delete container failed") e ],
        at_state svc s b,
      )

  -- The results of the workers of a concurrentReader, for the chunks that are scheduled; each result is
  -- what a worker makes of the download of the chunk's range.
  unfoldable pub worker_results : Text → Text → ℕ → List ℕ → svc.State → List Chunk × svc.State
  worker_results bucket key size [] s = ([], s)
  worker_results bucket key size (id ∷ ids) s =
      let start = chunk_start stream_block_size id in
      let count = chunk_count size stream_block_size id in
      let (rest, t) =
        worker_results bucket key size ids (svc.download bucket key (some (start, count)) s).1 in
      (
        work (λ from n. sent_bytes (svc.download bucket key (some (from, n)) s).0) size
              stream_block_size id
            ∷ rest,
        t,
      )

  -- the body of GetObject: one download, or the chunks of a concurrentReader
  unfoldable pub open_body : Text → Text → BlobProperties → Operation svc ObjectInfo
  open_body bucket key props b =
      let size = or_zero props.content_length in
      if ltb concurrent_download_threshold size
      then (let (results, s) =
            worker_results bucket key size (svc.schedule bucket key b.service) b.service in
          let out = run (λ id. true) size results in
          (ok (info_of (time_of b.service) props size (out.0, broken out.1)), at_state svc s b))
      else (let (result, s) = svc.download bucket key none b.service in
          (
            elim result [
              | done body ↦ ok (info_of (time_of b.service) props size body)
              | refused e ↦ failing (codes "download blob failed") e
            ],
            at_state svc s b,
          ))

  -- GetObject
  unfoldable pub get_object : Text → Text → Operation svc ObjectInfo
  get_object bucket key b =
      let (result, s) = svc.blob_properties bucket key b.service in
      elim result [
        | refused e ↦ (failing (codes "get blob properties failed") e, at_state svc s b)
        | done props ↦ open_body bucket key props (at_state svc s b)
      ]

  -- DeleteObject
  unfoldable pub delete_object : Text → Text → Operation svc (Unit {0})
  delete_object bucket key b =
      let (result, s) = svc.delete_blob bucket key b.service in
      (
        elim result [
          | done u ↦ ok tt
          | refused e ↦
              if has_code e (codes "BlobNotFound")
              then ok tt
              else failing (codes "delete blob failed") e
        ],
        at_state svc s b,
      )

  -- HeadObject
  unfoldable pub head_object : Text → Text → Operation svc ObjectHead
  head_object bucket key b =
      let (result, s) = svc.blob_properties bucket key b.service in
      if eq_text (trim_space key) [] then (ok absent, b) else (
        elim result [
          | refused e ↦
              if is_not_found e.message
              then ok absent
              else failing (codes "get blob properties failed") e
          | done props ↦ ok (record {
            exists = true;
            size = or_zero props.content_length;
            last_modified = props.last_modified;
            etag = etag_from_content_md5 props.content_md5;
          })
        ],
        at_state svc s b,
      )

  -- ListObjectsV2: the first page
  unfoldable pub list_objects_v2 :
      Text → Text → Text → ℕ → Operation svc (List ObjectListItem × Text)
  list_objects_v2 bucket prefix token limit b =
      let (pages, s) =
        svc.list_blobs bucket (unless_empty prefix) (unless_empty token)
          (if limit == 0 then none else some limit) b.service in
      (
        elim pages [
          | [] ↦ ok ([], [])
          | refused e ∷ rest ↦ failing (codes "list blobs failed") e
          | done page ∷ rest ↦ ok (list_items page.items, or_empty page.next_marker)
        ],
        at_state svc s b,
      )

  -- GetObjectRange, with a length above 0
  unfoldable pub get_object_range : Text → Text → ℕ → ℕ → Operation svc ObjectInfo
  get_object_range bucket key offset length b =
      let (result, s) = svc.blob_properties bucket key b.service in
      if length == 0 then (failed (codes "invalid range length 0"), b) else elim result [
        | refused e ↦ (failing (codes "get blob properties failed") e, at_state svc s b)
        | done props ↦ elim (clamped (or_zero props.content_length) offset length) [
          | none ↦ (failed (codes "range offset beyond object size"), at_state svc s b)
          | some (start, count) ↦
              let (body, s1) = svc.download bucket key (some (start, count)) s in
              (
                elim body [
                  | refused e ↦ failing (codes "download blob range failed") e
                  | done bytes ↦ ok (info_of (time_of b.service) props count bytes)
                ],
                at_state svc s1 b,
              )
        ]
      ]
