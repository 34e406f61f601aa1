-- ===== src/AzureBlob/Versions.antt =====
-- Versioning: a flag for each bucket in memory, and the objects behind the version calls.
use azs3_proxy.Prelude.{
  Text, codes, Bool, true, false, Option, none, some, List, [], ◌∷◌, ◌++◌, eq_text, ◌||◌,
}
use azs3_proxy.Handlers.Types.{Result, ok, failed, ObjectInfo, ObjectVersion}
use azs3_proxy.AzureBlob.{
  Outcome, done, refused, BlobItem, BlobPage, BlobService, failing, etag_from_content_md5,
  is_hns_directory_marker, at_state, Operation,
}
use azs3_proxy.AzureBlob.Objects.{info_of, time_of}

abbrev pub is_member : Text → List Text → Bool
is_member k [] = false
is_member k (j ∷ keys) = let rest = is_member k keys in eq_text j k || rest

abbrev or_empty : Option Text → Text
or_empty none = []
or_empty (some s) = s

-- the entry of a blob; `none` where a nil pointer is followed
unfoldable pub version_of : BlobItem → Option ObjectVersion
version_of item = elim item.name [
  | none ↦ none
  | some name ↦ elim item.properties [
    | none ↦ none
    | some props ↦ elim props.content_length [
      | none ↦ none
      | some size ↦ elim props.last_modified [
        | none ↦ none
        | some modified ↦ some (record {
          key = name;
          version_id = or_empty item.version_id;
          etag = etag_from_content_md5 props.content_md5;
          size = size;
          modified = modified;
          is_latest = true;
        })
      ]
    ]
  ]
]

-- The loop over the blobs of a page; a panic, which the server recovers, is a failure without text.
unfoldable pub page_versions : List BlobItem → List ObjectVersion → Result (List ObjectVersion)
page_versions [] versions = ok versions
page_versions (item ∷ items) versions =
    elim (is_hns_directory_marker item.properties item.metadata) [
      | true ↦ page_versions items versions
      | false ↦ elim (version_of item) [
        | none ↦ failed []
        | some version ↦ page_versions items (versions ++ version ∷ [])
      ]
    ]

-- the loop over the pages
unfoldable pub all_versions :
    List (Outcome BlobPage) → List ObjectVersion → Result (List ObjectVersion)
all_versions [] versions = ok versions
all_versions (refused e ∷ pages) versions = failing (codes "failed to list blob versions") e
all_versions (done page ∷ pages) versions = elim (page_versions page.items versions) [
  | failed e ↦ failed e
  | ok more ↦ all_versions pages more
]

module _ (svc : BlobService) where
  -- EnableVersioning
  unfoldable pub enable_versioning : Text → Operation svc (Unit {0})
  enable_versioning bucket b =
      let (result, s) = svc.container_properties bucket b.service in
      elim result [
        | refused e ↦
            (failing (codes "bucket " ++ (bucket ++ codes " does not exist")) e, at_state svc s b)
        | done u ↦ (ok tt, record b { service = s; versioned = bucket ∷ b.versioned })
      ]

  -- GetVersioning
  unfoldable pub get_versioning : Text → Operation svc Bool
  get_versioning bucket b = (ok (is_member bucket b.versioned), b)

  -- ListObjectVersions
  unfoldable pub list_object_versions : Text → Text → Operation svc (List ObjectVersion)
  list_object_versions bucket prefix b =
      let (pages, s) = svc.list_blobs bucket (some prefix) none none b.service in
      (all_versions pages [], at_state svc s b)

  -- GetObjectVersion: the blob as it is now, whatever the version; Size is left at 0
  unfoldable pub get_object_version : Text → Text → Text → Operation svc ObjectInfo
  get_object_version bucket key version_id b =
      let (result, s) = svc.blob_properties bucket key b.service in
      elim result [
        | refused e ↦
            (failing (codes "failed to get object version properties") e, at_state svc s b)
        | done props ↦
            let (body, s1) = svc.download bucket key none s in
            (
              elim body [
                | refused e ↦ failing (codes "failed to download object version") e
                | done bytes ↦ ok (info_of (time_of svc b.service) props 0 bytes)
              ],
              at_state svc s1 b,
            )
      ]

  -- DeleteObjectVersion: the blob is deleted, whatever the version
  unfoldable pub delete_object_version : Text → Text → Text → Operation svc (Unit {0})
  delete_object_version bucket key version_id b =
      let (result, s) = svc.delete_blob bucket key b.service in
      (
        elim result [
          | done u ↦ ok tt
          | refused e ↦ failing (codes "failed to delete object version") e
        ],
        at_state svc s b,
      )
