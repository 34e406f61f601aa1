-- ===== src/AzureBlob/Account.antt =====
-- What the documentation of Azure Blob Storage says of the calls: the objects of a storage account,
-- by container and blob name, and the blocks that are staged and not committed.
use azs3_proxy.Prelude.{
  ℕ, ◌≡◌, Text, codes, Bool, true, false, Option, none, some, List, [], ◌∷◌, ◌++◌, ◌+◌, length,
  slice,
}
use azs3_proxy.Handlers.Coherence.{Objects, Same, SameBut}
use azs3_proxy.AzureBlob.{Outcome, AzureError, BlobProperties, done, refused, has_code, BlobService}

-- The bytes of blocks, one behind the other, if all are there.
unfoldable pub joined : (Text → Option (List ℕ)) → List Text → Option (List ℕ)
joined block [] = some []
joined block (id ∷ ids) = elim (block id) [
  | none ↦ none
  | some bytes ↦ elim (joined block ids) [ none ↦ none | some rest ↦ some (bytes ++ rest) ]
]

-- A call that stores a blob: the others stay, and so does the blob itself if the call is refused.
pub record IsUpload (svc : BlobService) (objects : svc.State → Objects) (b q : Text)
    (content : List ℕ) (upload : svc.State → Outcome (Unit {0}) × svc.State) : Type 0 where
  pub others : (s : svc.State) → SameBut b q (objects s) (objects (upload s).1)
  pub stores : (s : svc.State) → (upload s).0 ≡ done tt → objects (upload s).1 b q ≡ some content
  pub keeps :
      (s : svc.State) (e : AzureError)
      → (upload s).0 ≡ refused e
      → Same (objects s) (objects (upload s).1)

-- The properties of a blob have its length, and a download has its first bytes, or all of them if
-- it does not break off; so with the bytes of a range. An upload of a body that breaks off is refused.
pub record IsAccount (svc : BlobService) (objects : svc.State → Objects) : Type 0 where
  pub properties_same :
      (b q : Text) (s : svc.State) → Same (objects s) (objects (svc.blob_properties b q s).1)
  pub properties_found :
      (b q : Text) (s : svc.State) (props : BlobProperties)
      → (svc.blob_properties b q s).0 ≡ done props
      → (content : List ℕ) × (objects s b q ≡ some content)
        × (props.content_length ≡ some (length content))
  pub download_same :
      (b q : Text) (s : svc.State) → Same (objects s) (objects (svc.download b q none s).1)
  pub download_found :
      (b q : Text) (s : svc.State) (body : List ℕ × Bool)
      → (svc.download b q none s).0 ≡ done body
      → (rest : List ℕ) × (objects s b q ≡ some (body.0 ++ rest)) × (body.1 ≡ false → rest ≡ [])
  pub range_same :
      (b q : Text) (range : ℕ × ℕ) (s : svc.State)
      → Same (objects s) (objects (svc.download b q (some range) s).1)
  pub range_found :
      (b q : Text) (start count : ℕ) (s : svc.State) (body : List ℕ × Bool)
      → (svc.download b q (some (start, count)) s).0 ≡ done body
      → (content : List ℕ) × (rest : List ℕ) × (objects s b q ≡ some content)
        × (slice content start (start + count) ≡ body.0 ++ rest)
        × (body.1 ≡ false → rest ≡ [])
  pub buffered :
      (b q : Text) (bytes hash : List ℕ)
      → IsUpload svc objects b q bytes (svc.upload_buffer b q bytes hash)
  pub streamed :
      (block_size concurrency : ℕ) (b q : Text) (body : List ℕ × Bool)
      → IsUpload svc objects b q body.0 (svc.upload_stream block_size concurrency b q body)
  pub streamed_whole :
      (block_size concurrency : ℕ) (b q : Text) (body : List ℕ × Bool) (s : svc.State)
      → (svc.upload_stream block_size concurrency b q body s).0 ≡ done tt
      → body.1 ≡ false
  pub set_md5_same :
      (b q : Text) (hash : List ℕ) (s : svc.State)
      → Same (objects s) (objects (svc.set_content_md5 b q hash s).1)
  pub delete_others :
      (b q : Text) (s : svc.State) → SameBut b q (objects s) (objects (svc.delete_blob b q s).1)
  pub delete_removes :
      (b q : Text) (s : svc.State)
      → (svc.delete_blob b q s).0 ≡ done tt
      → objects (svc.delete_blob b q s).1 b q ≡ none
  pub delete_keeps :
      (b q : Text) (s : svc.State) (e : AzureError)
      → (svc.delete_blob b q s).0 ≡ refused e
      → Same (objects s) (objects (svc.delete_blob b q s).1)
        × (has_code e (codes "BlobNotFound") ≡ true → objects s b q ≡ none)

abbrev pub Blocks : Type 0
Blocks = Text → Text → Text → Option (List ℕ)

-- A staged block replaces the one of the blob with its id, and changes no object; a commit that is
-- done makes the blob of the blocks that it names.
pub record IsStaging (svc : BlobService) (objects : svc.State → Objects)
    (blocks : svc.State → Blocks) : Type 0 where
  pub stage_same :
      (b q id : Text) (bytes : List ℕ) (s : svc.State)
      → Same (objects s) (objects (svc.stage_block b q id bytes s).1)
  pub stage_stores :
      (b q id : Text) (bytes : List ℕ) (s : svc.State)
      → (svc.stage_block b q id bytes s).0 ≡ done tt
      → blocks (svc.stage_block b q id bytes s).1 b q id ≡ some bytes
  pub stage_others :
      (b q id : Text) (bytes : List ℕ) (s : svc.State) (c r other : Text)
      → ¬ ((c ≡ b) × (r ≡ q) × (other ≡ id))
      → blocks (svc.stage_block b q id bytes s).1 c r other ≡ blocks s c r other
  pub stage_keeps :
      (b q id : Text) (bytes : List ℕ) (s : svc.State) (e : AzureError) (c r other : Text)
      → (svc.stage_block b q id bytes s).0 ≡ refused e
      → blocks (svc.stage_block b q id bytes s).1 c r other ≡ blocks s c r other
  pub commit_others :
      (b q : Text) (ids : List Text) (s : svc.State)
      → SameBut b q (objects s) (objects (svc.commit_block_list b q ids s).1)
  pub commit_stores :
      (b q : Text) (ids : List Text) (s : svc.State) (bytes : List ℕ)
      → joined (blocks s b q) ids ≡ some bytes
      → (svc.commit_block_list b q ids s).0 ≡ done tt
      → objects (svc.commit_block_list b q ids s).1 b q ≡ some bytes
  pub commit_keeps :
      (b q : Text) (ids : List Text) (s : svc.State) (e : AzureError)
      → (svc.commit_block_list b q ids s).0 ≡ refused e
      → Same (objects s) (objects (svc.commit_block_list b q ids s).1)
