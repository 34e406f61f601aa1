-- ===== src/AzureBlob/Uploads/Assembled.antt =====
-- A multipart upload from InitiateMultipartUpload to CompleteMultipartUpload.
use mathlib.Core.Path.{subst}
use azs3_proxy.Prelude.{
  ℕ, ◌≡◌, ◌≢◌, refl, sym, ap, ap₂, ◌∙◌, Text, eq_text_iff, Option, some, List, [], ◌∷◌, ◌++◌, arith,
  lookup, insert, lookup-insert, Bool-cases, inl, inr, ◌==◌, if◌then◌else◌,
}
use azs3_proxy.Range.Numbers.{Int64}
use azs3_proxy.Range.Decimal.{decimal}
use azs3_proxy.Handlers.Types.{ok, failed, Reader}
use azs3_proxy.Handlers.Coherence.{Objects}
use azs3_proxy.Handlers.Coherence.Specified.{Result-cases}
use azs3_proxy.AzureBlob.{
  PartData, MultipartUploadMetadata, BlobService, AzureBlobBackend, contents, done, quoted,
}
use azs3_proxy.AzureBlob.Account.{Blocks, IsStaging}
use azs3_proxy.AzureBlob.Stored.{Outcome-cases}
use azs3_proxy.AzureBlob.Uploads.{
  find_part, set_part, read_part, upload_of, initiate_multipart_upload, stage_part, upload_part,
}
use azs3_proxy.AzureBlob.Uploads.BlockIds.{block_id}
use azs3_proxy.AzureBlob.Uploads.Distinct.{block_id-injective}
use azs3_proxy.AzureBlob.Uploads.Ordered.{
  whole, History, newest, IsMap, kept, set_part-IsMap, find_part-set_part,
}

lookup-inserted :
    (k j : Text) (upload : MultipartUploadMetadata) (m : List (Text × MultipartUploadMetadata))
    → j ≡ k
    → lookup k (insert j upload m) ≡ some upload
lookup-inserted k j upload m e = ground (arith, lookup-insert j k upload m, eq_text_iff j k, e)

module _ (svc : BlobService) (md5_sum : List ℕ → List ℕ) (objects : svc.State → Objects)
    (blocks : svc.State → Blocks) (staging : IsStaging svc objects blocks)
    (bucket key upload_id : Text) where
  -- What has happened since the upload began: calls of UploadPart, with the bytes of those that
  -- succeed, the newest first, and anything that leaves the upload and the staged blocks of its
  -- object alone.
  pub data Uploading : History → AzureBlobBackend svc → Type 0 where
    begins :
        {b : AzureBlobBackend svc} (before : AzureBlobBackend svc)
        → (initiate_multipart_upload svc bucket key before).0 ≡ ok upload_id
        → b ≡ (initiate_multipart_upload svc bucket key before).1
        → Uploading [] b
    uploads :
        {sent : History} {before b : AzureBlobBackend svc} (n : ℕ) (size : Int64) (reader : Reader)
        (bytes : List ℕ) (etag : Text)
        → Uploading sent before
        → read_part size (contents reader) ≡ ok bytes
        → (upload_part svc md5_sum bucket key upload_id n size reader before).0 ≡ ok etag
        → b ≡ (upload_part svc md5_sum bucket key upload_id n size reader before).1
        → Uploading ((n, bytes) ∷ sent) b
    refuses :
        {sent : History} {before b : AzureBlobBackend svc} (n : ℕ) (size : Int64) (reader : Reader)
        (e : Text)
        → Uploading sent before
        → (upload_part svc md5_sum bucket key upload_id n size reader before).0 ≡ failed e
        → b ≡ (upload_part svc md5_sum bucket key upload_id n size reader before).1
        → Uploading sent b
    elsewhere :
        {sent : History} {before b : AzureBlobBackend svc}
        → Uploading sent before
        → lookup upload_id b.uploads ≡ lookup upload_id before.uploads
        → ((id : Text) → blocks b.service bucket key id ≡ blocks before.service bucket key id)
        → Uploading sent b

  -- What the backend knows of the upload, and what is staged of it: for the last upload of a part,
  -- the bytes that stand for it.
  pub record Holds (stand : ℕ → List ℕ → List ℕ) (sent : History) (b : AzureBlobBackend svc)
      : Type 0 where
    pub upload : MultipartUploadMetadata
    pub found : lookup upload_id b.uploads ≡ some upload
    pub same_bucket : upload.bucket_name ≡ bucket
    pub same_key : upload.object_key ≡ key
    pub one_each : IsMap upload.parts
    pub parts_kept : (n : ℕ) → find_part n upload.parts ≡ kept md5_sum n (newest n sent)
    pub staged :
        (n : ℕ) (bytes : List ℕ)
        → newest n sent ≡ some bytes
        → blocks b.service bucket key (block_id n) ≡ some (stand n bytes)

  begins-Holds :
      (before : AzureBlobBackend svc)
      → (initiate_multipart_upload svc bucket key before).0 ≡ ok upload_id
      → Holds whole [] (initiate_multipart_upload svc bucket key before).1
  unfolding initiate_multipart_upload newest find_part
  begins-Holds before h =
      let (nanos, s) = svc.now before.service in
      let id = bucket ++ (b'-' ∷ (key ++ (b'-' ∷ decimal nanos))) in
      let made : MultipartUploadMetadata = record {
        upload_id = id;
        bucket_name = bucket;
        object_key = key;
        parts = [];
        initiated = nanos;
      } in
      let e : id ≡ upload_id = cc in
      record {
        upload = made;
        found = lookup-inserted upload_id id made before.uploads e;
        same_bucket = refl;
        same_key = refl;
        one_each = tt;
        parts_kept = λ n. refl;
        staged = λ n bytes g. cc;
      }

  pub upload_of-Holds :
      (stand : ℕ → List ℕ → List ℕ) (sent : History) (b : AzureBlobBackend svc)
      (h : Holds stand sent b)
      → upload_of bucket key upload_id b.uploads ≡ ok h.upload
  unfolding upload_of
  upload_of-Holds stand sent b h = ground (
    arith,
    h.found,
    h.same_bucket,
    h.same_key,
    eq_text_iff h.upload.bucket_name bucket,
    eq_text_iff h.upload.object_key key,
  )

  kept-newest :
      (sent : History) (n m : ℕ) (bytes : List ℕ) (before : Option PartData)
      → before ≡ kept md5_sum m (newest m sent)
      → let part : PartData = record {
        block_id = block_id n;
        md5 = md5_sum bytes;
        etag = quoted (md5_sum bytes);
      } in
        (if n == m then some part else before) ≡ kept md5_sum m (newest m ((n, bytes) ∷ sent))
  unfolding newest
  kept-newest sent n m bytes before e = elim (Bool-cases (n == m)) [
    | inl same ↦ let q : n ≡ m = ground (arith, same) in rw same (rw q refl)
    | inr other ↦ rw other e
  ]

  newest_staged :
      (sent : History) (b : AzureBlobBackend svc) (h : Holds whole sent b) (n : ℕ) (bytes : List ℕ)
      → let stage =
          svc.stage_block h.upload.bucket_name h.upload.object_key (block_id n) bytes b.service in
        stage.0 ≡ done tt
        → (m : ℕ) (content : List ℕ) → newest m ((n, bytes) ∷ sent) ≡ some content
        → blocks stage.1 bucket key (block_id m) ≡ some content
  unfolding newest
  newest_staged sent b h n bytes works m content g =
      let u = h.upload in
      let s = (svc.stage_block u.bucket_name u.object_key (block_id n) bytes b.service).1 in
      elim (Bool-cases (n == m)) [
        | inl same ↦
            let stored =
              staging.stage_stores u.bucket_name u.object_key (block_id n) bytes b.service works in
            let q : n ≡ m = ground (arith, same) in
            let here : bytes ≡ content = ground (arith, g, same) in
            ap₂ (λ c r. blocks s c r (block_id m)) (sym h.same_bucket) (sym h.same_key)
            ∙ (ap (λ k. blocks s u.bucket_name u.object_key (block_id k)) (sym q)
                ∙ (stored ∙ ap some here))
        | inr other ↦
            let differ : n ≢ m = ground (arith, other) in
            staging.stage_others u.bucket_name u.object_key (block_id n) bytes b.service bucket key
              (block_id m) (λ e. differ (sym (block_id-injective m n e.2)))
            ∙ h.staged m content (ground (arith, g, other))
      ]

  stage_part-ok :
      (sent : History) (b : AzureBlobBackend svc) (h : Holds whole sent b) (n : ℕ) (bytes : List ℕ)
      (etag : Text)
      → (stage_part svc md5_sum h.upload upload_id n bytes b).0 ≡ ok etag
      → Holds whole ((n, bytes) ∷ sent) (stage_part svc md5_sum h.upload upload_id n bytes b).1
  unfolding stage_part
  stage_part-ok sent b h n bytes etag e =
      let u = h.upload in
      let (result, s) = svc.stage_block u.bucket_name u.object_key (block_id n) bytes b.service in
      elim (Outcome-cases result) [
        | inl (err, refusal) ↦ absurd (ground (arith, e, refusal))
        | inr (tt, works) ↦
            let hash = md5_sum bytes in
            let part : PartData = record {
              block_id = block_id n;
              md5 = hash;
              etag = quoted hash;
            } in
            let made : MultipartUploadMetadata = record u { parts = set_part n part u.parts } in
            rw (works, stage_part)
              (record {
                upload = made;
                found = lookup-inserted upload_id upload_id made b.uploads refl;
                same_bucket = h.same_bucket;
                same_key = h.same_key;
                one_each = set_part-IsMap n part u.parts h.one_each;
                parts_kept = λ m.
                    find_part-set_part n m part u.parts
                    ∙ kept-newest sent n m bytes (find_part m u.parts) (h.parts_kept m);
                staged = newest_staged sent b h n bytes works;
              })
      ]

  stage_part-failed :
      (sent : History) (b : AzureBlobBackend svc) (h : Holds whole sent b) (n : ℕ) (bytes : List ℕ)
      (e : Text)
      → (stage_part svc md5_sum h.upload upload_id n bytes b).0 ≡ failed e
      → Holds whole sent (stage_part svc md5_sum h.upload upload_id n bytes b).1
  unfolding stage_part
  stage_part-failed sent b h n bytes text e =
      let u = h.upload in
      let (result, s) = svc.stage_block u.bucket_name u.object_key (block_id n) bytes b.service in
      elim (Outcome-cases result) [
        | inr (tt, works) ↦ absurd (ground (arith, e, works))
        | inl (err, refusal) ↦
            rw (refusal, stage_part)
              (record {
                upload = u;
                found = h.found;
                same_bucket = h.same_bucket;
                same_key = h.same_key;
                one_each = h.one_each;
                parts_kept = h.parts_kept;
                staged = λ m content g.
                    staging.stage_keeps u.bucket_name u.object_key (block_id n) bytes b.service err
                      bucket key (block_id m) refusal
                    ∙ h.staged m content g;
              })
      ]

  pub upload_part-read :
      (sent : History) (b : AzureBlobBackend svc) (h : Holds whole sent b) (n : ℕ) (size : Int64)
      (reader : Reader) (bytes : List ℕ)
      → read_part size (contents reader) ≡ ok bytes
      → upload_part svc md5_sum bucket key upload_id n size reader b
        ≡ stage_part svc md5_sum h.upload upload_id n bytes b
  unfolding upload_part
  upload_part-read sent b h n size reader bytes e =
      rw (upload_of-Holds whole sent b h, upload_part) (rw e refl)

  upload_part-unread :
      (sent : History) (b : AzureBlobBackend svc) (h : Holds whole sent b) (n : ℕ) (size : Int64)
      (reader : Reader) (e : Text)
      → read_part size (contents reader) ≡ failed e
      → upload_part svc md5_sum bucket key upload_id n size reader b ≡ (failed e, b)
  unfolding upload_part
  upload_part-unread sent b h n size reader text e =
      rw (upload_of-Holds whole sent b h, upload_part) (rw e refl)

  pub Uploading-Holds :
      (sent : History) (b : AzureBlobBackend svc) → Uploading sent b → Holds whole sent b
  Uploading-Holds [] b (begins before h e) = subst (Holds whole []) (sym e) (begins-Holds before h)
  Uploading-Holds sent b (uploads {sent = old} {before} n size reader bytes etag up read h e) =
      let holds = Uploading-Holds old before up in
      let same = upload_part-read old before holds n size reader bytes read in
      subst (Holds whole sent) (sym (e ∙ ap (λ r. r.1) same))
        (stage_part-ok old before holds n bytes etag (sym (ap (λ r. r.0) same) ∙ h))
  Uploading-Holds sent b (refuses {before} n size reader text up h e) =
      let holds = Uploading-Holds sent before up in
      elim (Result-cases (read_part size (contents reader))) [
        | inl (text1, unread) ↦
            subst (Holds whole sent)
              (sym (
                e
                ∙ ap (λ r. r.1) (upload_part-unread sent before holds n size reader text1 unread)))
              holds
        | inr (bytes, read) ↦
            let same = upload_part-read sent before holds n size reader bytes read in
            subst (Holds whole sent) (sym (e ∙ ap (λ r. r.1) same))
              (stage_part-failed sent before holds n bytes text (sym (ap (λ r. r.0) same) ∙ h))
      ]
  Uploading-Holds sent b (elsewhere {before} up known left) =
      let h = Uploading-Holds sent before up in
      record {
        upload = h.upload;
        found = known ∙ h.found;
        same_bucket = h.same_bucket;
        same_key = h.same_key;
        one_each = h.one_each;
        parts_kept = h.parts_kept;
        staged = λ n bytes g. left (block_id n) ∙ h.staged n bytes g;
      }
