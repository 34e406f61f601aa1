-- ===== src/AzureBlob/Uploads/Shared.antt =====
-- Two multipart uploads of one object.
use azs3_proxy.Prelude.{
  ℕ, ◌≤◌, ◌≡◌, ◌≢◌, sym, ap, ap₂, ◌∙◌, Text, eq_text_iff, none, List, arith, lookup, insert,
  lookup-insert, Bool-cases, inl, inr, ◌==◌, if◌then◌else◌,
}
use mathlib.Core.Path.{subst}
use azs3_proxy.Range.Numbers.{Int64}
use azs3_proxy.Handlers.Types.{ok, Reader}
use azs3_proxy.Handlers.Coherence.{Objects}
use azs3_proxy.AzureBlob.{MultipartUploadMetadata, BlobService, AzureBlobBackend, contents}
use azs3_proxy.AzureBlob.Account.{Blocks, IsStaging}
use azs3_proxy.AzureBlob.Stored.{Outcome-cases}
use azs3_proxy.AzureBlob.Uploads.{read_part, stage_part, upload_part, complete_multipart_upload}
use azs3_proxy.AzureBlob.Uploads.BlockIds.{block_id}
use azs3_proxy.AzureBlob.Uploads.Distinct.{block_id-injective}
use azs3_proxy.AzureBlob.Uploads.Ordered.{whole, History, newest}
use azs3_proxy.AzureBlob.Uploads.Assembled.{Uploading, Holds, Uploading-Holds, upload_part-read}
use azs3_proxy.AzureBlob.Uploads.Completed.{Completed, complete-Completed}

-- the bytes of one part, replaced
abbrev pub replaced : ℕ → List ℕ → ℕ → List ℕ → List ℕ
replaced n bytes m old = if m == n then bytes else old

lookup-other :
    (k j : Text) (upload : MultipartUploadMetadata) (m : List (Text × MultipartUploadMetadata))
    → j ≢ k
    → lookup k (insert j upload m) ≡ lookup k m
lookup-other k j upload m n = ground (arith, lookup-insert j k upload m, eq_text_iff j k, n)

module _ (svc : BlobService) (md5_sum : List ℕ → List ℕ) (objects : svc.State → Objects)
    (blocks : svc.State → Blocks) (staging : IsStaging svc objects blocks) (bucket key : Text)
    (first second : Text) (differ : second ≢ first) where
  overwritten :
      (sent other : History) (b : AzureBlobBackend svc)
      (h : Holds svc md5_sum objects blocks staging bucket key first whole sent b)
      (g : Holds svc md5_sum objects blocks staging bucket key second whole other b) (n : ℕ)
      (bytes : List ℕ) (etag : Text)
      → (stage_part svc md5_sum g.upload second n bytes b).0 ≡ ok etag
      → Holds svc md5_sum objects blocks staging bucket key first
          (replaced n bytes)
          sent
          (stage_part svc md5_sum g.upload second n bytes b).1
  unfolding stage_part
  overwritten sent other b h g n bytes etag e =
      let u = g.upload in
      let (result, s) = svc.stage_block u.bucket_name u.object_key (block_id n) bytes b.service in
      elim (Outcome-cases result) [
        | inl (err, refusal) ↦ absurd (ground (arith, e, refusal))
        | inr (tt, works) ↦
            rw (works, stage_part)
              (record {
                upload = h.upload;
                found = lookup-other first second _ b.uploads differ ∙ h.found;
                same_bucket = h.same_bucket;
                same_key = h.same_key;
                one_each = h.one_each;
                parts_kept = h.parts_kept;
                staged = λ m content e. elim (Bool-cases (m == n)) [
                  | inl same ↦
                      let q : m ≡ n = ground (arith, same) in
                      let stored =
                        staging.stage_stores u.bucket_name u.object_key (block_id n) bytes b.service
                          works in
                      rw same (
                        ap₂ (λ c r. blocks s c r (block_id m)) (sym g.same_bucket) (sym g.same_key)
                        ∙ (ap (λ k. blocks s u.bucket_name u.object_key (block_id k)) q ∙ stored))
                  | inr other ↦
                      let apart : m ≢ n = ground (arith, other) in
                      rw other (
                        staging.stage_others u.bucket_name u.object_key (block_id n) bytes b.service
                          bucket key (block_id m) (λ e. apart (block_id-injective m n e.2))
                        ∙ h.staged m content e)
                ];
              })
      ]

  -- With an account that keeps what IsStaging says: if a second multipart upload of the same object
  -- uploads a part, then CompleteMultipartUpload of the first one, if it succeeds, leaves the bytes
  -- of the second upload in the place of that part, under an ETag of the first upload's own parts.
  pub complete_multipart_upload-mixed :
      (bound : ℕ) (sent other : History) (b : AzureBlobBackend svc) (n : ℕ) (size : Int64)
      (reader : Reader) (bytes : List ℕ) (etag : Text) (part_etags : List (ℕ × Text))
      → Uploading svc md5_sum objects blocks staging bucket key first sent b
      → Uploading svc md5_sum objects blocks staging bucket key second other b
      → ((m : ℕ) → bound ≤ m → newest m sent ≡ none)
      → read_part size (contents reader) ≡ ok bytes
      → let r = upload_part svc md5_sum bucket key second n size reader b in
        r.0 ≡ ok etag
        → Completed svc md5_sum objects blocks staging bucket key first
            (replaced n bytes)
            bound
            sent
            r.1
            (complete_multipart_upload svc md5_sum bucket key first part_etags r.1)
  complete_multipart_upload-mixed bound sent other b n size reader bytes etag part_etags up1 up2 top
        read h =
      let r = upload_part svc md5_sum bucket key second n size reader b in
      let held = Uploading-Holds svc md5_sum objects blocks staging bucket key first sent b up1 in
      let held2 =
        Uploading-Holds svc md5_sum objects blocks staging bucket key second other b up2 in
      let same =
        upload_part-read svc md5_sum objects blocks staging bucket key second other b held2 n size
          reader bytes read in
      complete-Completed svc md5_sum objects blocks staging bucket key first (replaced n bytes)
        bound sent r.1 part_etags
        (subst
          (λ q.
            Holds svc md5_sum objects blocks staging bucket key first (replaced n bytes) sent q.1)
          (sym same)
          (overwritten sent other b held held2 n bytes etag (sym (ap (λ q. q.0) same) ∙ h)))
        top
