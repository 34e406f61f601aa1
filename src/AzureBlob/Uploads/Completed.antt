-- ===== src/AzureBlob/Uploads/Completed.antt =====
-- What CompleteMultipartUpload makes of a multipart upload.
use azs3_proxy.Prelude.{
  ℕ, ◌≤◌, ◌≡◌, refl, sym, ap₂, ◌∙◌, Text, codes, eq_text_iff, none, some, List, [], ◌∷◌, ◌++◌,
  length, arith, lookup, lookup-delete, List-cases, inl, inr,
}
use mathlib.Core.Path.{subst}
use azs3_proxy.Auth.{encode_to_string}
use azs3_proxy.Range.Decimal.{decimal}
use azs3_proxy.Handlers.Types.{Result, ok, failed}
use azs3_proxy.Handlers.Coherence.{Objects, Same, SameBut}
use azs3_proxy.AzureBlob.{BlobService, AzureBlobBackend}
use azs3_proxy.AzureBlob.Account.{Blocks, IsStaging, joined}
use azs3_proxy.AzureBlob.Stored.{Outcome-cases}
use azs3_proxy.AzureBlob.Uploads.{commit_parts, complete_multipart_upload, sorted_parts, block_ids}
use azs3_proxy.AzureBlob.Uploads.Ordered.{whole, History, newest, assembled, sorted_parts-assembled}
use azs3_proxy.AzureBlob.Uploads.Assembled.{Uploading, Holds, Uploading-Holds, upload_of-Holds}

-- the ETag of a multipart object: the hash of the hashes of its parts, and their number
abbrev pub composite : (List ℕ → List ℕ) → List ℕ → ℕ → Text
composite md5_sum hashes number =
    b'"' ∷ (encode_to_string (md5_sum hashes) ++ (b'-' ∷ (decimal number ++ (b'"' ∷ []))))

module _ (svc : BlobService) (md5_sum : List ℕ → List ℕ) (objects : svc.State → Objects)
    (blocks : svc.State → Blocks) (staging : IsStaging svc objects blocks)
    (bucket key upload_id : Text) where
  -- the bytes of the last upload of each part, by ascending part numbers
  abbrev pub content : (ℕ → List ℕ → List ℕ) → ℕ → History → List ℕ
  content stand bound sent = assembled stand 0 bound sent

  -- What is left of the upload, and of the objects.
  pub record Completed (stand : ℕ → List ℕ → List ℕ) (bound : ℕ) (sent : History)
      (b : AzureBlobBackend svc) (r : Result Text × AzureBlobBackend svc) : Type 0 where
    pub others : SameBut bucket key (objects b.service) (objects r.1.service)
    pub stores :
        (etag : Text)
        → r.0 ≡ ok etag
        → (objects r.1.service bucket key ≡ some (content stand bound sent))
          × (etag
              ≡ composite md5_sum
                  (assembled (λ n. md5_sum) 0 bound sent)
                  (length (assembled (λ n bytes. 0 ∷ []) 0 bound sent)))
          × (lookup upload_id r.1.uploads ≡ none)
    pub keeps :
        (e : Text)
        → r.0 ≡ failed e
        → Same (objects b.service) (objects r.1.service) × (r.1.uploads ≡ b.uploads)

  commit_parts-Completed :
      (stand : ℕ → List ℕ → List ℕ) (bound : ℕ) (sent : History) (b : AzureBlobBackend svc)
      (h : Holds svc md5_sum objects blocks staging bucket key upload_id stand sent b)
      → ((n : ℕ) → bound ≤ n → newest n sent ≡ none)
      → Completed stand bound sent b
          (commit_parts svc md5_sum h.upload upload_id (sorted_parts h.upload.parts) b)
  unfolding commit_parts
  commit_parts-Completed stand bound sent b h top =
      let u = h.upload in
      let ids = block_ids (sorted_parts u.parts) in
      let (result, s) = svc.commit_block_list u.bucket_name u.object_key ids b.service in
      let (bytes, hashes, number) =
        sorted_parts-assembled md5_sum stand sent (blocks b.service bucket key) h.staged bound
          u.parts h.one_each h.parts_kept top in
      let rest : SameBut bucket key (objects b.service) (objects s) = λ c r n.
        staging.commit_others u.bucket_name u.object_key ids b.service c r
          (λ e. n (e.0 ∙ h.same_bucket, e.1 ∙ h.same_key)) in
      elim (Outcome-cases result) [
        | inl (err, refusal) ↦
            rw (refusal, commit_parts)
              (record {
                others = rest;
                stores = λ etag e. cc;
                keeps = λ e f. (
                  staging.commit_keeps u.bucket_name u.object_key ids b.service err refusal,
                  refl,
                );
              })
        | inr (tt, works) ↦
            let all : joined (blocks b.service u.bucket_name u.object_key) ids
                ≡ some (content stand bound sent) =
              ap₂ (λ c r. joined (blocks b.service c r) ids) h.same_bucket h.same_key ∙ bytes in
            let stored =
              staging.commit_stores u.bucket_name u.object_key ids b.service
                (content stand bound sent) all works in
            rw (works, commit_parts)
              (record {
                others = rest;
                stores = λ etag e. (
                  ap₂ (objects s) (sym h.same_bucket) (sym h.same_key) ∙ stored,
                  sym (cc) ∙ ap₂ (composite md5_sum) hashes number,
                  ground (
                    arith,
                    lookup-delete upload_id upload_id b.uploads,
                    eq_text_iff upload_id upload_id,
                  ),
                );
                keeps = λ e f. cc;
              })
      ]

  -- a commit of an upload that is known
  pub complete-Completed :
      (stand : ℕ → List ℕ → List ℕ) (bound : ℕ) (sent : History) (b : AzureBlobBackend svc)
      (part_etags : List (ℕ × Text))
      → Holds svc md5_sum objects blocks staging bucket key upload_id stand sent b
      → ((n : ℕ) → bound ≤ n → newest n sent ≡ none)
      → Completed stand bound sent b
          (complete_multipart_upload svc md5_sum bucket key upload_id part_etags b)
  unfolding complete_multipart_upload
  complete-Completed stand bound sent b part_etags h top =
      let found =
        upload_of-Holds svc md5_sum objects blocks staging bucket key upload_id stand sent b h in
      let r = complete_multipart_upload svc md5_sum bucket key upload_id part_etags b in
      elim (List-cases h.upload.parts) [
        | inl none_sent ↦
            let e : r ≡ (failed (codes "no parts uploaded"), b) =
              ground (arith, found, none_sent) in
            subst (Completed stand bound sent b) (sym e) (record {
              others = λ c r n. refl;
              stores = λ etag e. cc;
              keeps = λ e f. ((λ c r. refl), refl);
            })
        | inr (part, parts, some_sent) ↦
            let e : r
                ≡ commit_parts svc md5_sum h.upload upload_id (sorted_parts h.upload.parts) b =
              ground (arith, found, some_sent) in
            subst (Completed stand bound sent b) (sym e)
              (commit_parts-Completed stand bound sent b h top)
      ]

  -- With an account that keeps what IsStaging says: a multipart upload that CompleteMultipartUpload
  -- ends with success leaves, as the object, the bytes of the last successful upload of each part,
  -- by ascending part numbers, whatever the order of the calls, the parts that fail or are sent
  -- again, and what else happens between them, as long as the staged blocks of the object are left
  -- alone; the ETag is the hash of the hashes of those parts with their number, and the upload is
  -- gone. A call that fails changes no object and keeps the uploads. No other object changes.
  pub complete_multipart_upload-Completed :
      (bound : ℕ) (sent : History) (b : AzureBlobBackend svc) (part_etags : List (ℕ × Text))
      → Uploading svc md5_sum objects blocks staging bucket key upload_id sent b
      → ((n : ℕ) → bound ≤ n → newest n sent ≡ none)
      → Completed whole bound sent b
          (complete_multipart_upload svc md5_sum bucket key upload_id part_etags b)
  complete_multipart_upload-Completed bound sent b part_etags up top =
      complete-Completed whole bound sent b part_etags
        (Uploading-Holds svc md5_sum objects blocks staging bucket key upload_id sent b up) top
