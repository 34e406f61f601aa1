-- ===== src/AzureBlob/Fills.antt =====
-- AzureBlobBackend keeps what the handlers ask of a storage, and CopyObject copies.
use mathlib.Core.Path.{subst}
use azs3_proxy.Prelude.{
  ℕ, ◌≡◌, refl, sym, ap, ◌∙◌, Text, codes, false, some, none, List, [], ◌++◌, ◌⊎◌, inl, inr, length,
  append-nil, arith, Bool-cases,
}
use azs3_proxy.Range.Numbers.{positive}
use azs3_proxy.Handlers.Types.{ok, failed, plain, Result, ObjectInfo}
use azs3_proxy.Handlers.Coherence.{Objects, Same, SameBut, IsStorage}
use azs3_proxy.Handlers.Coherence.Specified.{Result-cases}
use azs3_proxy.AzureBlob.{BlobService, AzureBlobBackend, contents, has_code}
use azs3_proxy.AzureBlob.Objects.{get_object, delete_object}
use azs3_proxy.AzureBlob.Puts.{put_object, put_contents, copy_object}
use azs3_proxy.AzureBlob.Backend.{azure_blob}
use azs3_proxy.AzureBlob.Account.{IsAccount}
use azs3_proxy.AzureBlob.Scheduled.{AllSent}
use azs3_proxy.AzureBlob.Stored.{Stored, Outcome-cases, put_contents-Stored}
use azs3_proxy.AzureBlob.Opened.{get_object-Opened, get_object-Same}

module _ (svc : BlobService) (md5_sum : List ℕ → List ℕ) (objects : svc.State → Objects)
    (account : IsAccount svc objects) where
  put_object-Stored :
      (bucket key : Text) (content : List ℕ) (b : AzureBlobBackend svc)
      → Stored svc objects bucket key content b
          (put_object svc md5_sum bucket key (positive (length content)) (plain content) b)
  unfolding put_object contents
  put_object-Stored bucket key content b =
      subst
        (λ l.
          Stored svc objects bucket key l b
            (put_contents svc md5_sum bucket key (positive (length l)) (content, false) b))
        (append-nil content)
        (put_contents-Stored svc md5_sum objects account bucket key content [] false (λ h. refl) b)

  -- what DeleteObject does to the objects
  record Deleted (bucket key : Text) (b : AzureBlobBackend svc) : Type 0 where
    others :
        SameBut bucket key (objects b.service) (objects (delete_object svc bucket key b).1.service)
    removes :
        (delete_object svc bucket key b).0 ≡ ok tt
        → objects (delete_object svc bucket key b).1.service bucket key ≡ none
    keeps :
        (e : Text)
        → (delete_object svc bucket key b).0 ≡ failed e
        → Same (objects b.service) (objects (delete_object svc bucket key b).1.service)

  delete_object-Deleted : (bucket key : Text) (b : AzureBlobBackend svc) → Deleted bucket key b
  unfolding delete_object
  delete_object-Deleted bucket key b =
      let (result, s) = svc.delete_blob bucket key b.service in
      elim (Outcome-cases result) [
        | inr (tt, works) ↦ record {
          others = account.delete_others bucket key b.service;
          removes = λ h. account.delete_removes bucket key b.service works;
          keeps = λ e h. cc;
        }
        | inl (e, refusal) ↦
            let (same, gone) = account.delete_keeps bucket key b.service e refusal in
            elim (Bool-cases (has_code e (codes "BlobNotFound"))) [
              | inl absent ↦ record {
                others = λ c r n. same c r;
                removes = λ h. same bucket key ∙ gone absent;
                keeps = λ text h. same;
              }
              | inr other ↦ record {
                others = λ c r n. same c r;
                removes = λ h. absurd (ground (arith, h, refusal, other));
                keeps = λ text h. same;
              }
            ]
      ]

  -- Where no context is done while an object is read, the backend keeps what IsStorage says.
  pub azure_blob-IsStorage :
      ((bucket key : Text) (s : svc.State) → AllSent svc objects account bucket key s)
      → IsStorage (azure_blob svc md5_sum)
  azure_blob-IsStorage sent = record {
    objects = λ b. objects b.service;
    get_same = get_object-Same svc objects account;
    get_found = λ bucket key b info h.
        let (content, held, (rest, same, all), size) =
          get_object-Opened svc objects account bucket key b info h in
        (rest, held ∙ ap some same, size ∙ ap length same, λ fine. all fine (sent bucket key _));
    put_others = λ bucket key content b. (put_object-Stored bucket key content b).others;
    put_stores = λ bucket key content b. (put_object-Stored bucket key content b).stores;
    put_fails = λ bucket key content b. (put_object-Stored bucket key content b).keeps;
    delete_others = λ bucket key b. (delete_object-Deleted bucket key b).others;
    delete_removes = λ bucket key b. (delete_object-Deleted bucket key b).removes;
    delete_fails = λ bucket key b. (delete_object-Deleted bucket key b).keeps;
  }

  -- what CopyObject does to the objects
  pub record Copied (source_bucket source_key bucket key : Text) (b : AzureBlobBackend svc)
      (r : Result Text × AzureBlobBackend svc) : Type 0 where
    pub others : SameBut bucket key (objects b.service) (objects r.1.service)
    pub copies :
        (etag : Text)
        → r.0 ≡ ok etag
        → (content : List ℕ) × (objects b.service source_bucket source_key ≡ some content)
          × (objects r.1.service bucket key ≡ some content)
    pub keeps : (e : Text) → r.0 ≡ failed e → Same (objects b.service) (objects r.1.service)

  abbrev told : Result Text → Result Text
  told (failed e) = failed (codes "failed to upload destination object for copy: " ++ e)
  told (ok etag) = ok etag

  told-cases :
      (x : Result Text)
      → ((e : Text) × (x ≡ failed e)
          × (told x ≡ failed (codes "failed to upload destination object for copy: " ++ e)))
        ⊎ ((etag : Text) × (x ≡ ok etag) × (told x ≡ ok etag))
  told-cases (failed e) = inl (e, refl, refl)
  told-cases (ok etag) = inr (etag, refl, refl)

  copy_object-failed :
      (source_bucket source_key bucket key : Text) (b : AzureBlobBackend svc) (e : Text)
      → (get_object svc source_bucket source_key b).0 ≡ failed e
      → copy_object svc md5_sum source_bucket source_key bucket key b ≡ (
        failed (codes "failed to open source object for copy: " ++ e),
        (get_object svc source_bucket source_key b).1,
      )
  unfolding copy_object
  copy_object-failed source_bucket source_key bucket key b e h = rw (h, copy_object) refl

  copy_object-ok :
      (source_bucket source_key bucket key : Text) (b : AzureBlobBackend svc) (info : ObjectInfo)
      → (get_object svc source_bucket source_key b).0 ≡ ok info
      → let put =
          put_contents svc md5_sum bucket key
            (positive info.size)
            (info.body, info.body_fails)
            (get_object svc source_bucket source_key b).1 in
        copy_object svc md5_sum source_bucket source_key bucket key b ≡ (told put.0, put.1)
  unfolding copy_object
  copy_object-ok source_bucket source_key bucket key b info h = rw (h, copy_object) (ground arith)

  -- With an account that keeps what IsAccount says, and where every chunk of the source is scheduled if
  -- it is read by chunks: CopyObject that succeeds leaves at the target the
  -- whole content that the source had, also where the two are one object and where the body of the
  -- source breaks off, and one that fails changes no object; no other object changes in either case.
  pub copy_object-Copied :
      (source_bucket source_key bucket key : Text) (b : AzureBlobBackend svc)
      → AllSent svc objects account source_bucket source_key
          (svc.blob_properties source_bucket source_key b.service).1
      → Copied source_bucket source_key bucket key b
          (copy_object svc md5_sum source_bucket source_key bucket key b)
  copy_object-Copied source_bucket source_key bucket key b sent =
      let (source, b1) = get_object svc source_bucket source_key b in
      let same = get_object-Same svc objects account source_bucket source_key b in
      let IsCopied : Result Text × AzureBlobBackend svc → Type 0 =
        Copied source_bucket source_key bucket key b in
      elim (Result-cases source) [
        | inl (e, fails) ↦
            subst IsCopied (sym (copy_object-failed source_bucket source_key bucket key b e fails))
              (record { others = λ c r n. same c r; copies = λ etag h. cc; keeps = λ text h. same })
        | inr (info, works) ↦
            let (content, held, (rest, whole, all), size) =
              get_object-Opened svc objects account source_bucket source_key b info works in
            let put =
              put_contents svc md5_sum bucket key (positive info.size) (info.body, info.body_fails)
                b1 in
            let stored : Stored svc objects bucket key (info.body ++ rest) b1 put =
              subst
                (λ n. Stored svc objects bucket key (info.body ++ rest) b1 (
                  put_contents svc md5_sum bucket key (positive n) (info.body, info.body_fails) b1))
                (sym (size ∙ ap length whole))
                (put_contents-Stored svc md5_sum objects account bucket key info.body rest
                  info.body_fails (λ fine. all fine sent) b1) in
            subst IsCopied (sym (copy_object-ok source_bucket source_key bucket key b info works))
              (record {
                others = λ c r n. stored.others c r n ∙ same c r;
                copies = λ etag h. (
                  content,
                  held,
                  stored.stores etag
                        (elim (told-cases put.0) [ inl (e, x, y) ↦ cc | inr (t, x, y) ↦ cc ])
                      ∙ ap some (sym whole),
                );
                keeps = λ text h. elim (told-cases put.0) [
                  | inl (e, x, y) ↦ λ c r. stored.keeps e x c r ∙ same c r
                  | inr (t, x, y) ↦ cc
                ];
              })
      ]
