-- ===== src/AzureBlob/Stored.antt =====
-- What PutObject and CopyObject store, however the body is sent.
use mathlib.Core.Path.{subst}
use azs3_proxy.Prelude.{
  ℕ, ◌≡◌, refl, sym, ap, ◌∙◌, Text, codes, Bool, false, some, List, [], ◌∷◌, ◌++◌, ◌⊎◌, inl, inr,
  length, length-append, take_of_length-le, append-nil, arith, Bool-cases, Option-cases,
}
use azs3_proxy.Range.Numbers.{positive}
use azs3_proxy.Handlers.Types.{Result, ok, failed}
use azs3_proxy.Handlers.Coherence.{Objects, Same, SameBut}
use azs3_proxy.AzureBlob.{
  Outcome, AzureError, done, refused, BlobService, AzureBlobBackend, read_full,
}
use azs3_proxy.AzureBlob.Puts.{in_memory, stream_concurrency, put_buffer, put_stream, put_contents}
use azs3_proxy.AzureBlob.Objects.{stream_block_size}
use azs3_proxy.AzureBlob.Account.{IsAccount}

pub Outcome-cases :
    {A : Type 0} (x : Outcome A) → ((e : AzureError) × (x ≡ refused e)) ⊎ ((a : A) × (x ≡ done a))
Outcome-cases (refused e) = inl (e, refl)
Outcome-cases (done a) = inr (a, refl)

-- What a call that stores an object has done.
pub record Stored (svc : BlobService) (objects : svc.State → Objects) (bucket key : Text)
    (content : List ℕ) (b : AzureBlobBackend svc) (r : Result Text × AzureBlobBackend svc)
    : Type 0 where
  pub others : SameBut bucket key (objects b.service) (objects r.1.service)
  pub stores : (etag : Text) → r.0 ≡ ok etag → objects r.1.service bucket key ≡ some content
  pub keeps : (e : Text) → r.0 ≡ failed e → Same (objects b.service) (objects r.1.service)

read_full-short :
    (body rest buf : List ℕ) (fails : Bool)
    → read_full (length (body ++ rest)) (body, fails) ≡ some buf
    → rest ≡ []
unfolding read_full
read_full-short body [] buf fails h = refl
read_full-short body (x ∷ rest) buf fails h = ground (arith, h, length-append body (x ∷ rest))

read_full-exact :
    (body buf : List ℕ) (fails : Bool)
    → read_full (length body) (body, fails) ≡ some buf
    → body ≡ buf
unfolding read_full
read_full-exact body buf fails h =
    ground (arith, h, take_of_length-le (length body) body (omega arith))

in_memory-exact : (n m : ℕ) → in_memory (positive n) ≡ some m → n ≡ m
unfolding in_memory
in_memory-exact n m h = ground arith

module _ (svc : BlobService) (md5_sum : List ℕ → List ℕ) (objects : svc.State → Objects)
    (account : IsAccount svc objects) where
  put_buffer-Stored :
      (bucket key : Text) (buf : List ℕ) (b : AzureBlobBackend svc)
      → Stored svc objects bucket key buf b (put_buffer svc md5_sum bucket key buf b)
  unfolding put_buffer
  put_buffer-Stored bucket key buf b =
      let up = account.buffered bucket key buf (md5_sum buf) in
      elim (Outcome-cases (svc.upload_buffer bucket key buf (md5_sum buf) b.service).0) [
        | inl (e, fails) ↦ record {
          others = up.others b.service;
          stores = λ etag h. cc;
          keeps = λ text h. up.keeps b.service e fails;
        }
        | inr (tt, works) ↦ record {
          others = up.others b.service;
          stores = λ etag h. up.stores b.service works;
          keeps = λ text h. cc;
        }
      ]

  module _ (bucket key : Text) (body rest : List ℕ) (fails : Bool)
      (whole : fails ≡ false → rest ≡ []) where
    -- the whole object, of which the body is what was read
    abbrev content : List ℕ
    content = body ++ rest

    put_stream-Stored :
        (b : AzureBlobBackend svc)
        → Stored svc objects bucket key content b
            (put_stream svc md5_sum bucket key (positive (length content)) (body, fails) b)
    unfolding put_stream
    put_stream-Stored b =
        let count = stream_concurrency (positive (length content)) in
        let up = account.streamed stream_block_size count bucket key (body, fails) in
        let (result, s) =
          svc.upload_stream stream_block_size count bucket key (body, fails) b.service in
        elim (Outcome-cases result) [
          | inl (e, refusal) ↦
              rw (refusal, put_stream)
                (record {
                  others = up.others b.service;
                  stores = λ etag h. cc;
                  keeps = λ text h. up.keeps b.service e refusal;
                })
          | inr (tt, works) ↦
              let same = account.set_md5_same bucket key (md5_sum body) s in
              let none_left = whole (
                account.streamed_whole stream_block_size count bucket key (body, fails) b.service
                  works) in
              rw (works, put_stream)
                (record {
                  others = λ c r n. same c r ∙ up.others b.service c r n;
                  stores = λ etag h.
                      same bucket key
                      ∙ up.stores b.service works
                      ∙ ap some (sym (append-nil body) ∙ ap (◌++◌ body) (sym none_left));
                  keeps = λ text h. cc;
                })
        ]

    -- in memory, where the body has as many bytes as it should
    read_full-content :
        (n : ℕ) (buf : List ℕ)
        → in_memory (positive (length content)) ≡ some n
        → read_full n (body, fails) ≡ some buf
        → content ≡ buf
    read_full-content n buf e h =
        let size = in_memory-exact (length content) n e in
        let h1 : read_full (length content) (body, fails) ≡ some buf =
          ap (λ k. read_full k (body, fails)) size ∙ h in
        let gone = read_full-short body rest buf fails h1 in
        let all : content ≡ body = ap (◌++◌ body) gone ∙ append-nil body in
        all
        ∙ read_full-exact body buf fails
            (ap (λ l. read_full (length l) (body, fails)) (sym all) ∙ h1)

    pub put_contents-Stored :
        (b : AzureBlobBackend svc)
        → Stored svc objects bucket key content b
            (put_contents svc md5_sum bucket key (positive (length content)) (body, fails) b)
    unfolding put_contents
    put_contents-Stored b =
        let size = positive (length content) in
        let put = put_contents svc md5_sum bucket key size (body, fails) b in
        let stream = put_stream svc md5_sum bucket key size (body, fails) b in
        let StoredBy : Result Text × AzureBlobBackend svc → Type 0 =
          Stored svc objects bucket key content b in
        elim (Bool-cases b.limited) [
          | inl limited ↦
              let e : put ≡ stream = ground (arith, limited) in
              subst StoredBy (sym e) (put_stream-Stored b)
          | inr unlimited ↦ elim (Option-cases (in_memory size)) [
            | inl large ↦
                let e : put ≡ stream = ground (arith, unlimited, large) in
                subst StoredBy (sym e) (put_stream-Stored b)
            | inr (n, memory) ↦ elim (Option-cases (read_full n (body, fails))) [
              | inl short ↦
                  let e : put ≡ (failed (codes "failed to read body into memory"), b) =
                    ground (arith, unlimited, memory, short) in
                  subst StoredBy (sym e) (record {
                    others = λ c r n. refl;
                    stores = λ etag h. cc;
                    keeps = λ text h c r. refl;
                  })
              | inr (buf, full) ↦
                  let e : put ≡ put_buffer svc md5_sum bucket key buf b =
                    ground (arith, unlimited, memory, full) in
                  let all = read_full-content n buf memory full in
                  subst StoredBy (sym e) (
                    subst
                      (λ l.
                        Stored svc objects bucket key l b (put_buffer svc md5_sum bucket key buf b))
                      (sym all) (put_buffer-Stored bucket key buf b))
            ]
          ]
        ]
