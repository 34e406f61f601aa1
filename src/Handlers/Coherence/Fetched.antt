-- ===== src/Handlers/Coherence/Fetched.antt =====
-- A read of an object, from the cache or from the storage.
use mathlib.Core.Path.{subst}
use azs3_proxy.Prelude.{
  ℕ, ◌≡◌, refl, sym, ap, ◌∙◌, Bool, true, false, Option-cases, some, none, List, [], ◌∷◌, ◌++◌, inl,
  inr, length, length-append, take_of_length-le, cut, arith, append-nil, Bool-cases,
}
use azs3_proxy.Range.Blocks.{generate_cache_key}
use azs3_proxy.Stats.{record_get_object}
use azs3_proxy.Handlers.Types.{
  ok, ObjectInfo, S3Request, StorageBackend, ObjectCache, S3Handler, stored,
}
use azs3_proxy.Handlers.Objects.{object_key}
use azs3_proxy.Handlers.Reads.{cached, buffered, send_object, fetch_object, get_whole_object}
use azs3_proxy.Handlers.Coherence.{IsCache, IsStorage, Same, IsKeyed, Coherent}
use azs3_proxy.Handlers.Coherence.Steps.{moved-Coherent, cached-Coherent, queued-Coherent}
use azs3_proxy.Handlers.Coherence.Specified.{
  reads, Specified, error_status, Result-cases, Whole, Kept,
}

none_left : (rest : List ℕ) → length rest ≡ 0 → rest ≡ []
none_left [] h = refl
none_left (x ∷ rest) h = absurd (omega arith)

-- What is put in the cache is the whole object.
buffered_whole :
    (info : ObjectInfo) (rest content : List ℕ)
    → info.size ≡ length (info.body ++ rest)
    → (info.body_fails ≡ false → rest ≡ [])
    → buffered info ≡ some content
    → info.body ++ rest ≡ content
unfolding buffered
buffered_whole info rest content size whole e =
    let total = length-append info.body rest in
    let gone : rest ≡ [] = elim (Bool-cases info.body_fails) [
      | inl fails ↦ none_left rest (ground (arith, fails, total))
      | inr fine ↦ whole fine
    ] in
    let fits : length info.body ≡ info.size = ground (arith, gone, total, append-nil info.body) in
    let taken = take_of_length-le info.size info.body (omega arith) in
    ground (arith, gone, fits, taken, append-nil info.body)

buffered-none : (info : ObjectInfo) → buffered info ≡ none → info.body_fails ≡ true
unfolding buffered
buffered-none info e = ground arith

module _ (backend : StorageBackend) (cache : ObjectCache) (storage : IsStorage backend)
    (mem : IsCache cache) where
  abbrev Fit : S3Handler backend cache → Type 0
  Fit h = Coherent backend cache storage mem h

  send_object-Kept :
      (W : Type 0) (r : S3Request) (info : ObjectInfo) (rest : List ℕ) (should_cache : Bool)
      (s : backend.State) (h : S3Handler backend cache)
      → cut b'/' r.bucket ≡ none
      → IsKeyed backend cache storage mem r.bucket (object_key r)
      → Same (storage.objects h.storage) (storage.objects s)
      → storage.objects h.storage r.bucket (object_key r) ≡ some (info.body ++ rest)
      → info.size ≡ length (info.body ++ rest)
      → (info.body_fails ≡ false → rest ≡ [])
      → (W → info.body_fails ≡ false)
      → Fit h
      → Kept backend cache storage mem reads W r h
          (send_object backend cache r info should_cache (stored backend cache s h))
  unfolding send_object
  send_object-Kept W r info rest false s h plain_bucket keyed same held size whole all fit = (
    (same, inl (info.body, rest, refl, refl, held, λ w. whole (all w))),
    moved-Coherent backend cache storage mem s (record_get_object true h.stats) h same fit,
  )
  send_object-Kept W r info rest true s h plain_bucket keyed same held size whole all fit =
      let fit1 = moved-Coherent backend cache storage mem s h.stats h same fit in
      elim (Option-cases (buffered info)) [
        | inl off ↦
            rw (off, send_object)
              (
                (
                  same,
                  inl (
                    [],
                    info.body ++ rest,
                    refl,
                    refl,
                    held,
                    λ w. absurd (ground (arith, all w, buffered-none info off)),
                  ),
                ),
                fit1,
              )
        | inr (content, on) ↦
            let full = buffered_whole info rest content size whole on in
            let held1 = held ∙ ap some full in
            rw (on, send_object)
              (
                (
                  same,
                  inl (
                    content,
                    [],
                    refl,
                    refl,
                    held1 ∙ ap some (sym (append-nil content)),
                    λ w. refl,
                  ),
                ),
                queued-Coherent backend cache storage mem r.bucket (object_key r) content
                    (record_get_object true h.stats) (stored backend cache s h) plain_bucket keyed
                    (same r.bucket (object_key r) ∙ held1) fit1,
              )
      ]

  fetch_object-Kept :
      (W : Type 0) (r : S3Request) (h : S3Handler backend cache)
      → (W → Whole backend cache r h)
      → cut b'/' r.bucket ≡ none
      → IsKeyed backend cache storage mem r.bucket (object_key r)
      → Fit h
      → Kept backend cache storage mem reads W r h (fetch_object backend cache r h)
  unfolding fetch_object
  fetch_object-Kept W r h all plain_bucket keyed fit =
      let key = object_key r in
      let (result, s) = backend.get_object r.bucket key h.storage in
      let same = storage.get_same r.bucket key h.storage in
      elim (Result-cases result) [
        | inl (e, fails) ↦
            rw (fails, fetch_object)
              (
                (same, inr (error_status _)),
                moved-Coherent backend cache storage mem s (record_get_object false h.stats) h same
                    fit,
              )
        | inr (info, works) ↦
            let (rest, held, size, whole) = storage.get_found r.bucket key h.storage info works in
            rw (works, fetch_object)
              (send_object-Kept W r info rest _ s h plain_bucket keyed same held size whole
                (λ w. all w info works) fit)
      ]

  pub get_whole_object-Kept :
      (W : Type 0) (r : S3Request) (h : S3Handler backend cache)
      → (W → Whole backend cache r h)
      → cut b'/' r.bucket ≡ none
      → IsKeyed backend cache storage mem r.bucket (object_key r)
      → Fit h
      → Kept backend cache storage mem reads W r h (get_whole_object backend cache r h)
  unfolding get_whole_object
  get_whole_object-Kept W r h all plain_bucket keyed fit =
      let k = generate_cache_key r.bucket (object_key r) in
      let (fit1, still, _, current) = cached-Coherent backend cache storage mem k h keyed fit in
      let same : Same (storage.objects h.storage)
          (storage.objects (cached backend cache k h).1.storage) =
        λ b q. ap (λ s. storage.objects s b q) still in
      elim (Option-cases (cached backend cache k h).0) [
        | inl miss ↦
            let h1 = (cached backend cache k h).1 in
            let all1 : W → Whole backend cache r h1 = λ w info.
              subst
                (λ s.
                  (backend.get_object r.bucket (object_key r) s).0 ≡ ok info
                  → info.body_fails ≡ false)
                (sym still) (all w info) in
            rw (miss, get_whole_object)
              (subst
                (λ s.
                  Specified reads W r (fetch_object backend cache r h1).0 (storage.objects s)
                    (storage.objects (fetch_object backend cache r h1).1.storage)
                  × Fit (fetch_object backend cache r h1).1)
                still (fetch_object-Kept W r h1 all1 plain_bucket keyed fit1))
        | inr (content, hit) ↦
            rw (hit, get_whole_object)
              (
                (
                  same,
                  inl (
                    content,
                    [],
                    refl,
                    refl,
                    current content hit r.bucket (object_key r) plain_bucket refl
                        ∙ ap some (sym (append-nil content)),
                    λ w. refl,
                  ),
                ),
                fit1,
              )
      ]
