-- ===== src/Handlers/Coherence/Steps.antt =====
-- The parts of the handlers that keep the cache coherent.
use mathlib.Core.Path.{subst}
use azs3_proxy.Prelude.{
  true, ℕ, ◌≡◌, ◌≢◌, refl, sym, ap, ◌∙◌, Text, Option-cases, some, none, List, [], ◌∷◌, ◌++◌, inl,
  inr, cut, arith,
}
use azs3_proxy.Range.Blocks.{generate_cache_key}
use azs3_proxy.Stats.{S3OperationStats}
use azs3_proxy.Handlers.Types.{StorageBackend, ObjectCache, S3Handler}
use azs3_proxy.Handlers.Objects.{invalidate}
use azs3_proxy.Handlers.Reads.{cached, run_pending}
use azs3_proxy.Handlers.Coherence.{
  IsCache, IsStorage, Same, SameBut, IsCurrent, IsCurrent-Same, IsCurrent-but, Jobs, Queued,
  IsKeyed, Jobs-append, Jobs-map₂, Coherent, generate_cache_key_injective,
}

module _ (backend : StorageBackend) (cache : ObjectCache) (storage : IsStorage backend)
    (mem : IsCache cache) where
  abbrev Fit : S3Handler backend cache → Type 0
  Fit h = Coherent backend cache storage mem h

  -- a call of the storage that changes no object
  pub moved-Coherent :
      (s : backend.State) (stats : S3OperationStats) (h : S3Handler backend cache)
      → Same (storage.objects h.storage) (storage.objects s)
      → Fit h
      → Fit (record h { storage = s; stats = stats })
  moved-Coherent s stats h same fit = record {
    cache_fit = fit.cache_fit;
    cached_current = λ c k content e found.
        IsCurrent-Same (storage.objects h.storage) (storage.objects s) k content same
          (fit.cached_current c k content e found);
    pending_current =
        Jobs-map₂ _ _ _ h.pending
          (λ k content cur _. (
            IsCurrent-Same (storage.objects h.storage) (storage.objects s) k content same cur.0,
            cur.1,
          ))
          fit.pending_current fit.pending_current;
  }

  -- a call that changes one object, with its entry invalidated and no goroutine left for it
  pub invalidate-Coherent :
      (s : backend.State) (stats : S3OperationStats) (b q : Text) (h : S3Handler backend cache)
      → SameBut b q (storage.objects h.storage) (storage.objects s)
      → Jobs (λ k content. k ≢ generate_cache_key b q) h.pending
      → Fit h
      → Fit (
          invalidate backend cache
            (generate_cache_key b q)
            (record h { storage = s; stats = stats }))
  unfolding invalidate
  invalidate-Coherent s stats b q h same idle fit =
      let key = generate_cache_key b q in
      let jobs =
        Jobs-map₂ _ _ (Queued backend cache storage mem (storage.objects s)) h.pending
          (λ k content other cur. (
            IsCurrent-but (storage.objects h.storage) (storage.objects s) b q k content same other
                cur.0,
            cur.1,
          ))
          idle fit.pending_current in
      elim (Option-cases h.cache_state) [
        | inl off ↦
            rw (off, invalidate)
              (record {
                cache_fit = λ c e. absurd (ground (arith, off, e));
                cached_current = λ c k content e found. absurd (ground (arith, off, e));
                pending_current = jobs;
              })
        | inr (c0, on) ↦
            rw (on, invalidate)
              (record {
                cache_fit = λ c e.
                    let f : (cache.invalidate key c0).1 ≡ c = cc in
                    subst mem.Fit f (mem.invalidate_fit key c0 (fit.cache_fit c0 on));
                cached_current = λ c k content e found.
                    let kept = mem.invalidate_keeps key k c0 content (fit.cache_fit c0 on) (
                      ap (λ x. mem.contents x k) (let f : (cache.invalidate key c0).1 ≡ c = cc in f)
                      ∙ found) in
                    IsCurrent-but (storage.objects h.storage) (storage.objects s) b q k content same
                      kept.0 (fit.cached_current c0 k content on kept.1);
                pending_current = jobs;
              })
      ]

  -- the lookup in the cache: the objects stay, the cache stays coherent, and what is found is current
  pub cached-Coherent :
      (k : Text) (h : S3Handler backend cache)
      → mem.key k ≡ true
      → Fit h
      → Fit (cached backend cache k h).1
        × ((cached backend cache k h).1.storage ≡ h.storage)
        × ((cached backend cache k h).1.pending ≡ h.pending)
        × ((content : List ℕ)
            → (cached backend cache k h).0 ≡ some content
            → IsCurrent (storage.objects h.storage) k content)
  unfolding cached
  cached-Coherent k h keyed fit = elim (Option-cases h.cache_state) [
    | inl off ↦ rw (off, cached) (fit, refl, refl, λ content e. absurd (ground (arith, e)))
    | inr (c0, on) ↦
        rw (on, cached)
          (
            record {
              cache_fit = λ c e.
                  let f : (cache.store.get k c0).1 ≡ c = cc in
                  subst mem.Fit f (mem.get_fit k c0 (fit.cache_fit c0 on));
              cached_current = λ c j content e found. fit.cached_current c0 j content on (
                  mem.get_keeps k j c0 content (fit.cache_fit c0 on) (
                    ap (λ x. mem.contents x j) (let f : (cache.store.get k c0).1 ≡ c = cc in f)
                    ∙ found));
              pending_current = fit.pending_current;
            },
            refl,
            refl,
            λ content e.
                fit.cached_current c0 k content on
                  (mem.get_found k c0 content (fit.cache_fit c0 on) keyed e),
          )
  ]

  -- a goroutine that is added with the bytes of the object
  pub queued-Coherent :
      (b q : Text) (content : List ℕ) (stats : S3OperationStats) (h : S3Handler backend cache)
      → cut b'/' b ≡ none
      → IsKeyed backend cache storage mem b q
      → storage.objects h.storage b q ≡ some content
      → Fit h
      → Fit (record h {
        stats = stats;
        pending = h.pending ++ (generate_cache_key b q, content) ∷ [];
      })
  queued-Coherent b q content stats h plain_bucket keyed held fit = record {
    cache_fit = fit.cache_fit;
    cached_current = fit.cached_current;
    pending_current = Jobs-append _ h.pending (generate_cache_key b q) content fit.pending_current (
      λ b2 q2 h2 e.
          let same = generate_cache_key_injective b b2 q q2 plain_bucket h2 e in
          ground (arith, same.0, same.1, held),
      keyed,
    );
  }

  run_job-Coherent :
      (jobs : List (Text × List ℕ)) (h : S3Handler backend cache)
      → h.pending ≡ jobs
      → Jobs (Queued backend cache storage mem (storage.objects h.storage)) jobs
      → Fit h
      → Fit (run_pending backend cache h)
  unfolding run_pending
  run_job-Coherent [] h e all fit = rw (e, run_pending) fit
  run_job-Coherent ((k, content) ∷ rest) h e ((cur, keyed), all) fit =
      elim (Option-cases h.cache_state) [
        | inl off ↦
            rw (e, run_pending)
              (rw off (record {
                cache_fit = fit.cache_fit;
                cached_current = fit.cached_current;
                pending_current = all;
              }))
        | inr (c0, on) ↦
            rw (e, run_pending)
              (rw on (record {
                cache_fit = λ c e2.
                    let f : (cache.store.put k content c0).1 ≡ c = cc in
                    subst mem.Fit f (mem.put_fit k content c0 (fit.cache_fit c0 on));
                cached_current = λ c j bytes e2 found.
                    elim (mem.put_keeps k j content c0 bytes (fit.cache_fit c0 on) keyed (
                      ap (λ x. mem.contents x j)
                        (let f : (cache.store.put k content c0).1 ≡ c = cc in f)
                      ∙ found)) [
                        | inl (same_key, same_bytes) ↦
                            λ b q h2 e3. (cur b q h2 (sym same_key ∙ e3) ∙ ap some (sym same_bytes))
                        | inr kept ↦ fit.cached_current c0 j bytes on kept
                      ];
                pending_current = all;
              }))
      ]

  -- A goroutine that caches what a GET read keeps the cache coherent.
  pub run_pending-Coherent :
      (h : S3Handler backend cache) → Fit h → Fit (run_pending backend cache h)
  run_pending-Coherent h fit = run_job-Coherent h.pending h refl fit.pending_current fit
