-- ===== src/Handlers/Coherence/Life.antt =====
-- Any sequence of the calls of one object, with the goroutines of GetObject and with entries that
-- the cache drops.
use mathlib.Core.Path.{subst}
use azs3_proxy.Prelude.{ℕ, ◌≡◌, ap, ◌∙◌, arith, Text, Option, some, none, List, []}
use azs3_proxy.Handlers.Types.{S3Request, StorageBackend, ObjectCache, S3Handler}
use azs3_proxy.Handlers.Objects.{object_key}
use azs3_proxy.Handlers.Reads.{run_pending}
use azs3_proxy.Handlers.Coherence.{IsCache, IsStorage, IsKeyed, Coherent}
use azs3_proxy.Handlers.Coherence.Steps.{run_pending-Coherent}
use azs3_proxy.Handlers.Plain.{IsPlain}
use azs3_proxy.Handlers.Coherence.Specified.{Call}
use azs3_proxy.Handlers.Coherence.Refined.{handle, Idle, handle_refines}

module _ (backend : StorageBackend) (cache : ObjectCache) (storage : IsStorage backend)
    (mem : IsCache cache) (now : Text) (unescape : Text → Option Text) where
  pub data Step : S3Handler backend cache → S3Handler backend cache → Type 0 where
    serves :
        (call : Call) (r : S3Request) (h : S3Handler backend cache)
        → IsPlain r
        → IsKeyed backend cache storage mem r.bucket (object_key r)
        → Idle backend cache storage mem now unescape call r h
        → Step h (handle backend cache storage mem now unescape call r h).1
    caches : (h : S3Handler backend cache) → Step h (run_pending backend cache h)
    drops :
        (c d : cache.store.State) (h : S3Handler backend cache)
        → h.cache_state ≡ some c
        → mem.Fit d
        → ((k : Text) (content : List ℕ)
            → mem.contents d k ≡ some content
            → mem.contents c k ≡ some content)
        → Step h (record h { cache_state = some d })

  -- The states that lead from one with an empty cache and no goroutine.
  pub data Reachable : S3Handler backend cache → Type 0 where
    start :
        (h : S3Handler backend cache)
        → ((c : cache.store.State) → h.cache_state ≡ some c → mem.Fit c)
        → ((c : cache.store.State) (k : Text) → h.cache_state ≡ some c → mem.contents c k ≡ none)
        → h.pending ≡ []
        → Reachable h
    next : {h t : S3Handler backend cache} → Reachable h → Step h t → Reachable t

  Step-Coherent :
      {h t : S3Handler backend cache}
      → Step h t
      → Coherent backend cache storage mem h
      → Coherent backend cache storage mem t
  Step-Coherent (serves call r h p keyed idle) fit =
      (handle_refines backend cache storage mem now unescape call r h p keyed idle fit).1
  Step-Coherent (caches h) fit = run_pending-Coherent backend cache storage mem h fit
  Step-Coherent (drops c d h on fit_d less) fit = record {
    cache_fit = λ e same. let f : d ≡ e = cc in subst mem.Fit f fit_d;
    cached_current = λ e k content same found.
        fit.cached_current c k content on
          (less k content (ap (λ x. mem.contents x k) (let f : d ≡ e = cc in f) ∙ found));
    pending_current = fit.pending_current;
  }

  -- With a storage and a cache that keep what IsStorage and IsCache say: from an empty cache that is
  -- fit, in every state that plain calls of single objects whose cache keys the cache answers for,
  -- goroutines that fill the cache, and changes after which the cache is fit and has less lead to, when
  -- a write finds no goroutine of an earlier GET of its object, the cache is fit and has only current
  -- bytes of objects.
  pub Reachable-Coherent :
      {h : S3Handler backend cache} → Reachable h → Coherent backend cache storage mem h
  Reachable-Coherent (start h fits empty idle) = record {
    cache_fit = fits;
    cached_current = λ c k content on found. absurd (ground (arith, empty c k on, found));
    pending_current = rw idle tt;
  }
  Reachable-Coherent (next reached step) = Step-Coherent step (Reachable-Coherent reached)
