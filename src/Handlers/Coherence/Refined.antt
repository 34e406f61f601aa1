-- ===== src/Handlers/Coherence/Refined.antt =====
-- GetObject, PutObject and DeleteObject, cache and all, as reads and writes of a map of objects.
use mathlib.Core.Path.{subst}
use azs3_proxy.Prelude.{
  ◌≡◌, ◌≢◌, refl, sym, ◌∙◌, Text, true, false, Option, Option-cases, [], inl, inr, length, eq_text,
}
use azs3_proxy.Range.Numbers.{positive}
use azs3_proxy.Range.Blocks.{generate_cache_key}
use azs3_proxy.Stats.{record_put_object, record_delete_object}
use azs3_proxy.Handlers.Types.{
  plain, S3Request, Reply, StorageBackend, ObjectCache, S3Handler, after,
}
use azs3_proxy.Handlers.Objects.{
  object_key, put_done, invalidate, put_object_handler, delete_object_handler,
}
use azs3_proxy.Handlers.Ranges.{get_object_handler}
use azs3_proxy.Handlers.Coherence.{IsCache, IsStorage, Same, Jobs, IsKeyed, Coherent}
use azs3_proxy.Handlers.Coherence.Steps.{moved-Coherent, invalidate-Coherent}
use azs3_proxy.Handlers.Plain.{IsPlain, get_plain, put_plain}
use azs3_proxy.Handlers.Coherence.Specified.{
  Call, reads, writes, removes, Specified, error_status, Result-cases, Whole, Kept,
}
use azs3_proxy.Handlers.Coherence.Fetched.{get_whole_object-Kept}

module _ (backend : StorageBackend) (cache : ObjectCache) (storage : IsStorage backend)
    (mem : IsCache cache) (now : Text) (unescape : Text → Option Text) where
  abbrev pub handle : Call → S3Request → S3Handler backend cache → Reply × S3Handler backend cache
  handle reads = get_object_handler backend cache now
  handle writes = put_object_handler backend cache unescape
  handle removes = delete_object_handler backend cache

  abbrev Fit : S3Handler backend cache → Type 0
  Fit h = Coherent backend cache storage mem h

  -- a write finds no goroutine that caches its object
  abbrev pub Idle : Call → S3Request → S3Handler backend cache → Type 0
  Idle reads r h = Unit {0}
  Idle _ r h = Jobs (λ k content. k ≢ generate_cache_key r.bucket (object_key r)) h.pending

  invalidate-Same :
      (k : Text) (h : S3Handler backend cache)
      → Same (storage.objects h.storage) (storage.objects (invalidate backend cache k h).storage)
  unfolding invalidate
  invalidate-Same k h b q = elim (Option-cases h.cache_state) [
    | inl off ↦ rw (off, invalidate) refl
    | inr (c, on) ↦ rw (on, invalidate) refl
  ]

  write-Kept :
      (W : Type 0) (r : S3Request) (h : S3Handler backend cache)
      → eq_text r.copy_source [] ≡ true
      → Idle writes r h
      → Fit h
      → Kept backend cache storage mem writes W r h (
          put_done backend cache r
            (backend.put_object r.bucket
              (object_key r)
              (positive (length r.body))
              (plain r.body)
              h.storage)
            h)
  unfolding put_done
  write-Kept W r h no_source idle fit =
      let key = object_key r in
      let (result, s) =
        backend.put_object r.bucket key (positive (length r.body)) (plain r.body) h.storage in
      elim (Result-cases result) [
        | inl (e, fails) ↦
            rw (fails, put_done)
              (let same = storage.put_fails r.bucket key r.body h.storage e fails in
                (
                  inr (error_status _, same),
                  moved-Coherent backend cache storage mem s (record_put_object false h.stats) h
                      same fit,
                ))
        | inr (etag, works) ↦
            let same = storage.put_others r.bucket key r.body h.storage in
            let held =
              invalidate-Same (generate_cache_key r.bucket key)
                (after backend cache s (record_put_object true) h) in
            rw (works, put_done)
              (rw no_source (
                inl (
                  refl,
                  (λ b q n. held b q ∙ same b q n),
                  held r.bucket key ∙ storage.put_stores r.bucket key r.body h.storage etag works,
                ),
                invalidate-Coherent backend cache storage mem s (record_put_object true h.stats)
                    r.bucket key h same idle fit,
              ))
      ]

  remove-Kept :
      (W : Type 0) (r : S3Request) (h : S3Handler backend cache)
      → eq_text (object_key r) [] ≡ false
      → Idle removes r h
      → Fit h
      → Kept backend cache storage mem removes W r h (delete_object_handler backend cache r h)
  unfolding delete_object_handler
  remove-Kept W r h given idle fit =
      let key = object_key r in
      let (result, s) = backend.delete_object r.bucket key h.storage in
      elim (Result-cases result) [
        | inl (e, fails) ↦
            rw (given, delete_object_handler)
              (rw fails (
                let same = storage.delete_fails r.bucket key h.storage e fails in
                (
                  inr (error_status _, same),
                  moved-Coherent backend cache storage mem s (record_delete_object false h.stats) h
                      same fit,
                )))
        | inr (tt, works) ↦
            let same = storage.delete_others r.bucket key h.storage in
            let held =
              invalidate-Same (generate_cache_key r.bucket key)
                (after backend cache s (record_delete_object true) h) in
            rw (given, delete_object_handler)
              (rw works (
                inl (
                  refl,
                  (λ b q n. held b q ∙ same b q n),
                  held r.bucket key ∙ storage.delete_removes r.bucket key h.storage works,
                ),
                invalidate-Coherent backend cache storage mem s (record_delete_object true h.stats)
                    r.bucket key h same idle fit,
              ))
      ]

  -- With a storage and a cache that keep what IsStorage and IsCache say: if the cache is fit and
  -- everything that it has is current, a request is for one object by its name, without a range, a
  -- copy source or AWS chunks, its bucket has no slash, its cache key is one that the cache answers
  -- for, and a write finds no goroutine of an earlier GET of its object, then GetObject, PutObject and
  -- DeleteObject do and answer what the map of objects says, whatever the cache has dropped, and the
  -- cache is fit and everything that it has is current again. A read answers an error, or the first
  -- bytes of the object, and all of them if the storage does not break off the body.
  pub handle_refines :
      (call : Call) (r : S3Request) (h : S3Handler backend cache)
      → IsPlain r
      → IsKeyed backend cache storage mem r.bucket (object_key r)
      → Idle call r h
      → Coherent backend cache storage mem h
      → Specified call
          (Whole backend cache r h)
          r
          (handle call r h).0
          (storage.objects h.storage)
          (storage.objects (handle call r h).1.storage)
        × Coherent backend cache storage mem (handle call r h).1
  handle_refines reads r h p keyed idle fit =
      subst (Kept backend cache storage mem reads (Whole backend cache r h) r h)
        (sym (get_plain backend cache now unescape r h p))
        (get_whole_object-Kept backend cache storage mem (Whole backend cache r h) r h (λ w. w)
          p.bucket_plain keyed fit)
  handle_refines writes r h p keyed idle fit =
      subst (Kept backend cache storage mem writes (Whole backend cache r h) r h)
        (sym (put_plain backend cache now unescape r h p))
        (write-Kept (Whole backend cache r h) r h p.no_source idle fit)
  handle_refines removes r h p keyed idle fit =
      remove-Kept (Whole backend cache r h) r h p.key_given idle fit
