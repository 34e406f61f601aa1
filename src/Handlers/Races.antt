-- ===== src/Handlers/Races.antt =====
-- What GetObject answers from a cache that holds something else than the object.
use mathlib.Core.Path.{subst}
use azs3_proxy.Prelude.{
  ℕ, ◌<◌, ◌≤◌, ◌≡◌, refl, sym, ap, ◌∙◌, Text, Option, some, none, true, List, [], ◌∷◌, length,
  arith, leb, ltb, ◌&&◌, take_of_length-le,
}
use azs3_proxy.Range.Numbers.{positive}
use azs3_proxy.Range.Blocks.{generate_cache_key}
use azs3_proxy.Handlers.Types.{
  Result, ok, bytes, plain, Reply, ObjectInfo, S3Request, StorageBackend, ObjectCache, S3Handler,
}
use azs3_proxy.Handlers.Objects.{object_key, put_object_handler, put_done, invalidate}
use azs3_proxy.Handlers.Reads.{
  cached, run_pending, get_whole_object, buffered, fetch_object, send_object, cache_size_threshold,
}
use azs3_proxy.Handlers.Ranges.{get_object_handler}
use azs3_proxy.Handlers.Plain.{IsPlain, get_plain, put_plain}

-- status 200 and these bytes
abbrev pub IsHit : List ℕ → Reply → Type 0
IsHit content reply = (reply.status ≡ 200) × (reply.payload ≡ bytes content)

module _ (backend : StorageBackend) (cache : ObjectCache) where
  -- the cache has the bytes under the key
  abbrev pub Has : Text → List ℕ → cache.store.State → Type 0
  Has k content c = (cache.store.get k c).0 ≡ some content

  -- what is put in the cache in this state, it has
  abbrev pub IsKept : Text → List ℕ → cache.store.State → Type 0
  IsKept k content c = Has k content (cache.store.put k content c).1

  pub get_whole_object-IsHit :
      (r : S3Request) (content : List ℕ) (c : cache.store.State) (h : S3Handler backend cache)
      → h.cache_state ≡ some c
      → Has (generate_cache_key r.bucket (object_key r)) content c
      → IsHit content (get_whole_object backend cache r h).0
  unfolding get_whole_object cached
  get_whole_object-IsHit r content c h on has = rw (on, get_whole_object) (rw has (refl, refl))

  cached_on :
      (k : Text) (c : cache.store.State) (h : S3Handler backend cache)
      → h.cache_state ≡ some c
      → cached backend cache k h
        ≡ ((cache.store.get k c).0, record h { cache_state = some (cache.store.get k c).1 })
  unfolding cached
  cached_on k c h on = rw (on, cached) refl

  get_whole_object-missed :
      (r : S3Request) (c : cache.store.State) (h : S3Handler backend cache)
      → h.cache_state ≡ some c
      → (cache.store.get (generate_cache_key r.bucket (object_key r)) c).0 ≡ none
      → get_whole_object backend cache r h
        ≡ fetch_object backend cache r (record h {
          cache_state = some (cache.store.get (generate_cache_key r.bucket (object_key r)) c).1;
        })
  unfolding get_whole_object
  get_whole_object-missed r c h on missed =
      let looked = cached_on (generate_cache_key r.bucket (object_key r)) c h on in
      rw (ap (λ x. x.0) looked ∙ missed, get_whole_object)
        (ap (λ x. fetch_object backend cache r x.1) looked)

  -- a miss, and an object that is to be cached
  pub record IsMissed (r : S3Request) (info : ObjectInfo) (content : List ℕ) (c : cache.store.State)
      (h : S3Handler backend cache) : Type 0 where
    pub on : h.cache_state ≡ some c
    pub idle : h.pending ≡ []
    pub missed : (cache.store.get (generate_cache_key r.bucket (object_key r)) c).0 ≡ none
    pub sent : (backend.get_object r.bucket (object_key r) h.storage).0 ≡ ok info
    pub some_size : 0 < info.size
    pub size_le : info.size ≤ cache_size_threshold
    pub taken : buffered info ≡ some content

  get_whole_object-queued :
      (r : S3Request) (info : ObjectInfo) (content : List ℕ) (c : cache.store.State)
      (h : S3Handler backend cache)
      → IsMissed r info content c h
      → ((get_whole_object backend cache r h).1.cache_state
          ≡ some (cache.store.get (generate_cache_key r.bucket (object_key r)) c).1)
        × ((get_whole_object backend cache r h).1.pending
            ≡ (generate_cache_key r.bucket (object_key r), content) ∷ [])
  unfolding fetch_object send_object
  get_whole_object-queued r info content c h m =
      let small : (ltb 0 info.size && leb info.size cache_size_threshold) ≡ true =
        ground (arith, m.some_size, m.size_le) in
      rw (get_whole_object-missed r c h m.on m.missed)
        (rw (m.sent, fetch_object) (rw small (rw m.taken (rw m.idle (refl, refl)))))

  -- the goroutine, with one thing to cache
  run_pending-filled :
      (k : Text) (content : List ℕ) (c : cache.store.State) (h : S3Handler backend cache)
      → h.cache_state ≡ some c
      → h.pending ≡ (k, content) ∷ []
      → (run_pending backend cache h).cache_state ≡ some (cache.store.put k content c).1
  unfolding run_pending
  run_pending-filled k content c h on one = rw (one, run_pending) (rw on refl)

  put_done-on :
      (r : S3Request) (x : Result Text × backend.State) (etag : Text) (c : cache.store.State)
      (h : S3Handler backend cache)
      → x.0 ≡ ok etag
      → h.cache_state ≡ some c
      → ((put_done backend cache r x h).1.cache_state
          ≡ some (cache.invalidate (generate_cache_key r.bucket (object_key r)) c).1)
        × ((put_done backend cache r x h).1.pending ≡ h.pending)
  unfolding put_done invalidate
  put_done-on r x etag c h works on = rw (works, put_done) (rw on (refl, refl))

module _ (backend : StorageBackend) (cache : ObjectCache) (now : Text)
    (unescape : Text → Option Text) where
  refilled :
      (r : S3Request) (content : List ℕ) (c : cache.store.State) (h : S3Handler backend cache)
      → IsPlain r
      → h.cache_state ≡ some c
      → h.pending ≡ (generate_cache_key r.bucket (object_key r), content) ∷ []
      → IsKept backend cache (generate_cache_key r.bucket (object_key r)) content c
      → IsHit content (get_object_handler backend cache now r (run_pending backend cache h)).0
  refilled r content c h p on one kept =
      let k = generate_cache_key r.bucket (object_key r) in
      subst (λ x. IsHit content x.0)
        (sym (get_plain backend cache now unescape r (run_pending backend cache h) p))
        (get_whole_object-IsHit backend cache r content (cache.store.put k content c).1
          (run_pending backend cache h) (run_pending-filled backend cache k content c h on one)
          kept)

  asked-queued :
      (r : S3Request) (info : ObjectInfo) (content : List ℕ) (c : cache.store.State)
      (h : S3Handler backend cache)
      → IsPlain r
      → IsMissed backend cache r info content c h
      → ((get_object_handler backend cache now r h).1.cache_state
          ≡ some (cache.store.get (generate_cache_key r.bucket (object_key r)) c).1)
        × ((get_object_handler backend cache now r h).1.pending
            ≡ (generate_cache_key r.bucket (object_key r), content) ∷ [])
  asked-queued r info content c h p m =
      let k = generate_cache_key r.bucket (object_key r) in
      subst
        (λ x. (x.1.cache_state ≡ some (cache.store.get k c).1) × (x.1.pending ≡ (k, content) ∷ []))
        (sym (get_plain backend cache now unescape r h p))
        (get_whole_object-queued backend cache r info content c h m)

  -- If a GET of an object misses the cache and the object is to be cached, a PUT of the object
  -- succeeds before the goroutine of that GET has run, and the cache has what that goroutine puts
  -- there, then a GET after that goroutine is answered 200 with the bytes of before the PUT.
  pub get_object_handler-stale :
      (r : S3Request) (info : ObjectInfo) (content : List ℕ) (etag : Text) (c : cache.store.State)
      (h : S3Handler backend cache)
      → IsPlain r
      → IsMissed backend cache r info content c h
      → (let read = (get_object_handler backend cache now r h).1 in
          (backend.put_object r.bucket
            (object_key r)
            (positive (length r.body))
            (plain r.body)
            read.storage).0
          ≡ ok etag)
      → (let k = generate_cache_key r.bucket (object_key r) in
          IsKept backend cache k content (cache.invalidate k (cache.store.get k c).1).1)
      → (let read = (get_object_handler backend cache now r h).1 in
          let written = (put_object_handler backend cache unescape r read).1 in
          IsHit content
            (get_object_handler backend cache now r (run_pending backend cache written)).0)
  get_object_handler-stale r info content etag c h p m works kept =
      let k = generate_cache_key r.bucket (object_key r) in
      let read = (get_object_handler backend cache now r h).1 in
      let written = (put_object_handler backend cache unescape r read).1 in
      let (on, one) = asked-queued r info content c h p m in
      let (on1, one1) =
        subst
          (λ x.
            (x.1.cache_state ≡ some (cache.invalidate k (cache.store.get k c).1).1)
            × (x.1.pending ≡ read.pending))
          (sym (put_plain backend cache now unescape r read p))
          (put_done-on backend cache r _ etag (cache.store.get k c).1 read works on) in
      refilled r content (cache.invalidate k (cache.store.get k c).1).1 written p on1 (one1 ∙ one)
        kept

  -- If the body that the storage sends of an object ends early without an error, the GET misses the
  -- cache, the object is to be cached, and the cache has what the goroutine of that GET puts there,
  -- then a GET after the goroutine of that GET is answered 200 with that part of the object.
  pub get_object_handler-short :
      (r : S3Request) (info : ObjectInfo) (content : List ℕ) (c : cache.store.State)
      (h : S3Handler backend cache)
      → IsPlain r
      → IsMissed backend cache r info content c h
      → length info.body < info.size
      → (let k = generate_cache_key r.bucket (object_key r) in
          IsKept backend cache k content (cache.store.get k c).1)
      → (let read = (get_object_handler backend cache now r h).1 in
          IsHit info.body
            (get_object_handler backend cache now r (run_pending backend cache read)).0)
  unfolding buffered
  get_object_handler-short r info content c h p m short kept =
      let full : content ≡ info.body =
        ground (arith, m.taken, short, take_of_length-le info.size info.body) in
      let (on, one) = asked-queued r info content c h p m in
      subst
        (λ bs.
          IsHit bs
            (get_object_handler backend cache now r
              (run_pending backend cache (get_object_handler backend cache now r h).1)).0)
        full (refilled r content _ (get_object_handler backend cache now r h).1 p on one kept)
