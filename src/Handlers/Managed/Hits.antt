-- ===== src/Handlers/Managed/Hits.antt =====
-- What a hit in the cache manager gives, after any calls.
use azs3_proxy.Prelude.{ℕ, ◌<◌, ◌≡◌, ◌≢◌, Text, Bool, true, Option, some, List, length, int64_half}
use azs3_proxy.Cache.Names.{escape_name, cache_path}
use azs3_proxy.Range.Blocks.{generate_cache_key}
use azs3_proxy.Handlers.Types.{StorageBackend, ObjectCache, S3Request, S3Handler}
use azs3_proxy.Handlers.Objects.{object_key}
use azs3_proxy.Handlers.Plain.{IsPlain}
use azs3_proxy.Handlers.Coherence.{IsCache, IsStorage, IsCurrent, Coherent}
use azs3_proxy.Handlers.Coherence.Specified.{Call, Specified, Whole}
use azs3_proxy.Handlers.Coherence.Refined.{handle, Idle, handle_refines}
use azs3_proxy.Handlers.Coherence.Life.{Reachable, Reachable-Coherent}
use azs3_proxy.Handlers.Managed.{Managed, managed_get, managed_cache}
use azs3_proxy.Handlers.Managed.Laws.{managed_laws, managed_get-found}

module _ (clock : ℕ → ℕ) (temp : ℕ → List ℕ → Option Text) (dir : Text) (key : Text → Bool)
    (injective : (j k : Text) → key j ≡ true → key k ≡ true → escape_name j ≡ escape_name k → j ≡ k)
    (apart : (n : ℕ) (content : List ℕ) (tmp j : Text)
      → temp n content ≡ some tmp
      → key j ≡ true
      → tmp ≢ cache_path dir j)
    (small : (n : ℕ) (content : List ℕ) (tmp : Text)
      → temp n content ≡ some tmp
      → length content < int64_half)
    (backend : StorageBackend) (storage : IsStorage backend) (now : Text)
    (unescape : Text → Option Text) where
  abbrev pub cache : ObjectCache
  cache = managed_cache clock temp

  abbrev pub mem : IsCache cache
  mem = managed_laws clock temp dir key injective apart small

  -- With a storage that keeps what IsStorage says, and over the cache manager of LRUCache, with
  -- temporary files below 2 ^ 63 bytes that are none of a key, and keys of which no two have one
  -- escaped name: if the cache is valid, has no locked file and has only current bytes, a request is
  -- for one object by its name, without a range, a copy source or AWS chunks, its bucket has no slash,
  -- its cache key is among those keys, and a write finds no goroutine of an earlier GET of its object,
  -- then GetObject, PutObject and DeleteObject do and answer what the map of objects says, whatever the
  -- cache has dropped, and the cache is again as before. A read answers an error, or the first bytes of
  -- the object, and all of them if the storage does not break off the body.
  pub handle-managed :
      (call : Call) (r : S3Request) (h : S3Handler backend cache)
      → IsPlain r
      → key (generate_cache_key r.bucket (object_key r)) ≡ true
      → Idle backend cache storage mem now unescape call r h
      → Coherent backend cache storage mem h
      → let done = handle backend cache storage mem now unescape call r h in
        Specified call
          (Whole backend cache r h)
          r
          done.0
          (storage.objects h.storage)
          (storage.objects done.1.storage)
        × Coherent backend cache storage mem done.1
  handle-managed call r h p keyed idle fit =
      handle_refines backend cache storage mem now unescape call r h p keyed idle fit

  -- With a storage that keeps what IsStorage says, temporary files below 2 ^ 63 bytes that are none of
  -- a key, and keys of which no two have one escaped name: from an empty valid cache on a disk without
  -- locked files, in every state that plain calls of single objects with such keys, goroutines that
  -- fill the cache, and entries that the cache drops lead to, when a write finds no goroutine of an
  -- earlier GET of its object, a hit of the cache manager over LRUCache gives the bytes that the
  -- storage has of the object with that key.
  pub managed_get-IsCurrent :
      {h : S3Handler backend (managed_cache clock temp)} (x : Managed clock temp) (k : Text)
      (content : List ℕ)
      → Reachable backend
          (managed_cache clock temp)
          storage
          (managed_laws clock temp dir key injective apart small)
          now
          unescape
          h
      → h.cache_state ≡ some x
      → key k ≡ true
      → (managed_get clock temp k x).0 ≡ some content
      → IsCurrent (storage.objects h.storage) k content
  managed_get-IsCurrent x k content reached on keyed hit =
      let fit =
        Reachable-Coherent backend (managed_cache clock temp) storage
          (managed_laws clock temp dir key injective apart small) now unescape reached in
      fit.cached_current x k content on
        (managed_get-found clock temp dir key k x content (fit.cache_fit x on) keyed hit)
