-- ===== src/Handlers/Managed.antt =====
-- CacheManager of internal/cache/manager.go as the handlers call it.
pub mod Writes
pub mod Fit
pub mod Laws
pub mod Hits
use azs3_proxy.Prelude.{ℕ, ◌+◌, Text, Bool, true, false, Option, none, some, List}
use azs3_proxy.Cache.Lru.{LruCache}
use azs3_proxy.Cache.Manager.{CacheError, cache_object, read_cached_object, invalidate_object}
use azs3_proxy.Handlers.Types.{ObjectCache}

-- a nil error
abbrev pub is_nil : Option CacheError → Bool
is_nil none = true
is_nil (some e) = false

-- The cache and the number of readings of the clock so far. `clock` has the readings, and `temp` the
-- name that os.CreateTemp gives for the bytes, or its error.
module _ (clock : ℕ → ℕ) (temp : ℕ → List ℕ → Option Text) where
  abbrev pub Managed : Type 0
  Managed = LruCache × ℕ

  abbrev pub managed_get : Text → Managed → Option (List ℕ) × Managed
  managed_get key (c, n) =
      let (d, found) = read_cached_object (clock n) (clock (n + 1)) key c in (found, (d, n + 2))

  abbrev pub managed_put : Text → List ℕ → Managed → Bool × Managed
  managed_put key bytes (c, n) =
      let (d, error) =
        cache_object (clock n) (clock (n + 1)) (clock (n + 2)) (temp n bytes) key bytes c in
      (is_nil error, (d, n + 3))

  abbrev pub managed_invalidate : Text → Managed → Bool × Managed
  managed_invalidate key (c, n) = let (d, done) = invalidate_object key c in (done, (d, n))

  abbrev pub managed_cache : ObjectCache
  managed_cache = record {
    store = record { State = Managed; get = managed_get; put = managed_put };
    invalidate = managed_invalidate;
  }
