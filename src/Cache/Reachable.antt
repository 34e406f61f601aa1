-- ===== src/Cache/Reachable.antt =====
-- The life of LRUCache: any sequence of operations, with any changes of the disk by others between.
use mathlib.Core.Path.{subst}
use azs3_proxy.Prelude.{ℕ, ◌<◌, ◌≡◌, refl, Text, Bool, arith, lookup}
use azs3_proxy.Cache.Disk.{Disk, FitsInt64}
use azs3_proxy.Cache.Elements.{elem_at}
use azs3_proxy.Cache.Lru.{
  LruCache, made, empty_cache, new_lru_cache, get, put, delete_key, clear, cleanup,
}
use azs3_proxy.Cache.Valid.{IsValid, get-IsValid}
use azs3_proxy.Cache.Puts.{put-IsValid}
use azs3_proxy.Cache.Removal.{delete_key-IsValid, clear-IsValid, redisk-IsValid}
use azs3_proxy.Cache.Cleanup.{cleanup-IsValid}

pub data Step : LruCache → LruCache → Type 0 where
  gets : (now used : ℕ) (k : Text) (c : LruCache) → Step c (get now used k c).0
  puts : (t0 t1 t2 : ℕ) (k src : Text) (c : LruCache) → Step c (put t0 t1 t2 k src c).0
  deletes : (k : Text) (c : LruCache) → Step c (delete_key k c).0
  clears : (c : LruCache) → Step c (clear c).0
  ticks : (now : ℕ) (c : LruCache) → Step c (cleanup now c)
  elsewhere : (d : Disk) (c : LruCache) → FitsInt64 d → Step c (record c { disk = d })

-- The states that NewLRUCache and any steps lead to.
pub data Reachable (max_bytes : ℕ) : LruCache → Type 0 where
  start :
      (dir : Text) (ttl : ℕ) (a b c : Bool) (d : Disk) {s : LruCache}
      → FitsInt64 d
      → new_lru_cache dir max_bytes ttl a b c d ≡ made s
      → Reachable max_bytes s
  next : {s t : LruCache} → Reachable max_bytes s → Step s t → Reachable max_bytes t

Step-IsValid : {s t : LruCache} → Step s t → IsValid s → IsValid t
Step-IsValid (gets now used k c) v = get-IsValid now used k c v
Step-IsValid (puts t0 t1 t2 k src c) v = put-IsValid t0 t1 t2 k src c v
Step-IsValid (deletes k c) v = delete_key-IsValid k c v
Step-IsValid (clears c) v = clear-IsValid c v
Step-IsValid (ticks now c) v = cleanup-IsValid now c v
Step-IsValid (elsewhere d c fits) v = redisk-IsValid d fits v

pub empty_cache-IsValid :
    (dir : Text) (max_bytes ttl : ℕ) (d : Disk)
    → max_bytes < 4611686018427387904
    → FitsInt64 d
    → IsValid (empty_cache dir max_bytes ttl d)
unfolding lookup elem_at
empty_cache-IsValid dir max_bytes ttl d room fits = record {
  indexed = record {
    index = λ k p h. cc;
    listed = λ p e h. cc;
    fresh = λ p e h. cc;
    paths = λ p e h. cc;
    distinct = tt;
    bytes = refl;
    small = omega arith;
  };
  bounded = omega arith;
  room = room;
  files = fits;
}

pub new_lru_cache-made :
    (dir : Text) (max_bytes ttl : ℕ) (a b c : Bool) (d : Disk) {s : LruCache}
    → new_lru_cache dir max_bytes ttl a b c d ≡ made s
    → empty_cache dir max_bytes ttl d ≡ s
unfolding new_lru_cache
new_lru_cache-made dir max_bytes ttl a b c d h = ground arith

-- Whatever the operations, their clock readings and their order, and whatever happens to the files
-- between them, as long as their sizes are int64, a cache whose limit is below 2 ^ 62 bytes is
-- valid: its map and its list agree, the file of each entry is the one named after its key, and
-- its byte counter is the sum of the sizes, at most the limit, and has not wrapped.
pub Reachable-IsValid :
    (max_bytes : ℕ) (c : LruCache)
    → max_bytes < 4611686018427387904
    → Reachable max_bytes c
    → IsValid c
Reachable-IsValid max_bytes c room (start dir ttl a b e d fits h) =
    subst IsValid (new_lru_cache-made dir max_bytes ttl a b e d h)
      (empty_cache-IsValid dir max_bytes ttl d room fits)
Reachable-IsValid max_bytes c room (next {s} r st) =
    Step-IsValid st (Reachable-IsValid max_bytes s room r)
