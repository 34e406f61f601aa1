-- ===== src/Cache/Puts.antt =====
-- Put of LRUCache: its four outcomes, and that each keeps the invariant.
use azs3_proxy.Prelude.{
  ℕ, ◌≤◌, ◌≡◌, refl, sym, ap, Text, true, false, none, some, List, length, inl, inr, Option-cases,
  Bool-cases, arith, lt64, lt64_of_small, eq_text_iff,
}
use azs3_proxy.Cache.Disk.{Disk, copy_file, copy_file-FitsInt64}
use azs3_proxy.Cache.Names.{cache_path}
use azs3_proxy.Cache.Lru.{
  LruCache, remove_entry, remove_key, push_entry, evict, stat_failed, too_large, copy_failed,
  new_entry, put,
}
use azs3_proxy.Cache.Invariant.{push-IsIndexed}
use azs3_proxy.Cache.Valid.{
  IsValid, IsFilling, remove_key-cases, remove_key-IsValid, lookup-remove_key, evict-IsValid,
}

-- `remove_key` changes neither the limit nor the directory, the TTL or the next address.
pub record SameConfig (c d : LruCache) : Type 0 where
  pub max_bytes : d.max_bytes ≡ c.max_bytes
  pub cache_dir : d.cache_dir ≡ c.cache_dir
  pub ttl : d.ttl ≡ c.ttl
  pub next : d.next ≡ c.next

pub remove_key-SameConfig : (k : Text) (c : LruCache) → IsValid c → SameConfig c (remove_key k c)
remove_key-SameConfig k c v = elim (remove_key-cases k c v) [
  | inl (_, same) ↦ rw same (record { max_bytes = refl; cache_dir = refl; ttl = refl; next = refl })
  | inr (p, e, _, _, _, step) ↦ rw step (
      unfold remove_entry in record { max_bytes = refl; cache_dir = refl; ttl = refl; next = refl })
]

module _ (t0 t1 t2 : ℕ) (key src : Text) (c : LruCache) where
  -- the cache of Put before the eviction loop, for a file of the given size copied to disk `d`
  abbrev pub filled : ℕ → Disk → LruCache
  filled size d =
      push_entry (new_entry t0 t1 t2 key size c) (record (remove_key key c) { disk = d })

  pub data PutCase : Type 0 where
    no_file : c.disk.files src ≡ none → put t0 t1 t2 key src c ≡ (c, some stat_failed) → PutCase
    no_room :
        (bytes : List ℕ)
        → c.disk.files src ≡ some bytes
        → lt64 c.max_bytes (length bytes) ≡ true
        → put t0 t1 t2 key src c ≡ (c, some too_large)
        → PutCase
    no_copy :
        (bytes : List ℕ)
        → c.disk.files src ≡ some bytes
        → lt64 c.max_bytes (length bytes) ≡ false
        → copy_file (remove_key key c).disk src (cache_path c.cache_dir key) ≡ none
        → put t0 t1 t2 key src c ≡ (remove_key key c, some copy_failed)
        → PutCase
    stored :
        (bytes : List ℕ) (d : Disk)
        → c.disk.files src ≡ some bytes
        → lt64 c.max_bytes (length bytes) ≡ false
        → copy_file (remove_key key c).disk src (cache_path c.cache_dir key) ≡ some d
        → put t0 t1 t2 key src c
          ≡ (evict (length (filled (length bytes) d).lru_list) (filled (length bytes) d), none)
        → PutCase

  pub put-cases : PutCase
  unfolding put
  put-cases = elim (Option-cases (c.disk.files src)) [
    | inl gone ↦ PutCase.no_file gone (rw (gone, put))
    | inr (bytes, there) ↦ elim (Bool-cases (lt64 c.max_bytes (length bytes))) [
      | inl big ↦ PutCase.no_room bytes there big (rw (there, put) (rw big))
      | inr fits ↦
          elim (Option-cases (copy_file (remove_key key c).disk src (cache_path c.cache_dir key))) [
            | inl bad ↦ PutCase.no_copy bytes there fits bad (rw (there, put) (rw fits (rw bad)))
            | inr (d, good) ↦
                PutCase.stored bytes d there fits good (rw (there, put) (rw fits (rw good)))
          ]
    ]
  ]

  module _ (v : IsValid c) (bytes : List ℕ) (d : Disk) (there : c.disk.files src ≡ some bytes)
      (fits : lt64 c.max_bytes (length bytes) ≡ false)
      (good : copy_file (remove_key key c).disk src (cache_path c.cache_dir key) ≡ some d) where
    pub length-le-max_bytes : length bytes ≤ c.max_bytes
    length-le-max_bytes =
        ground (arith, lt64_of_small c.max_bytes (length bytes), v.files src bytes there, v.room)

    pub filled-IsFilling : IsFilling (filled (length bytes) d)
    unfolding push_entry
    filled-IsFilling =
        let v1 = remove_key-IsValid key c v in
        record {
          indexed =
              push-IsIndexed v1.indexed (new_entry t0 t1 t2 key (length bytes) c)
                (ap (λ dir. cache_path dir key) (sym (remove_key-SameConfig key c v).cache_dir))
                (ground (arith, lookup-remove_key key key c v, eq_text_iff key key))
                (omega (
                  arith,
                  v1.bounded,
                  (remove_key-SameConfig key c v).max_bytes,
                  length-le-max_bytes,
                  v.room,
                ));
          room = omega (arith, (remove_key-SameConfig key c v).max_bytes, v.room);
          files =
              copy_file-FitsInt64 (remove_key key c).disk src (cache_path c.cache_dir key) good
                v1.files;
        }

  pub put-IsValid : IsValid c → IsValid (put t0 t1 t2 key src c).0
  put-IsValid v = elim put-cases [
    | PutCase.no_file _ result ↦ rw result v
    | PutCase.no_room _ _ _ result ↦ rw result v
    | PutCase.no_copy _ _ _ _ result ↦ rw result (remove_key-IsValid key c v)
    | PutCase.stored bytes d there fits good result ↦ rw result (
        evict-IsValid _ (filled (length bytes) d) (filled-IsFilling v bytes d there fits good)
          (omega arith))
  ]
