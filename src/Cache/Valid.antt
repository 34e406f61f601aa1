-- ===== src/Cache/Valid.antt =====
-- Every operation of LRUCache keeps the invariant, whatever else happens on the disk.
use azs3_proxy.Prelude.{
  ℕ, zero, suc, ◌≤◌, ◌<◌, ◌≡◌, refl, Text, Option, none, some, List, [], ◌∷◌, length, lookup,
  lookup-delete, Option-cases, Bool-cases, List-cases, ap, inl, inr, ◌⊎◌, arith, lt64,
  lt64_of_small, ltb, eq_text, eq_text_iff, if◌then◌else◌,
}
use azs3_proxy.Cache.Disk.{FitsInt64, remove-FitsInt64}
use azs3_proxy.Cache.Elements.{elem_at, remove_elem}
use azs3_proxy.Cache.CacheStats.{CacheStats, record_get, record_expiration, record_eviction}
use azs3_proxy.Cache.Lru.{
  CacheEntry, LruCache, count_in, remove_entry, touch, get_elem, get, remove_key, evict,
}
use azs3_proxy.Cache.Invariant.{
  total, IsIndexed, remove-IsIndexed, touch-IsIndexed, total-remove_elem,
}

-- The invariant between two operations: the index, the limit in bytes, and no int64 wraps.
pub record IsValid (c : LruCache) : Type 0 where
  pub indexed : IsIndexed c.cache_dir c.entries c.lru_list c.next c.current_bytes
  pub bounded : c.current_bytes ≤ c.max_bytes
  pub room : c.max_bytes < 4611686018427387904
  pub files : FitsInt64 c.disk

-- What the eviction loop keeps: the limit may be passed.
pub record IsFilling (c : LruCache) : Type 0 where
  pub indexed : IsIndexed c.cache_dir c.entries c.lru_list c.next c.current_bytes
  pub room : c.max_bytes < 4611686018427387904
  pub files : FitsInt64 c.disk

module _ (p : ℕ) (e : CacheEntry) (c : LruCache) (at : elem_at p c.lru_list ≡ some e) where
  pub remove_entry-IsFilling : IsFilling c → IsFilling (remove_entry p e c)
  unfolding remove_entry
  remove_entry-IsFilling v = record {
    indexed = remove-IsIndexed v.indexed p e at;
    room = v.room;
    files = remove-FitsInt64 c.disk e.file_path v.files;
  }

  pub remove_entry-IsValid : IsValid c → IsValid (remove_entry p e c)
  unfolding remove_entry
  remove_entry-IsValid v = record {
    indexed = remove-IsIndexed v.indexed p e at;
    bounded =
        omega
          (arith, total-remove_elem p e c.lru_list at, v.indexed.bytes, v.bounded, v.indexed.small);
    room = v.room;
    files = remove-FitsInt64 c.disk e.file_path v.files;
  }

-- The counters are no part of the invariant.
pub restat-IsValid : {c : LruCache} (s : CacheStats) → IsValid c → IsValid (record c { stats = s })
restat-IsValid s v = record {
  indexed = v.indexed;
  bounded = v.bounded;
  room = v.room;
  files = v.files;
}

touch-IsValid :
    (used p : ℕ) (e : CacheEntry) (c : LruCache)
    → elem_at p c.lru_list ≡ some e
    → IsValid c
    → IsValid (touch used p e c)
unfolding touch
touch-IsValid used p e c at v = record {
  indexed = touch-IsIndexed v.indexed p e (record e { last_used_at = used }) at refl refl refl;
  bounded = v.bounded;
  room = v.room;
  files = v.files;
}

get_elem-IsValid :
    (now used p : ℕ) (o : Option CacheEntry) (c : LruCache)
    → elem_at p c.lru_list ≡ o
    → IsValid c
    → IsValid (get_elem now used p o c).0
unfolding get_elem
get_elem-IsValid now used p none c at v = restat-IsValid _ v
get_elem-IsValid now used p (some e) c at v = elim (Bool-cases (ltb e.expires_at now)) [
  | inl late ↦ rw late (
      restat-IsValid _ (
        remove_entry-IsValid p e (count_in (record_expiration e.file_size) c) at
          (restat-IsValid _ v)))
  | inr fresh ↦ rw fresh (elim (Option-cases (c.disk.files e.file_path)) [
    | inl gone ↦ rw gone (restat-IsValid _ (remove_entry-IsValid p e c at v))
    | inr (bytes, kept) ↦ rw kept (restat-IsValid _ (touch-IsValid used p e c at v))
  ])
]

pub get-IsValid :
    (now used : ℕ) (k : Text) (c : LruCache) → IsValid c → IsValid (get now used k c).0
unfolding get
get-IsValid now used k c v = elim (Option-cases (lookup k c.entries)) [
  | inl miss ↦ rw (miss, get) (restat-IsValid _ v)
  | inr (p, hit) ↦
      rw (hit, get)
        (get_elem-IsValid now used p (elem_at p c.lru_list) (count_in record_get c) refl
          (restat-IsValid _ v))
]

-- What `remove_key` does on a valid cache: nothing, or removeEntry of the key's element.
pub remove_key-cases :
    (k : Text) (c : LruCache)
    → IsValid c
    → ((lookup k c.entries ≡ none) × (remove_key k c ≡ c))
      ⊎ ((p : ℕ) × (e : CacheEntry) × (lookup k c.entries ≡ some p)
          × (elem_at p c.lru_list ≡ some e)
          × (e.key ≡ k)
          × (remove_key k c ≡ remove_entry p e c))
unfolding remove_key
remove_key-cases k c v = elim (Option-cases (lookup k c.entries)) [
  | inl miss ↦ inl (miss, rw (miss, remove_key))
  | inr (p, hit) ↦
      let (e, at, named) = v.indexed.index k p hit in
      inr (p, e, hit, at, named, rw (hit, remove_key) (rw at))
]

pub remove_key-IsValid : (k : Text) (c : LruCache) → IsValid c → IsValid (remove_key k c)
remove_key-IsValid k c v = elim (remove_key-cases k c v) [
  | inl (_, same) ↦ rw same v
  | inr (p, e, _, at, _, step) ↦ rw step (remove_entry-IsValid p e c at v)
]

-- After `remove_key` the key is not in the map, and every other key is as it was.
pub lookup-remove_key :
    (k j : Text) (c : LruCache)
    → IsValid c
    → lookup j (remove_key k c).entries ≡ (if eq_text k j then none else lookup j c.entries)
lookup-remove_key k j c v = elim (remove_key-cases k c v) [
  | inl (miss, same) ↦ rw same (ground (arith, eq_text_iff k j))
  | inr (p, e, _, at, named, step) ↦
      rw step (unfold remove_entry in rw (← named) (lookup-delete e.key j c.entries))
]

pub evict_nil : (fuel : ℕ) (c : LruCache) → c.lru_list ≡ [] → evict fuel c ≡ c
unfolding evict
evict_nil zero c h = refl
evict_nil (suc fuel) c h = ground arith

pub evict_cons :
    (fuel p : ℕ) (e : CacheEntry) (rest : List (ℕ × CacheEntry)) (c : LruCache)
    → c.lru_list ≡ (p, e) ∷ rest
    → evict (suc fuel) c ≡ (
        if lt64 c.max_bytes c.current_bytes
        then evict fuel (remove_entry p e (count_in (record_eviction e.file_size) c))
        else c)
unfolding evict
evict_cons fuel p e rest c h = ground arith

pub elem_at-front :
    (p : ℕ) (e : CacheEntry) (l rest : List (ℕ × CacheEntry))
    → l ≡ (p, e) ∷ rest
    → (elem_at p l ≡ some e) × (remove_elem p l ≡ rest)
unfolding elem_at remove_elem
elem_at-front p e l rest h = ground arith

IsValid-nil : (c : LruCache) → IsFilling c → c.lru_list ≡ [] → IsValid c
IsValid-nil c v h = record {
  indexed = v.indexed;
  bounded = omega (arith, v.indexed.bytes, ap total h);
  room = v.room;
  files = v.files;
}

-- The eviction loop ends below the limit: the length of the list is fuel enough.
pub evict-IsValid :
    (fuel : ℕ) (c : LruCache) → IsFilling c → length c.lru_list ≤ fuel → IsValid (evict fuel c)
evict-IsValid zero c v enough = elim (List-cases c.lru_list) [
  | inl nil ↦ rw (evict_nil zero c nil) (IsValid-nil c v nil)
  | inr (x, rest, h) ↦ absurd (omega (arith, ap length h))
]
evict-IsValid (suc fuel) c v enough = elim (List-cases c.lru_list) [
  | inl nil ↦ rw (evict_nil (suc fuel) c nil) (IsValid-nil c v nil)
  | inr ((p, e), rest, h) ↦
      let (at, left) = elem_at-front p e c.lru_list rest h in
      let c' = count_in (record_eviction e.file_size) c in
      rw (evict_cons fuel p e rest c h) (elim (Bool-cases (lt64 c.max_bytes c.current_bytes)) [
        | inl over ↦ rw over (
            evict-IsValid fuel (remove_entry p e c')
              (remove_entry-IsFilling p e c' at
                (record { indexed = v.indexed; room = v.room; files = v.files }))
              (unfold remove_entry in omega (arith, ap length h, ap length left)))
        | inr under ↦ rw under (record {
          indexed = v.indexed;
          bounded =
              ground (arith, lt64_of_small c.max_bytes c.current_bytes, v.indexed.small, v.room);
          room = v.room;
          files = v.files;
        })
      ])
]
