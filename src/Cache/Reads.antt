-- ===== src/Cache/Reads.antt =====
-- What a Get returns after a Put, and the recency order that both keep.
use azs3_proxy.Prelude.{
  ℕ, ◌≤◌, ◌≡◌, sym, ap, ◌∙◌, Text, none, some, List, length, lookup, inl, inr, Option-cases, arith,
}
use azs3_proxy.Cache.CacheStats.{record_get, record_hit}
use azs3_proxy.Cache.Elements.{elem_at, remove_elem, push_back}
use azs3_proxy.Cache.Lru.{
  CacheEntry, LruCache, count_in, remove_entry, touch, get_elem, get, push_entry, new_entry, put,
}
use azs3_proxy.Cache.Valid.{IsValid, remove_key-cases}
use azs3_proxy.Cache.Order.{without, shrink, lru_list-remove_key, remove_elem-without, evict-shrink}
use azs3_proxy.Cache.Puts.{filled, PutCase, put-cases, filled-IsFilling, remove_key-SameConfig}

-- On a valid cache, a Put that succeeds leaves the old list without the key, the new entry behind
-- it, less as many elements at the front as it takes for the rest to fit; no more.
pub put-shrink :
    (t0 t1 t2 : ℕ) (k src : Text) (bytes : List ℕ) (c : LruCache)
    → IsValid c
    → c.disk.files src ≡ some bytes
    → (put t0 t1 t2 k src c).1 ≡ none
    → (put t0 t1 t2 k src c).0.lru_list
      ≡ shrink c.max_bytes
          (push_back c.next (new_entry t0 t1 t2 k (length bytes) c) (without k c.lru_list))
put-shrink t0 t1 t2 k src bytes c v there ok = elim (put-cases t0 t1 t2 k src c) [
  | PutCase.no_file gone result ↦ absurd (ground arith)
  | PutCase.no_room _ _ _ result ↦ absurd (ground arith)
  | PutCase.no_copy _ _ _ _ result ↦ absurd (ground arith)
  | PutCase.stored bytes' d there' fits good result ↦
      let same : bytes' ≡ bytes = cc in
      let config = remove_key-SameConfig k c v in
      let c2 = filled t0 t1 t2 k src c (length bytes') d in
      rw result (
        evict-shrink (length c2.lru_list) c2
          (filled-IsFilling t0 t1 t2 k src c v bytes' d there' fits good) (omega arith)
        ∙ (unfold push_entry in
            rw (config.max_bytes, config.next, lru_list-remove_key k c v, same)))
]

get_at :
    (now used p : ℕ) (e : CacheEntry) (k : Text) (c : LruCache)
    → lookup k c.entries ≡ some p
    → elem_at p c.lru_list ≡ some e
    → get now used k c ≡ get_elem now used p (some e) (count_in record_get c)
unfolding get
get_at now used p e k c found at = rw (found, get) (rw at)

get_elem_hit :
    (now used p : ℕ) (e : CacheEntry) (path : Text) (c : LruCache)
    → (get_elem now used p (some e) c).1 ≡ some path
    → (e.file_path ≡ path)
      × (now ≤ e.expires_at)
      × ((get_elem now used p (some e) c).0 ≡ count_in record_hit (touch used p e c))
unfolding get_elem
get_elem_hit now used p e path c h = ground arith

get_elem_miss :
    (now used p : ℕ) (e : CacheEntry) (c : LruCache)
    → (get_elem now used p (some e) c).1 ≡ none
    → (get_elem now used p (some e) c).0.lru_list ≡ remove_elem p c.lru_list
unfolding get_elem remove_entry
get_elem_miss now used p e c h = ground arith

-- On a valid cache, a Get that hits found an entry of the key that has not expired, moves its
-- element to the back and leaves the rest of the list in its order.
pub get-without :
    (now used : ℕ) (k path : Text) (c : LruCache)
    → IsValid c
    → (get now used k c).1 ≡ some path
    → (p : ℕ) × (e : CacheEntry) × (elem_at p c.lru_list ≡ some e)
      × (e.key ≡ k)
      × (e.file_path ≡ path)
      × (now ≤ e.expires_at)
      × ((get now used k c).0.lru_list
          ≡ push_back p (record e { last_used_at = used }) (without k c.lru_list))
get-without now used k path c v hit = elim (Option-cases (lookup k c.entries)) [
  | inl miss ↦ absurd (unfold get in ground arith)
  | inr (p, found) ↦
      let (e, at, named) = v.indexed.index k p found in
      let step = get_at now used p e k c found at in
      let (path_eq, live, after) =
        get_elem_hit now used p e path (count_in record_get c) (rw (← step) hit) in
      (
        p,
        e,
        at,
        named,
        path_eq,
        live,
        rw (step, after) (unfold touch in rw (remove_elem-without k c v p e found at named)),
      )
]

-- On a valid cache, a Get that misses leaves the list without the element of the key, if there was
-- one, and otherwise as it was.
pub get_miss_without :
    (now used : ℕ) (k : Text) (c : LruCache)
    → IsValid c
    → (get now used k c).1 ≡ none
    → (get now used k c).0.lru_list ≡ without k c.lru_list
unfolding get
get_miss_without now used k c v miss = elim (Option-cases (lookup k c.entries)) [
  | inl absent ↦
      rw (absent, get)
        (elim (remove_key-cases k c v) [
          | inl (_, same) ↦ sym (ap (λ (d : LruCache). d.lru_list) same) ∙ lru_list-remove_key k c v
          | inr (p, e, found, _, _, _) ↦ absurd (ground arith)
        ])
  | inr (p, found) ↦
      let (e, at, named) = v.indexed.index k p found in
      let step = get_at now used p e k c found at in
      rw (step, get_elem_miss now used p e (count_in record_get c) (rw (← step) miss))
        (remove_elem-without k c v p e found at named)
]
