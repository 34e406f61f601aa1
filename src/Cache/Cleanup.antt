-- ===== src/Cache/Cleanup.antt =====
-- The background cleanup of LRUCache removes exactly the expired entries.
use azs3_proxy.Prelude.{ℕ, ◌≡◌, refl, none, some, List, [], ◌∷◌, arith, ltb, if◌then◌else◌}
use azs3_proxy.Cache.CacheStats.{record_expiration}
use azs3_proxy.Cache.Elements.{elem_at, remove_elem, Distinct, elem_at-remove_elem}
use azs3_proxy.Cache.Lru.{
  CacheEntry, LruCache, count_in, remove_entry, expired, remove_all, cleanup,
}
use azs3_proxy.Cache.Valid.{IsValid, restat-IsValid, remove_entry-IsValid}

abbrev pub Elements : Type 0
Elements = List (ℕ × CacheEntry)

-- the elements that have not expired, in order
abbrev pub unexpired : ℕ → Elements → Elements
unexpired now [] = []
unexpired now ((p, e) ∷ l) =
    let rest = unexpired now l in if ltb e.expires_at now then rest else (p, e) ∷ rest

abbrev Within : Elements → Elements → Type 0
Within l m = (q : ℕ) (f : CacheEntry) → elem_at q l ≡ some f → elem_at q m ≡ some f

expired-Within : (now : ℕ) (l : Elements) → Distinct l → Within (expired now l) l
unfolding expired elem_at
expired-Within now [] d q f h = h
expired-Within now ((p, e) ∷ l) d q f h = ground (arith, expired-Within now l d.1 q f)

elem_at-expired : (now p : ℕ) (l : Elements) → elem_at p l ≡ none → elem_at p (expired now l) ≡ none
unfolding expired elem_at
elem_at-expired now p [] h = refl
elem_at-expired now p ((q, e) ∷ l) h = ground (arith, elem_at-expired now p l)

expired-Distinct : (now : ℕ) (l : Elements) → Distinct l → Distinct (expired now l)
unfolding expired elem_at
expired-Distinct now [] d = tt
expired-Distinct now ((p, e) ∷ l) d =
    ground (arith, expired-Distinct now l d.1, elem_at-expired now p l d.0)

Within-remove_elem :
    (p : ℕ) (e : CacheEntry) (l m : Elements)
    → Distinct ((p, e) ∷ l)
    → Distinct m
    → Within ((p, e) ∷ l) m
    → Within l (remove_elem p m)
unfolding elem_at
Within-remove_elem p e l m d dm w q f h = ground (arith, elem_at-remove_elem p q m dm, w q f)

remove_all-IsValid :
    (l : Elements) (c : LruCache)
    → Distinct l
    → Within l c.lru_list
    → IsValid c
    → IsValid (remove_all l c)
unfolding remove_all
remove_all-IsValid [] c d w v = v
remove_all-IsValid ((p, e) ∷ l) c d w v =
    let at : elem_at p c.lru_list ≡ some e = w p e (unfold elem_at in ground arith) in
    let c' = count_in (record_expiration e.file_size) c in
    remove_all-IsValid l (remove_entry p e c') d.1
      (unfold remove_entry in Within-remove_elem p e l c.lru_list d v.indexed.distinct w)
      (remove_entry-IsValid p e c' at (restat-IsValid _ v))

pub cleanup-IsValid : (now : ℕ) (c : LruCache) → IsValid c → IsValid (cleanup now c)
unfolding cleanup
cleanup-IsValid now c v =
    remove_all-IsValid (expired now c.lru_list) c
      (expired-Distinct now c.lru_list v.indexed.distinct)
      (expired-Within now c.lru_list v.indexed.distinct) v

-- the list after the removals, with the rest of the state left out
removals : Elements → Elements → Elements
removals [] m = m
removals ((p, e) ∷ l) m = removals l (remove_elem p m)

lru_list-remove_all :
    (l : Elements) (c : LruCache) → (remove_all l c).lru_list ≡ removals l c.lru_list
unfolding remove_all removals remove_entry
lru_list-remove_all [] c = refl
lru_list-remove_all ((p, e) ∷ l) c =
    lru_list-remove_all l (remove_entry p e (count_in (record_expiration e.file_size) c))

removals-cons :
    (p : ℕ) (e : CacheEntry) (l m : Elements)
    → elem_at p l ≡ none
    → removals l ((p, e) ∷ m) ≡ (p, e) ∷ removals l m
unfolding removals elem_at remove_elem
removals-cons p e [] m h = refl
removals-cons p e ((q, f) ∷ l) m h = ground (arith, removals-cons p e l (remove_elem q m))

removals-expired :
    (now : ℕ) (m : Elements) → Distinct m → removals (expired now m) m ≡ unexpired now m
unfolding removals expired remove_elem
removals-expired now [] d = refl
removals-expired now ((p, e) ∷ m) d = ground (
  arith,
  removals-expired now m d.1,
  removals-cons p e (expired now m) m (elem_at-expired now p m d.0),
)

-- On a valid cache, the list after a tick is what had not expired, in its order.
pub cleanup-unexpired :
    (now : ℕ) (c : LruCache) → IsValid c → (cleanup now c).lru_list ≡ unexpired now c.lru_list
unfolding cleanup
cleanup-unexpired now c v =
    rw lru_list-remove_all (removals-expired now c.lru_list v.indexed.distinct)
