-- ===== src/Cache/Order.antt =====
-- The order of LRUCache's list: what Get moves and what Put evicts.
use azs3_proxy.Prelude.{
  ℕ, zero, suc, ◌≤◌, ◌≡◌, ◌≢◌, refl, sym, ap, ◌∙◌, Text, some, [], ◌∷◌, length, lookup, inl, inr,
  List-cases, Bool-cases, arith, lt64_of_small, ltb, eq_text, eq_text_iff, if◌then◌else◌, ◌==◌,
}
use azs3_proxy.Cache.CacheStats.{record_eviction}
use azs3_proxy.Cache.Elements.{elem_at, remove_elem, Distinct}
use azs3_proxy.Cache.Lru.{CacheEntry, LruCache, count_in, remove_entry, remove_key, evict}
use azs3_proxy.Cache.Invariant.{total}
use azs3_proxy.Cache.Valid.{
  IsValid, IsFilling, remove_entry-IsFilling, remove_key-cases, evict_nil, evict_cons,
  elem_at-front,
}
use azs3_proxy.Cache.Cleanup.{Elements}

-- the elements of other keys, in order
abbrev pub without : Text → Elements → Elements
without k [] = []
without k ((p, e) ∷ l) = let rest = without k l in if eq_text e.key k then rest else (p, e) ∷ rest

-- the longest end of the list whose files fit
abbrev pub shrink : ℕ → Elements → Elements
shrink max_bytes [] = []
shrink max_bytes ((p, e) ∷ l) =
    let rest = shrink max_bytes l in if ltb max_bytes (total ((p, e) ∷ l)) then rest else (p, e) ∷ l

-- no element of the list has the key
abbrev Lacks : Text → Elements → Type 0
Lacks k l = (q : ℕ) (f : CacheEntry) → elem_at q l ≡ some f → f.key ≢ k

without_of_Lacks : (k : Text) (l : Elements) → Distinct l → Lacks k l → without k l ≡ l
unfolding elem_at
without_of_Lacks k [] d h = refl
without_of_Lacks k ((p, e) ∷ l) d h =
    ground (
      arith,
      eq_text_iff e.key k,
      h p e,
      without_of_Lacks k l d.1 (λ q f at. h q f (ground (arith))),
    )

-- Where one element has the key, Remove of it leaves the elements of other keys.
remove_elem-eq-without :
    (k : Text) (p : ℕ) (e : CacheEntry) (l : Elements)
    → Distinct l
    → elem_at p l ≡ some e
    → e.key ≡ k
    → ((q : ℕ) (f : CacheEntry) → elem_at q l ≡ some f → f.key ≡ k → q ≡ p)
    → remove_elem p l ≡ without k l
unfolding elem_at remove_elem
remove_elem-eq-without k p e [] d at named one = cc
remove_elem-eq-without k p e ((q, f) ∷ l) d at named one = elim (Bool-cases (q == p)) [
  | inl same ↦ ground (
    arith,
    eq_text_iff f.key k,
    without_of_Lacks k l d.1 (λ r g there h. ground (arith, one r g)),
  )
  | inr other ↦ ground (
    arith,
    eq_text_iff f.key k,
    one q f,
    remove_elem-eq-without k p e l d.1 (ground arith) named
        (λ r g there h. ground (arith, one r g)),
  )
]

module _ (k : Text) (c : LruCache) (v : IsValid c) where
  pub remove_elem-without :
      (p : ℕ) (e : CacheEntry)
      → lookup k c.entries ≡ some p
      → elem_at p c.lru_list ≡ some e
      → e.key ≡ k
      → remove_elem p c.lru_list ≡ without k c.lru_list
  remove_elem-without p e hit at named =
      remove_elem-eq-without k p e c.lru_list v.indexed.distinct at named
        (λ q f there h. ground (arith, v.indexed.listed q f there))

  pub lru_list-remove_key : (remove_key k c).lru_list ≡ without k c.lru_list
  lru_list-remove_key = elim (remove_key-cases k c v) [
    | inl (miss, same) ↦ rw same (
        sym (
          without_of_Lacks k c.lru_list v.indexed.distinct
            (λ q f at h. ground (arith, v.indexed.listed q f at))))
    | inr (p, e, hit, at, named, step) ↦
        rw step (unfold remove_entry in remove_elem-without p e hit at named)
  ]

-- The eviction loop drops elements from the front until the rest fits, and no more.
pub evict-shrink :
    (fuel : ℕ) (c : LruCache)
    → IsFilling c
    → length c.lru_list ≤ fuel
    → (evict fuel c).lru_list ≡ shrink c.max_bytes c.lru_list
evict-shrink zero c v enough = elim (List-cases c.lru_list) [
  | inl nil ↦ rw (evict_nil zero c nil) (nil ∙ ap (shrink c.max_bytes) (sym nil))
  | inr (x, rest, h) ↦ absurd (omega (arith, ap length h))
]
evict-shrink (suc fuel) c v enough = elim (List-cases c.lru_list) [
  | inl nil ↦ rw (evict_nil (suc fuel) c nil) (nil ∙ ap (shrink c.max_bytes) (sym nil))
  | inr ((p, e), rest, h) ↦
      let (at, left) = elem_at-front p e c.lru_list rest h in
      let c' = count_in (record_eviction e.file_size) c in
      let again =
        evict-shrink fuel (remove_entry p e c')
          (remove_entry-IsFilling p e c' at
            (record { indexed = v.indexed; room = v.room; files = v.files }))
          (unfold remove_entry in omega (arith, ap length h, ap length left)) in
      let again' : (evict fuel (remove_entry p e c')).lru_list ≡ shrink c.max_bytes rest =
        again ∙ (unfold remove_entry in ap (shrink c.max_bytes) left) in
      rw (evict_cons fuel p e rest c h) (
        ground (
          arith,
          again',
          h,
          lt64_of_small c.max_bytes c.current_bytes,
          v.indexed.bytes,
          v.indexed.small,
          v.room,
          ap total h,
          ap (shrink c.max_bytes) h,
        ))
]
