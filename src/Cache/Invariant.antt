-- ===== src/Cache/Invariant.antt =====
-- The representation invariant of LRUCache, and that each operation keeps it.
use azs3_proxy.Prelude.{
  ℕ, suc, ◌+◌, ◌<◌, ◌≡◌, ap, Text, none, some, List, [], ◌∷◌, lookup, Option-cases, Bool-cases, inl,
  inr, delete, insert, lookup-delete, lookup-insert, eq_text, eq_text_iff, arith, add64, sub64,
  int64_half, ◌==◌, if◌then◌else◌,
}
use azs3_proxy.Cache.Elements.{
  elem_at, remove_elem, push_back, Distinct, elem_at-remove_elem, remove_elem-Distinct,
  elem_at-push_back, push_back-Distinct,
}
use azs3_proxy.Cache.Names.{cache_path}
use azs3_proxy.Cache.Lru.{CacheEntry}

-- the sum of the sizes of the cached files
abbrev pub total : List (ℕ × CacheEntry) → ℕ
total [] = 0
total ((p, e) ∷ l) = e.file_size + total l

-- The map and the list hold the same elements, each address stands once and was allocated, each
-- entry's file is the one named after its key, and the byte counter is the sum of the sizes.
pub record IsIndexed (dir : Text) (entries : List (Text × ℕ)) (l : List (ℕ × CacheEntry))
    (next current : ℕ) : Type 0 where
  pub index :
      (k : Text) (p : ℕ)
      → lookup k entries ≡ some p
      → (e : CacheEntry) × (elem_at p l ≡ some e) × (e.key ≡ k)
  pub listed : (p : ℕ) (e : CacheEntry) → elem_at p l ≡ some e → lookup e.key entries ≡ some p
  pub fresh : (p : ℕ) (e : CacheEntry) → elem_at p l ≡ some e → p < next
  pub paths : (p : ℕ) (e : CacheEntry) → elem_at p l ≡ some e → e.file_path ≡ cache_path dir e.key
  pub distinct : Distinct l
  pub bytes : current ≡ total l
  pub small : current < int64_half

pub total-remove_elem :
    (p : ℕ) (e : CacheEntry) (l : List (ℕ × CacheEntry))
    → elem_at p l ≡ some e
    → e.file_size + total (remove_elem p l) ≡ total l
unfolding elem_at remove_elem
total-remove_elem p e [] h = cc
total-remove_elem p e ((q, f) ∷ l) h = ground (arith, total-remove_elem p e l)

pub total-push_back :
    (p : ℕ) (e : CacheEntry) (l : List (ℕ × CacheEntry))
    → total (push_back p e l) ≡ total l + e.file_size
total-push_back p e [] = omega arith
total-push_back p e ((q, f) ∷ l) = omega (arith, total-push_back p e l)

module _ {dir : Text} {entries : List (Text × ℕ)} {l : List (ℕ × CacheEntry)} {next current : ℕ}
    (h : IsIndexed dir entries l next current) where
  pub remove-IsIndexed :
      (p : ℕ) (e : CacheEntry)
      → elem_at p l ≡ some e
      → IsIndexed dir (delete e.key entries) (remove_elem p l) next (sub64 current e.file_size)
  remove-IsIndexed p e at = record {
    index = λ k q found.
        let (x, there, named) = h.index k q (ground (arith, lookup-delete e.key k entries)) in
        (
          x,
          ground (
            arith,
            lookup-delete e.key k entries,
            eq_text_iff e.key k,
            elem_at-remove_elem p q l h.distinct,
          ),
          named,
        );
    listed = λ q f found. ground (
      arith,
      lookup-delete e.key f.key entries,
      eq_text_iff e.key f.key,
      h.listed p e at,
      h.listed q f,
      elem_at-remove_elem p q l h.distinct,
    );
    fresh = λ q f found. ground (arith, elem_at-remove_elem p q l h.distinct, h.fresh q f);
    paths = λ q f found. ground (arith, elem_at-remove_elem p q l h.distinct, h.paths q f);
    distinct = remove_elem-Distinct p l h.distinct;
    bytes = omega (arith, total-remove_elem p e l at, h.bytes, h.small);
    small = omega (arith, total-remove_elem p e l at, h.bytes, h.small);
  }

  pub elem_at-next : elem_at next l ≡ none
  elem_at-next = elim (Option-cases (elem_at next l)) [
    | inl absent ↦ absent
    | inr (e, there) ↦ absurd (omega (arith, h.fresh next e there))
  ]

  pub push-IsIndexed :
      (e : CacheEntry)
      → e.file_path ≡ cache_path dir e.key
      → lookup e.key entries ≡ none
      → current + e.file_size < int64_half
      → IsIndexed dir
          (insert e.key next entries)
          (push_back next e l)
          (suc next)
          (add64 current e.file_size)
  push-IsIndexed e path absent room = record {
    index = λ k q found. elim (Bool-cases (eq_text e.key k)) [
      | inl same ↦ (
        e,
        ground
            (arith, lookup-insert e.key k next entries, elem_at-push_back next q e l elem_at-next),
        (eq_text_iff e.key k).0 same,
      )
      | inr other ↦
          let (x, there, named) =
            h.index k q (ground (arith, lookup-insert e.key k next entries)) in
          (x, ground (arith, elem_at-push_back next q e l elem_at-next, elem_at-next), named)
    ];
    listed = λ q f found. ground (
      arith,
      lookup-insert e.key f.key next entries,
      eq_text_iff e.key f.key,
      h.listed q f,
      elem_at-push_back next q e l elem_at-next,
    );
    fresh = λ q f found. ground (arith, h.fresh q f, elem_at-push_back next q e l elem_at-next);
    paths = λ q f found. ground (arith, h.paths q f, elem_at-push_back next q e l elem_at-next);
    distinct = push_back-Distinct next e l elem_at-next h.distinct;
    bytes = omega (arith, total-push_back next e l, h.bytes);
    small = omega arith;
  }

  -- MoveToBack with a new time stamp
  pub touch-IsIndexed :
      (p : ℕ) (e f : CacheEntry)
      → elem_at p l ≡ some e
      → f.key ≡ e.key
      → f.file_path ≡ e.file_path
      → f.file_size ≡ e.file_size
      → IsIndexed dir entries (push_back p f (remove_elem p l)) next current
  touch-IsIndexed p e f at key path size = record {
    index = λ k q found.
        let (x, there, named) = h.index k q found in
        elim (Bool-cases (p == q)) [
          | inl same ↦ (f, ground (arith, push q), ground arith)
          | inr other ↦ (x, ground (arith, push q, elem_at-remove_elem p q l h.distinct), named)
        ];
    listed = λ q g found.
        ground (arith, push q, elem_at-remove_elem p q l h.distinct, h.listed q g, h.listed p e at);
    fresh = λ q g found.
        ground (arith, push q, elem_at-remove_elem p q l h.distinct, h.fresh q g, h.fresh p e at);
    paths = λ q g found. ground (
      arith,
      push q,
      elem_at-remove_elem p q l h.distinct,
      h.paths q g,
      h.paths p e at,
      ap (cache_path dir) key,
    );
    distinct = push_back-Distinct p f (remove_elem p l) gone (remove_elem-Distinct p l h.distinct);
    bytes =
        omega (arith, total-push_back p f (remove_elem p l), total-remove_elem p e l at, h.bytes);
    small = h.small;
  }
    where
      gone : elem_at p (remove_elem p l) ≡ none
      gone = ground (arith, elem_at-remove_elem p p l h.distinct)

      push :
          (q : ℕ)
          → elem_at q (push_back p f (remove_elem p l))
            ≡ (if p == q then some f else elem_at q (remove_elem p l))
      push q = elem_at-push_back p q f (remove_elem p l) gone
