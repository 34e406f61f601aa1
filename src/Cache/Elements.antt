-- ===== src/Cache/Elements.antt =====
-- container/list as lru.go uses it: the elements from front to back, each with its address.
use azs3_proxy.Prelude.{
  ℕ, ◌≡◌, refl, Option, none, some, List, [], ◌∷◌, ◌++◌, arith, ◌==◌, if◌then◌else◌,
}

module _ {ℓ} {V : Type ℓ} where
  -- the value of the element at an address
  unfoldable pub elem_at : ℕ → List (ℕ × V) → Option V
  elem_at p [] = none
  elem_at p ((q, e) ∷ l) = if q == p then some e else elem_at p l

  -- `Remove`
  unfoldable pub remove_elem : ℕ → List (ℕ × V) → List (ℕ × V)
  remove_elem p [] = []
  remove_elem p ((q, e) ∷ l) = if q == p then l else (q, e) ∷ remove_elem p l

  -- `PushBack`, at a given address
  abbrev pub push_back : ℕ → V → List (ℕ × V) → List (ℕ × V)
  push_back p e l = l ++ (p, e) ∷ []

  -- no address stands twice
  abbrev pub Distinct : List (ℕ × V) → Type ℓ
  Distinct [] = Unit
  Distinct ((p, e) ∷ l) = (elem_at p l ≡ none) × Distinct l

  pub elem_at-remove_elem :
      (p q : ℕ) (l : List (ℕ × V))
      → Distinct l
      → elem_at q (remove_elem p l) ≡ (if p == q then none else elem_at q l)
  unfolding elem_at remove_elem
  elem_at-remove_elem p q [] d = ground arith
  elem_at-remove_elem p q ((r, e) ∷ l) d = ground (arith, elem_at-remove_elem p q l)

  pub remove_elem-Distinct : (p : ℕ) (l : List (ℕ × V)) → Distinct l → Distinct (remove_elem p l)
  unfolding elem_at remove_elem
  remove_elem-Distinct p [] d = tt
  remove_elem-Distinct p ((r, e) ∷ l) d =
      ground (arith, remove_elem-Distinct p l, elem_at-remove_elem p r l)

  pub elem_at-push_back :
      (p q : ℕ) (e : V) (l : List (ℕ × V))
      → elem_at p l ≡ none
      → elem_at q (push_back p e l) ≡ (if p == q then some e else elem_at q l)
  unfolding elem_at
  elem_at-push_back p q e [] h = refl
  elem_at-push_back p q e ((r, f) ∷ l) h = ground (arith, elem_at-push_back p q e l)

  pub push_back-Distinct :
      (p : ℕ) (e : V) (l : List (ℕ × V))
      → elem_at p l ≡ none
      → Distinct l
      → Distinct (push_back p e l)
  unfolding elem_at
  push_back-Distinct p e [] h d = (refl, tt)
  push_back-Distinct p e ((r, f) ∷ l) h d =
      ground (arith, push_back-Distinct p e l, elem_at-push_back p r e l)
