-- ===== src/Prelude/Slices.antt =====
-- Go slices `xs[a:b]`, and a sequence cut into blocks of one size.
use Prim.Native.Nat.{ℕ, zero, suc, ◌+◌, ◌-◌, ◌*◌, ◌≤◌, min}
use mathlib.Core.Path.{◌≡◌, refl, ap, ap₂, sym, ◌∙◌}
use mathlib.Core.List.{List, [], ◌∷◌, ◌++◌, append_assoc}
use native.Mathlib.Decide.{dec_le}
use native.Mathlib.Omega.{arith}
use azs3_proxy.Prelude.Lists.{
  length, take, drop, take-add, drop-drop, length-take, length-drop, take_of_length-le,
}

module _ {ℓ} {A : Type ℓ} where
  -- `xs[a:b]`
  unfoldable pub slice : List A → ℕ → ℕ → List A
  slice xs a b = take (b - a) (drop a xs)

  take_nil : (n : ℕ) → take {A = A} n [] ≡ []
  take_nil zero = refl
  take_nil (suc n) = refl

  drop-take : (i n : ℕ) (xs : List A) → drop i (take n xs) ≡ take (n - i) (drop i xs)
  drop-take zero n xs = ap (λ k. take k xs) (let e : n ≡ n - 0 = omega arith in e)
  drop-take (suc i) zero xs =
      ap (λ k. take k (drop (suc i) xs)) (let e : 0 ≡ 0 - suc i = omega arith in e)
  drop-take (suc i) (suc n) [] = sym (take_nil (suc n - suc i))
  drop-take (suc i) (suc n) (x ∷ xs) =
      drop-take i n xs
      ∙ ap (λ k. take k (drop i xs)) (let e : n - i ≡ suc n - suc i = omega arith in e)

  take-take : (m n : ℕ) (xs : List A) → m ≤ n → take m (take n xs) ≡ take m xs
  take-take zero n xs h = refl
  take-take (suc m) zero xs h = absurd (omega arith)
  take-take (suc m) (suc n) [] h = refl
  take-take (suc m) (suc n) (x ∷ xs) h = ap (◌∷◌ x) (take-take m n xs (omega arith))

  pub slice-append :
      (xs : List A) (a b c : ℕ) → a ≤ b → b ≤ c → slice xs a b ++ slice xs b c ≡ slice xs a c
  unfolding slice
  slice-append xs a b c h k =
      let e : b ≡ a + (b - a) = omega arith in
      let f : c - a ≡ (b - a) + (c - b) = omega arith in
      rw f (
        rw (take-add (b - a) (c - b) (drop a xs)) (
          ap (λ ys. take (b - a) (drop a xs) ++ take (c - b) ys)
            (ap (λ n. drop n xs) e ∙ sym (drop-drop a (b - a) xs))))

  pub slice_all : (xs : List A) (n : ℕ) → length xs ≤ n → slice xs 0 n ≡ xs
  unfolding slice
  slice_all xs n h = take_of_length-le (n - 0) xs (omega arith)

  pub length-slice : (xs : List A) (a b : ℕ) → a ≤ b → b ≤ length xs → length (slice xs a b) ≡ b - a
  unfolding slice
  length-slice xs a b h k = omega (arith, length-take (b - a) (drop a xs), length-drop a xs)

  -- A slice of a slice, within its bounds.
  pub slice-slice :
      (xs : List A) (a b i j : ℕ) → a + j ≤ b → slice (slice xs a b) i j ≡ slice xs (a + i) (a + j)
  unfolding slice
  slice-slice xs a b i j h =
      let e : j - i ≡ a + j - (a + i) = omega arith in
      ap (take (j - i)) (drop-take i (b - a) (drop a xs))
      ∙ take-take (j - i) (b - a - i) (drop i (drop a xs)) (omega arith)
      ∙ ap (take (j - i)) (drop-drop a i xs)
      ∙ ap (λ k. take k (drop (a + i) xs)) e

  -- block `k` of a sequence, of the given size but for the last
  unfoldable pub block : List A → ℕ → ℕ → List A
  block xs size k = slice xs (k * size) (min ((k + 1) * size) (length xs))

  -- `count` blocks from block `k` on, one behind the other
  unfoldable pub blocks : List A → ℕ → ℕ → ℕ → List A
  blocks xs size k zero = []
  blocks xs size k (suc count) = block xs size k ++ blocks xs size (k + 1) count

  pub slice_nil : (xs : List A) (a b : ℕ) → b ≤ a → slice xs a b ≡ []
  unfolding slice
  slice_nil xs a b h = ap (λ k. take k (drop a xs)) (let e : b - a ≡ 0 = omega arith in e)

  block-min :
      (xs : List A) (size k : ℕ)
      → block xs size k ≡ slice xs (min (k * size) (length xs)) (min ((k + 1) * size) (length xs))
  unfolding block
  block-min xs size k = elim (dec_le (k * size) (length xs)) [
    | yes h ↦
        ap (λ a. slice xs a (min ((k + 1) * size) (length xs)))
          (let e : k * size ≡ min (k * size) (length xs) = omega arith in e)
    | no h ↦
        slice_nil xs (k * size) (min ((k + 1) * size) (length xs)) (omega arith)
        ∙ sym (
            slice_nil xs (min (k * size) (length xs)) (min ((k + 1) * size) (length xs))
              (omega arith))
  ]

  -- Consecutive blocks make one slice.
  pub blocks-slice :
      (xs : List A) (size k count : ℕ)
      → blocks xs size k count
        ≡ slice xs (min (k * size) (length xs)) (min ((k + count) * size) (length xs))
  unfolding blocks
  blocks-slice xs size k zero = sym (slice_nil xs _ _ (omega arith))
  blocks-slice xs size k (suc count) =
      ap₂ ◌++◌ (block-min xs size k) (blocks-slice xs size (k + 1) count)
      ∙ slice-append xs (min (k * size) (length xs)) (min ((k + 1) * size) (length xs))
          (min ((k + 1 + count) * size) (length xs)) (omega arith) (omega arith)
      ∙ ap (λ n. slice xs (min (k * size) (length xs)) (min (n * size) (length xs)))
          (let e : k + 1 + count ≡ k + suc count = omega arith in e)

  pub blocks-append :
      (xs : List A) (size k m n : ℕ)
      → blocks xs size k m ++ blocks xs size (k + m) n ≡ blocks xs size k (m + n)
  unfolding blocks
  blocks-append xs size k zero n =
      ap (λ j. blocks xs size j n) (let e : k + 0 ≡ k = omega arith in e)
      ∙ ap (blocks xs size k) (let e : n ≡ 0 + n = omega arith in e)
  blocks-append xs size k (suc m) n =
      append_assoc (block xs size k) (blocks xs size (k + 1) m) (blocks xs size (k + suc m) n)
      ∙ ap (λ j. block xs size k ++ (blocks xs size (k + 1) m ++ blocks xs size j n))
          (let e : k + suc m ≡ k + 1 + m = omega arith in e)
      ∙ ap (◌++◌ (block xs size k)) (blocks-append xs size (k + 1) m n)
      ∙ ap (blocks xs size k) (let e : suc (m + n) ≡ suc m + n = omega arith in e)
