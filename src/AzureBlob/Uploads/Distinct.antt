-- ===== src/AzureBlob/Uploads/Distinct.antt =====
-- Two parts have two block ids.
use azs3_proxy.Prelude.{
  ℕ, zero, suc, ◌+◌, ◌-◌, ◌*◌, ◌/◌, ◌%◌, ◌<◌, ◌≡◌, ◌≢◌, refl, sym, ap, ap₂, ◌∙◌, Text, List, [],
  ◌∷◌, ◌++◌, some, length, ltb, arith, Bool-cases, inl, inr,
}
use azs3_proxy.Range.Numbers.{digits_from, digit}
use azs3_proxy.Range.Decimal.{decimal, decimal_loop}
use azs3_proxy.Range.Roundtrip.{digits_from-decimal}
use azs3_proxy.AzureBlob.Uploads.BlockIds.{sextet, encode_base64, zeros, decimal10, block_id}

sextet-injective : (m n : ℕ) → m < 64 → n < 64 → sextet m ≡ sextet n → m ≡ n
unfolding sextet
sextet-injective m n h k e = ground (arith, e)

sextet_ne : (n : ℕ) → n < 64 → b'=' ≢ sextet n
unfolding sextet
sextet_ne n h e = ground (arith, e)

abbrev Bytes : List ℕ → Type 0
Bytes [] = Unit
Bytes (x ∷ xs) = (x < 256) × Bytes xs

-- the first two characters of a group
two_sextets :
    (a b x y : ℕ)
    → a < 256
    → b < 256
    → x < 16
    → y < 16
    → sextet (a / 4) ≡ sextet (b / 4)
    → sextet (a % 4 * 16 + x) ≡ sextet (b % 4 * 16 + y)
    → (a ≡ b) × (x ≡ y)
two_sextets a b x y ha hb hx hy e f =
    let p = sextet-injective (a / 4) (b / 4) (omega (arith, ha)) (omega (arith, hb)) e in
    let q =
      sextet-injective (a % 4 * 16 + x) (b % 4 * 16 + y) (omega (arith, hx)) (omega (arith, hy))
        f in
    (omega (arith, p, q, hx, hy), omega (arith, p, q, hx, hy))

encode_base64-injective :
    (xs ys : List ℕ) → Bytes xs → Bytes ys → encode_base64 xs ≡ encode_base64 ys → xs ≡ ys
unfolding encode_base64
encode_base64-injective [] [] h k e = refl
encode_base64-injective [] (y ∷ []) h k e = cc
encode_base64-injective [] (y ∷ z ∷ []) h k e = cc
encode_base64-injective [] (y ∷ z ∷ w ∷ ys) h k e = cc
encode_base64-injective (x ∷ []) [] h k e = cc
encode_base64-injective (x ∷ y ∷ []) [] h k e = cc
encode_base64-injective (x ∷ y ∷ z ∷ xs) [] h k e = cc
encode_base64-injective (x ∷ []) (y ∷ []) (h, _) (k, _) e =
    let p = sextet-injective (x / 4) (y / 4) (omega arith) (omega arith) (cc) in
    let q = sextet-injective (x % 4 * 16) (y % 4 * 16) (omega arith) (omega arith) (cc) in
    ap (λ a. a ∷ []) (omega (arith, p, q))
encode_base64-injective (x ∷ []) (y ∷ z ∷ []) h k e =
    absurd (sextet_ne (z % 16 * 4) (omega arith) (cc))
encode_base64-injective (x ∷ []) (y ∷ z ∷ w ∷ ys) h (k, (k1, (k2, ks))) e =
    absurd (sextet_ne (z % 16 * 4 + w / 64) (omega arith) (cc))
encode_base64-injective (y ∷ z ∷ []) (x ∷ []) h k e =
    absurd (sextet_ne (z % 16 * 4) (omega arith) (cc))
encode_base64-injective (y ∷ z ∷ w ∷ ys) (x ∷ []) (h, (h1, (h2, hs))) k e =
    absurd (sextet_ne (z % 16 * 4 + w / 64) (omega arith) (cc))
encode_base64-injective (x ∷ y ∷ []) (z ∷ w ∷ []) (h, (h1, _)) (k, (k1, _)) e =
    let (p, q) = two_sextets x z (y / 16) (w / 16) h k (omega arith) (omega arith) (cc) (cc) in
    let r = sextet-injective (y % 16 * 4) (w % 16 * 4) (omega arith) (omega arith) (cc) in
    ap₂ (λ a b. a ∷ b ∷ []) p (omega (arith, q, r))
encode_base64-injective (x ∷ y ∷ []) (z ∷ w ∷ v ∷ ys) h k e =
    absurd (sextet_ne (v % 64) (omega arith) (cc))
encode_base64-injective (z ∷ w ∷ v ∷ ys) (x ∷ y ∷ []) h k e =
    absurd (sextet_ne (v % 64) (omega arith) (cc))
encode_base64-injective (x ∷ y ∷ z ∷ xs) (u ∷ v ∷ w ∷ ys) (h, (h1, (h2, hs))) (k, (k1, (k2, ks)))
      e =
    let (p, q) = two_sextets x u (y / 16) (v / 16) h k (omega arith) (omega arith) (cc) (cc) in
    let r =
      sextet-injective (y % 16 * 4 + z / 64) (v % 16 * 4 + w / 64) (omega arith) (omega arith)
        (cc) in
    let t = sextet-injective (z % 64) (w % 64) (omega arith) (omega arith) (cc) in
    let rest = encode_base64-injective xs ys hs ks (cc) in
    let second : y ≡ v = omega (arith, q, r, h2, k2) in
    let third : z ≡ w = omega (arith, r, t, h2, k2) in cc

Bytes-append : (s t : Text) → Bytes s → Bytes t → Bytes (s ++ t)
Bytes-append [] t h k = k
Bytes-append (x ∷ s) t (h, hs) k = (h, Bytes-append s t hs k)

decimal_loop-Bytes : (fuel n : ℕ) → Bytes (decimal_loop fuel n)
unfolding decimal_loop
decimal_loop-Bytes zero n = tt
decimal_loop-Bytes (suc fuel) n = elim (Bool-cases (ltb n 10)) [
  | inl small ↦ rw small (ground (arith, small), tt)
  | inr large ↦ rw large (
      Bytes-append (decimal_loop fuel (n / 10)) ((n % 10 + b'0') ∷ [])
        (decimal_loop-Bytes fuel (n / 10)) (omega arith, tt))
]

zeros-Bytes : (n : ℕ) → Bytes (zeros n)
zeros-Bytes zero = tt
zeros-Bytes (suc n) = (omega arith, zeros-Bytes n)

decimal10-Bytes : (n : ℕ) → Bytes (decimal10 n)
unfolding decimal10 decimal
decimal10-Bytes n =
    Bytes-append (zeros (10 - length (decimal n))) (decimal n)
      (zeros-Bytes (10 - length (decimal n))) (decimal_loop-Bytes (suc n) n)

digits_from-zeros : (k : ℕ) (s : Text) → digits_from 10 0 (zeros k ++ s) ≡ digits_from 10 0 s
unfolding digits_from digit
digits_from-zeros zero s = refl
digits_from-zeros (suc k) s = digits_from-zeros k s

digits_from-decimal10 : (n : ℕ) → digits_from 10 0 (decimal10 n) ≡ some n
unfolding decimal10
digits_from-decimal10 n =
    digits_from-zeros (10 - length (decimal n)) (decimal n) ∙ digits_from-decimal n

pub block_id-injective : (m n : ℕ) → block_id m ≡ block_id n → m ≡ n
unfolding block_id
block_id-injective m n e =
    let same =
      encode_base64-injective (decimal10 m) (decimal10 n) (decimal10-Bytes m) (decimal10-Bytes n)
        e in
    let f =
      sym (digits_from-decimal10 m) ∙ (ap (digits_from 10 0) same ∙ digits_from-decimal10 n) in
    cc
