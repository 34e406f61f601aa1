-- ===== src/Range/Roundtrip.antt =====
-- What fmt's %d prints, strconv.ParseInt reads.
use azs3_proxy.Prelude.{
  ℕ, zero, suc, ◌+◌, ◌*◌, ◌/◌, ◌%◌, ◌≤◌, ◌<◌, ◌≡◌, ◌≢◌, refl, sym, ap, ◌∙◌, Text, some, [], ◌∷◌,
  ◌++◌, ltb, Bool-cases, inl, inr, arith, int64_half,
}
use azs3_proxy.Range.Numbers.{positive, digit, digits_from, parse_digits, in_range, parse_int}
use azs3_proxy.Range.Decimal.{decimal_loop, decimal}

digit_add : (d : ℕ) → d < 10 → digit (d + b'0') ≡ d
unfolding digit
digit_add d h = ground arith

-- one more digit behind a number
digits_from-append :
    (acc v c : ℕ) (s : Text)
    → digits_from 10 acc s ≡ some v
    → digit c < 10
    → digits_from 10 acc (s ++ c ∷ []) ≡ some (v * 10 + digit c)
unfolding digits_from
digits_from-append acc v c [] h k = ground arith
digits_from-append acc v c (a ∷ s) h k =
    ground (arith, digits_from-append (acc * 10 + digit a) v c s)

loop_small : (fuel n : ℕ) → n < 10 → decimal_loop (suc fuel) n ≡ (n + b'0') ∷ []
unfolding decimal_loop
loop_small fuel n h = ground arith

loop_large :
    (fuel n : ℕ)
    → 10 ≤ n
    → decimal_loop (suc fuel) n ≡ decimal_loop fuel (n / 10) ++ (n % 10 + b'0') ∷ []
unfolding decimal_loop
loop_large fuel n h = ground arith

digits_from-decimal_loop : (fuel n : ℕ) → n < fuel → digits_from 10 0 (decimal_loop fuel n) ≡ some n
unfolding digits_from
digits_from-decimal_loop zero n h = absurd (omega arith)
digits_from-decimal_loop (suc fuel) n h = elim (Bool-cases (ltb n 10)) [
  | inl small ↦
      let s : n < 10 = ground arith in rw (loop_small fuel n s) (ground (arith, digit_add n s))
  | inr large ↦
      let l : 10 ≤ n = ground arith in
      let d = digit_add (n % 10) (omega arith) in
      rw (loop_large fuel n l) (
        digits_from-append 0 (n / 10) (n % 10 + b'0') (decimal_loop fuel (n / 10))
          (digits_from-decimal_loop fuel (n / 10) (omega (arith, l))) (omega (arith, d))
        ∙ ap some (omega (arith, d)))
]

pub digits_from-decimal : (n : ℕ) → digits_from 10 0 (decimal n) ≡ some n
unfolding decimal
digits_from-decimal n = digits_from-decimal_loop (suc n) n (omega arith)

append_ne : (s : Text) (c : ℕ) → s ++ c ∷ [] ≢ []
append_ne [] c h = cc
append_ne (a ∷ s) c h = cc

pub decimal_ne : (n : ℕ) → decimal n ≢ []
unfolding decimal
decimal_ne n h = elim (Bool-cases (ltb n 10)) [
  | inl small ↦ let e = loop_small n n (ground arith) in absurd (cc e)
  | inr large ↦ append_ne (decimal_loop n (n / 10)) _ (sym (loop_large n n (ground arith)) ∙ h)
]

-- digits alone have no sign
parse_int-digits :
    (n : ℕ) (s : Text)
    → s ≢ []
    → digits_from 10 0 s ≡ some n
    → n < int64_half
    → parse_int 10 s ≡ some (positive n)
unfolding parse_int parse_digits in_range digits_from digit
parse_int-digits n [] e h k = absurd (e refl)
parse_int-digits n (c ∷ s) e h k = ground (arith, h)

-- ParseInt of what %d prints is the number, for each number of an int64 that is not negative.
pub parse_int-decimal : (n : ℕ) → n < int64_half → parse_int 10 (decimal n) ≡ some (positive n)
unfolding decimal
parse_int-decimal n h =
    parse_int-digits n (decimal n) (decimal_ne n) (digits_from-decimal_loop (suc n) n (omega arith))
      h
