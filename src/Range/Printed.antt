-- ===== src/Range/Printed.antt =====
-- A Range header that a client prints from two offsets.
use mathlib.Core.List.{reverse, reverse_aux, reverse-reverse}
use azs3_proxy.Prelude.{
  ℕ, ◌+◌, ◌-◌, ◌*◌, ◌≤◌, ◌<◌, ◌≡◌, ◌≢◌, refl, ap, ◌∙◌, Text, codes, false, none, some, [], ◌∷◌,
  ◌++◌, cut, cut-append, has_prefix, is_space, trim_left, trim_space, min, arith, int64_half, ◌==◌,
}
use azs3_proxy.Range.Numbers.{digit, digits_from, parse_int, positive}
use azs3_proxy.Range.Decimal.{decimal}
use azs3_proxy.Range.Header.{range, clamp, closed_range, range_of, split_dash, parse_single_range}
use azs3_proxy.Range.Roundtrip.{digits_from-decimal, decimal_ne, parse_int-decimal}

-- a character that is no digit does not stand among digits
cut-digits :
    (c acc v : ℕ) (s : Text) → 10 ≤ digit c → digits_from 10 acc s ≡ some v → cut c s ≡ none
unfolding cut digits_from
cut-digits c acc v [] h k = refl
cut-digits c acc v (a ∷ s) h k = ground (arith, cut-digits c (acc * 10 + digit a) v s)

cut-none :
    (c x : ℕ) (s t : Text) → cut c s ≡ none → cut c t ≡ none → x ≢ c → cut c (s ++ x ∷ t) ≡ none
unfolding cut
cut-none c x [] t h k n = ground arith
cut-none c x (a ∷ s) t h k n = ground (arith, cut-none c x s t)

-- no character of the text is white space
abbrev NoSpace : Text → Type 0
NoSpace [] = Unit
NoSpace (c ∷ s) = (is_space c ≡ false) × NoSpace s

trim_left_id : (s : Text) → NoSpace s → trim_left s ≡ s
unfolding trim_left
trim_left_id [] h = refl
trim_left_id (c ∷ s) h = rw h.0 refl

reverse_aux-NoSpace : (s acc : Text) → NoSpace s → NoSpace acc → NoSpace (reverse_aux s acc)
reverse_aux-NoSpace [] acc h k = k
reverse_aux-NoSpace (c ∷ s) acc h k = reverse_aux-NoSpace s (c ∷ acc) h.1 (h.0, k)

trim_space_id : (s : Text) → NoSpace s → trim_space s ≡ s
unfolding trim_space
trim_space_id s h =
    ap (λ t. reverse (trim_left (reverse t))) (trim_left_id s h)
    ∙ ap reverse (trim_left_id (reverse s) (reverse_aux-NoSpace s [] h tt))
    ∙ reverse-reverse s

NoSpace-append : (s t : Text) → NoSpace s → NoSpace t → NoSpace (s ++ t)
NoSpace-append [] t h k = k
NoSpace-append (c ∷ s) t h k = (h.0, NoSpace-append s t h.1 k)

digits-NoSpace : (acc v : ℕ) (s : Text) → digits_from 10 acc s ≡ some v → NoSpace s
unfolding digits_from digit
digits-NoSpace acc v [] h = tt
digits-NoSpace acc v (c ∷ s) h =
    (ground arith, digits-NoSpace (acc * 10 + digit c) v s (ground arith))

module _ (a b : ℕ) where
  -- the text behind `bytes=`
  abbrev spec : Text
  spec = decimal a ++ b'-' ∷ decimal b

  spec-NoSpace : NoSpace spec
  spec-NoSpace =
      NoSpace-append (decimal a) (b'-' ∷ decimal b)
        (digits-NoSpace 0 a (decimal a) (digits_from-decimal a))
        (refl, digits-NoSpace 0 b (decimal b) (digits_from-decimal b))

  one_range : cut b',' spec ≡ none
  one_range =
      cut-none b',' b'-' (decimal a) (decimal b)
        (cut-digits b',' 0 a (decimal a) (unfold digit in omega arith) (digits_from-decimal a))
        (cut-digits b',' 0 b (decimal b) (unfold digit in omega arith) (digits_from-decimal b))
        (omega arith)

  two_sides : cut b'-' (trim_space spec) ≡ some (decimal a, decimal b)
  two_sides =
      ap (cut b'-') (trim_space_id spec spec-NoSpace)
      ∙ cut-append b'-' (decimal a) (decimal b)
          (cut-digits b'-' 0 a (decimal a) (unfold digit in omega arith) (digits_from-decimal a))

  sides :
      (size : ℕ)
      → split_dash size (some (decimal a, decimal b))
        ≡ closed_range size (parse_int 10 (decimal a)) (parse_int 10 (decimal b))
  unfolding split_dash range_of
  sides size =
      rw (trim_space_id (decimal a) (digits-NoSpace 0 a (decimal a) (digits_from-decimal a))) (
        rw (trim_space_id (decimal b) (digits-NoSpace 0 b (decimal b) (digits_from-decimal b)))
          (ground (arith, decimal_ne a, decimal_ne b)))

  closed :
      (size : ℕ)
      → a ≤ b
      → a < size
      → closed_range size (some (positive a)) (some (positive b)) ≡ range a (min b (size - 1))
  unfolding closed_range clamp
  closed size h k = ground arith

  -- The header bytes=A-B, as %d prints A and B, is the range from A to B, or to the end of the object
  -- where B is beyond it, if A is at most B and inside the object, and B an int64.
  pub parse_single_range_decimal :
      (size : ℕ)
      → a ≤ b
      → a < size
      → b < int64_half
      → parse_single_range (codes "bytes=" ++ spec) size ≡ range a (min b (size - 1))
  unfolding parse_single_range has_prefix
  parse_single_range_decimal size h k small =
      let some_size : (size == 0) ≡ false = ground arith in
      let first = parse_int-decimal a (omega arith) in
      let last = parse_int-decimal b small in
      rw some_size (
        rw one_range (
          rw two_sides (
            sides size
            ∙ ap (λ x. closed_range size x (parse_int 10 (decimal b))) first
            ∙ ap (closed_range size (some (positive a))) last
            ∙ closed size h k)))
