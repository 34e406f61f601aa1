-- ===== src/Range/Numbers.antt =====
-- strconv.ParseInt(s, base, 64) for the bases 10 and 16.
use azs3_proxy.Prelude.{
  ℕ, ◌+◌, ◌-◌, ◌*◌, Text, Bool, true, false, ◌&&◌, Option, none, some, [], ◌∷◌, leb, ltb, ◌==◌,
  int64_half, if◌then◌else◌,
}

-- An int64 by its sign: `negative n` is -n.
pub data Int64 : Type 0 where
  positive : ℕ → Int64
  negative : ℕ → Int64

-- the value of a digit, letters from 10 up; 255 for any other character
unfoldable pub digit : ℕ → ℕ
digit c =
    if leb b'0' c && leb c b'9'
    then c - b'0'
    else if leb b'a' c && leb c b'z'
    then c - b'a' + 10
    else if leb b'A' c && leb c b'Z'
    then c - b'A' + 10
    else 255

-- the digits after those that gave `acc`
unfoldable pub digits_from : ℕ → ℕ → Text → Option ℕ
digits_from base acc [] = some acc
digits_from base acc (c ∷ s) =
    let rest = digits_from base (acc * base + digit c) s in
    if ltb (digit c) base then rest else none

-- a number without sign; no digit is a syntax error
unfoldable pub parse_digits : ℕ → Text → Option ℕ
parse_digits base [] = none
parse_digits base (c ∷ s) = digits_from base 0 (c ∷ s)

-- A value out of range is an error too.
unfoldable pub in_range : Bool → Option ℕ → Option Int64
in_range is_negative none = none
in_range is_negative (some n) =
    if is_negative
    then (if leb n int64_half then some (negative n) else none)
    else (if ltb n int64_half then some (positive n) else none)

-- strconv.ParseInt: `none` is an error
unfoldable pub parse_int : ℕ → Text → Option Int64
parse_int base [] = none
parse_int base (c ∷ s) =
    if c == b'-'
    then in_range true (parse_digits base s)
    else if c == b'+'
    then in_range false (parse_digits base s)
    else in_range false (parse_digits base (c ∷ s))
