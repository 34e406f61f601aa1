-- ===== src/Range/Header.antt =====
-- parseSingleRange of internal/handler/handler.go.
use azs3_proxy.Prelude.{
  ℕ, ◌-◌, ◌≤◌, ◌<◌, ◌≡◌, Text, codes, Bool, true, false, ◌&&◌, ◌||◌, Option, none, some, [], ◌∷◌,
  arith, leb, ltb, ◌==◌, has_prefix, cut, trim_space, drop, if◌then◌else◌,
}
use azs3_proxy.Range.Numbers.{Int64, positive, negative, parse_int}

pub data RangeError : Type 0 where
  missing_range invalid_unit multiple_ranges invalid_format invalid_range beyond_size : RangeError

pub data Parsed : Type 0 where
  range : ℕ → ℕ → Parsed
  refused : RangeError → Parsed

abbrev is_empty : Text → Bool
is_empty [] = true
is_empty (c ∷ s) = false

-- the tests that follow the switch: clamp the end to the size
unfoldable pub clamp : ℕ → ℕ → ℕ → Parsed
clamp size start end =
    if leb size start
    then refused beyond_size
    else if leb size end
    then range start (size - 1)
    else range start end

-- `bytes=-N`
unfoldable pub suffix_range : ℕ → Option Int64 → Parsed
suffix_range size none = refused invalid_range
suffix_range size (some (negative n)) = refused invalid_range
suffix_range size (some (positive n)) =
    if n == 0
    then refused invalid_range
    else let suffix_len = if ltb size n then size else n in
      clamp size (size - suffix_len) (size - 1)

-- `bytes=N-`; a zero with a minus sign is no negative number
unfoldable pub open_range : ℕ → Option Int64 → Parsed
open_range size none = refused invalid_range
open_range size (some (negative n)) =
    if n == 0 then clamp size 0 (size - 1) else refused invalid_range
open_range size (some (positive n)) =
    if leb size n then refused beyond_size else clamp size n (size - 1)

-- a parsed number that is not below zero
abbrev pub unsigned : Option Int64 → Option ℕ
unsigned none = none
unsigned (some (positive n)) = some n
unsigned (some (negative n)) = if n == 0 then some 0 else none

-- `bytes=N-M`
unfoldable pub closed_range : ℕ → Option Int64 → Option Int64 → Parsed
closed_range size first last = elim (unsigned first) [
  | none ↦ refused invalid_range
  | some start ↦ elim (unsigned last) [
    | none ↦ refused invalid_range
    | some end ↦ if ltb end start then refused invalid_range else clamp size start end
  ]
]

-- the switch over the two sides of the dash
unfoldable pub range_of : ℕ → Text → Text → Parsed
range_of size start_str end_str =
    if is_empty start_str && is_empty end_str
    then refused invalid_range
    else if is_empty start_str
    then suffix_range size (parse_int 10 end_str)
    else if is_empty end_str
    then open_range size (parse_int 10 start_str)
    else closed_range size (parse_int 10 start_str) (parse_int 10 end_str)

unfoldable pub split_dash : ℕ → Option (Text × Text) → Parsed
split_dash size none = refused invalid_format
split_dash size (some (before, after)) = range_of size (trim_space before) (trim_space after)

-- parseSingleRange; a size that is not positive is 0. `cut` finds the comma that strings.Split
-- would split at, and the first dash.
unfoldable pub parse_single_range : Text → ℕ → Parsed
parse_single_range header size =
    if is_empty header || size == 0
    then refused missing_range
    else if has_prefix header (codes "bytes=")
    then elim (cut b',' (drop 6 header)) [
      | some _ ↦ refused multiple_ranges
      | none ↦ split_dash size (cut b'-' (trim_space (drop 6 header)))
    ]
    else refused invalid_unit

clamp_bounds :
    (size start end : ℕ) (s e : ℕ)
    → start ≤ end
    → clamp size start end ≡ range s e
    → (s ≤ e) × (e < size)
unfolding clamp
clamp_bounds size start end s e h p = ground arith

suffix_range_bounds :
    (size : ℕ) (n : Option Int64) (s e : ℕ) → suffix_range size n ≡ range s e → (s ≤ e) × (e < size)
unfolding suffix_range clamp
suffix_range_bounds size n s e p = ground arith

open_range_bounds :
    (size : ℕ) (n : Option Int64) (s e : ℕ) → open_range size n ≡ range s e → (s ≤ e) × (e < size)
unfolding open_range clamp
open_range_bounds size n s e p = ground arith

closed_range_bounds :
    (size : ℕ) (m n : Option Int64) (s e : ℕ)
    → closed_range size m n ≡ range s e
    → (s ≤ e) × (e < size)
unfolding closed_range clamp
closed_range_bounds size m n s e p = ground arith

split_dash_bounds :
    (size : ℕ) (sides : Option (Text × Text)) (s e : ℕ)
    → split_dash size sides ≡ range s e
    → (s ≤ e) × (e < size)
unfolding split_dash range_of
split_dash_bounds size none s e h = absurd (ground arith)
split_dash_bounds size (some (before, after)) s e h =
    let a = trim_space before in
    let b = trim_space after in
    ground (
      arith,
      suffix_range_bounds size (parse_int 10 b) s e,
      open_range_bounds size (parse_int 10 a) s e,
      closed_range_bounds size (parse_int 10 a) (parse_int 10 b) s e,
    )

-- Whatever the header, a range that is accepted lies within the object: it starts no later than it
-- ends, and ends before the size.
pub parse_single_range_bounds :
    (header : Text) (size : ℕ) (s e : ℕ)
    → parse_single_range header size ≡ range s e
    → (s ≤ e) × (e < size)
unfolding parse_single_range
parse_single_range_bounds header size s e h =
    ground (arith, split_dash_bounds size (cut b'-' (trim_space (drop 6 header))) s e)
