-- ===== src/Prelude/Search.antt =====
-- strings.HasPrefix, strings.Contains, strings.Index, strings.TrimSpace and strings.ToLower.
use Prim.Native.Nat.{ℕ, ◌+◌}
use mathlib.Core.Path.{◌≡◌, refl}
use mathlib.Core.Bool.{Bool, true, false, ◌&&◌, ◌||◌}
use mathlib.Core.Option.{Option, none, some}
use mathlib.Core.List.{[], ◌∷◌, ◌++◌, reverse, map}
use native.Mathlib.Omega.{arith}
use azs3_proxy.Prelude.Tests.{◌==◌, leb, if◌then◌else◌}
use azs3_proxy.Prelude.Strings.{Text}

-- strings.HasPrefix(s, p)
unfoldable pub has_prefix : Text → Text → Bool
has_prefix s [] = true
has_prefix [] (b ∷ p) = false
has_prefix (a ∷ s) (b ∷ p) = (a == b) && has_prefix s p

-- strings.Contains(s, sub)
unfoldable pub contains : Text → Text → Bool
contains [] sub = has_prefix [] sub
contains (a ∷ s) sub = has_prefix (a ∷ s) sub || contains s sub

-- the text before the first occurrence of a character and the text after it; `none` without one
unfoldable pub cut : ℕ → Text → Option (Text × Text)
cut c [] = none
cut c (a ∷ s) =
    let rest = cut c s in
    if a == c
    then some ([], s)
    else elim rest [ none ↦ none | some (before, after) ↦ some (a ∷ before, after) ]

-- the ASCII part of unicode.IsSpace
abbrev pub is_space : ℕ → Bool
is_space c = c == b' ' || (leb 9 c && leb c 13)

unfoldable pub trim_left : Text → Text
trim_left [] = []
trim_left (c ∷ s) = let rest = trim_left s in if is_space c then rest else c ∷ s

-- strings.TrimSpace
unfoldable pub trim_space : Text → Text
trim_space s = reverse (trim_left (reverse (trim_left s)))

-- the ASCII part of unicode.ToLower
unfoldable pub lower_char : ℕ → ℕ
lower_char c = if leb b'A' c && leb c b'Z' then c + 32 else c

-- strings.ToLower
unfoldable pub to_lower : Text → Text
to_lower = map lower_char

pub has_prefix-append : (p s : Text) → has_prefix (p ++ s) p ≡ true
unfolding has_prefix
has_prefix-append [] [] = refl
has_prefix-append [] (a ∷ s) = refl
has_prefix-append (a ∷ p) s = ground (arith, has_prefix-append p s)

pub contains_of_has_prefix : (s sub : Text) → has_prefix s sub ≡ true → contains s sub ≡ true
unfolding contains
contains_of_has_prefix [] sub h = h
contains_of_has_prefix (a ∷ s) sub h = ground arith

-- A text contains each of its parts.
pub contains-append : (before sub after : Text) → contains (before ++ (sub ++ after)) sub ≡ true
unfolding contains
contains-append [] sub after =
    contains_of_has_prefix (sub ++ after) sub (has_prefix-append sub after)
contains-append (a ∷ before) sub after = ground (arith, contains-append before sub after)

-- The first occurrence of a character that the front does not have.
pub cut-append :
    (c : ℕ) (before after : Text)
    → cut c before ≡ none
    → cut c (before ++ c ∷ after) ≡ some (before, after)
unfolding cut
cut-append c [] after h = ground arith
cut-append c (a ∷ before) after h = ground (arith, cut-append c before after)
