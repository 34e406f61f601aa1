-- ===== src/Cache/Names/Laws.antt =====
-- What escapeName promises: a file name with no separator, of the key's length.
use azs3_proxy.Prelude.{ℕ, ◌≤◌, ◌≡◌, ◌⊎◌, refl, ap₂, Text, [], ◌∷◌, length, arith}
use azs3_proxy.Cache.Names.{is_kept, escape_char, escape_name}

-- a letter, a digit, a dot or an underscore
abbrev pub IsSafeChar : ℕ → Type 0
IsSafeChar c =
    ((b'a' ≤ c) × (c ≤ b'z'))
    ⊎ ((b'A' ≤ c) × (c ≤ b'Z'))
    ⊎ ((b'0' ≤ c) × (c ≤ b'9'))
    ⊎ (c ≡ b'.')
    ⊎ (c ≡ b'_')

abbrev pub IsSafeName : Text → Type 0
IsSafeName [] = Unit
IsSafeName (c ∷ s) = IsSafeChar c × IsSafeName s

escape_char-IsSafeChar : (c : ℕ) → IsSafeChar (escape_char c)
unfolding escape_char is_kept
escape_char-IsSafeChar c = ground arith

escape_char_idem : (c : ℕ) → escape_char (escape_char c) ≡ escape_char c
unfolding escape_char is_kept
escape_char_idem c = ground arith

-- Whatever the key, each character of the file name is a letter, a digit, a dot or an underscore,
-- so none is a path separator; the name has the length of the key; and escaping twice is escaping
-- once.
pub escape_name-IsSafeName :
    (key : Text)
    → IsSafeName (escape_name key)
      × (length (escape_name key) ≡ length key)
      × (escape_name (escape_name key) ≡ escape_name key)
unfolding escape_name
escape_name-IsSafeName [] = (tt, refl, refl)
escape_name-IsSafeName (c ∷ key) =
    let (safe, len, idem) = escape_name-IsSafeName key in
    ((escape_char-IsSafeChar c, safe), omega arith, ap₂ ◌∷◌ (escape_char_idem c) idem)
