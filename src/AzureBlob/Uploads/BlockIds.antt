-- ===== src/AzureBlob/Uploads/BlockIds.antt =====
-- The id of the block that a part is staged as: base64 of the part number with ten digits.
use azs3_proxy.Prelude.{
  ℕ, zero, suc, ◌+◌, ◌-◌, ◌*◌, ◌/◌, ◌%◌, Text, List, [], ◌∷◌, ◌++◌, length, ltb, ◌==◌,
  if◌then◌else◌,
}
use azs3_proxy.Range.Decimal.{decimal}

-- the alphabet of base64.StdEncoding
unfoldable pub sextet : ℕ → ℕ
sextet n =
    if ltb n 26
    then n + b'A'
    else if ltb n 52
    then n + 71
    else if ltb n 62
    then n - 4
    else if n == 62
    then b'+'
    else b'/'

-- base64.StdEncoding.EncodeToString
unfoldable pub encode_base64 : List ℕ → Text
encode_base64 [] = []
encode_base64 (a ∷ []) = sextet (a / 4) ∷ (sextet (a % 4 * 16) ∷ (b'=' ∷ (b'=' ∷ [])))
encode_base64 (a ∷ b ∷ []) =
    sextet (a / 4) ∷ (sextet (a % 4 * 16 + b / 16) ∷ (sextet (b % 16 * 4) ∷ (b'=' ∷ [])))
encode_base64 (a ∷ b ∷ c ∷ bytes) =
    sextet (a / 4)
    ∷ (sextet (a % 4 * 16 + b / 16)
        ∷ (sextet (b % 16 * 4 + c / 64) ∷ (sextet (c % 64) ∷ encode_base64 bytes)))

abbrev pub zeros : ℕ → Text
zeros zero = []
zeros (suc n) = b'0' ∷ zeros n

-- fmt's %010d
unfoldable pub decimal10 : ℕ → Text
decimal10 n = zeros (10 - length (decimal n)) ++ decimal n

unfoldable pub block_id : ℕ → Text
block_id part_number = encode_base64 (decimal10 part_number)
