-- ===== src/Range/Decimal.antt =====
-- fmt's %d for a number that is not negative.
use azs3_proxy.Prelude.{ℕ, zero, suc, ◌+◌, ◌/◌, ◌%◌, Text, [], ◌∷◌, ◌++◌, ltb, if◌then◌else◌}

-- one round for each digit; a number has at most as many digits as its value plus one
unfoldable pub decimal_loop : ℕ → ℕ → Text
decimal_loop zero n = []
decimal_loop (suc fuel) n =
    let front = decimal_loop fuel (n / 10) in
    if ltb n 10 then (n + b'0') ∷ [] else front ++ (n % 10 + b'0') ∷ []

unfoldable pub decimal : ℕ → Text
decimal n = decimal_loop (suc n) n
