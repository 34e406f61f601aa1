-- ===== src/Prelude/Words.antt =====
-- int64 as the 64-bit pattern below 2 ^ 64: sums and differences wrap, and the order is the signed
-- one.
use Prim.Native.Nat.{ℕ, ◌+◌, ◌-◌, ◌%◌, ◌≤◌, ◌<◌}
use mathlib.Core.Path.{◌≡◌}
use mathlib.Core.Bool.{Bool}
use native.Mathlib.Omega.{arith}
use azs3_proxy.Prelude.Tests.{ltb}

-- 2 ^ 64
abbrev pub int64_mod : ℕ
int64_mod = 18446744073709551616

-- 2 ^ 63
abbrev pub int64_half : ℕ
int64_half = 9223372036854775808

abbrev pub add64 : ℕ → ℕ → ℕ
add64 a b = (a + b) % int64_mod

abbrev pub sub64 : ℕ → ℕ → ℕ
sub64 a b = (a + int64_mod - b) % int64_mod

-- `a < b` on int64
abbrev pub lt64 : ℕ → ℕ → Bool
lt64 a b = ltb ((a + int64_half) % int64_mod) ((b + int64_half) % int64_mod)

pub lt64_of_small : (a b : ℕ) → a < int64_half → b < int64_half → lt64 a b ≡ ltb a b
lt64_of_small a b h k = ground arith

pub sub64_of_le : (a b : ℕ) → a < int64_half → b ≤ a → sub64 a b ≡ a - b
sub64_of_le a b h k = omega arith
