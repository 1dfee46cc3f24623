-- ===== src/Prelude/Int64.antt =====
-- Go's int64 as the bits of two's complement, with the wrap-around of its arithmetic.
use Prim.Native.Nat.{ℕ, ◌+◌, ◌-◌, ◌%◌, ◌^◌, ◌≤◌, ◌<◌}
use mathlib.Core.Path.{◌≡◌}
use mathlib.Core.Bool.{Bool, false}
use native.Mathlib.Omega.{arith}
use secure_file_storage_syst.Prelude.Tests.{ltb}

abbrev pub Int64 : Type 0
Int64 = ℕ

-- a + b
unfoldable pub add64 : Int64 → Int64 → Int64
add64 a b = (a + b) % 2 ^ 64

-- a - b
unfoldable pub sub64 : Int64 → Int64 → Int64
sub64 a b = (a + (2 ^ 64 - b)) % 2 ^ 64

-- a < b, of signed numbers
unfoldable pub lt64 : Int64 → Int64 → Bool
lt64 a b = ltb ((a + 2 ^ 63) % 2 ^ 64) ((b + 2 ^ 63) % 2 ^ 64)

pub add64_small : (a b : ℕ) → a + b < 2 ^ 63 → add64 a b ≡ a + b
unfolding add64
add64_small a b h = omega arith

pub sub64_small : (a b : ℕ) → b ≤ a → a < 2 ^ 63 → sub64 a b ≡ a - b
unfolding sub64
sub64_small a b h k = omega arith

pub lt64_small : (a b : ℕ) → a < 2 ^ 63 → b < 2 ^ 63 → lt64 a b ≡ ltb a b
unfolding lt64
lt64_small a b h k = ground arith

pub le_of_lt64 : (a b : ℕ) → a < 2 ^ 63 → b < 2 ^ 63 → lt64 a b ≡ false → b ≤ a
unfolding lt64
le_of_lt64 a b h k test = ground arith
