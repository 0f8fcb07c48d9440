-- ===== src/Base/Words.antt =====
-- Machine words: a w-bit integer is its bit pattern, a number below 2 ^ w.
use Prim.Native.Nat.{ℕ, ◌+◌, ◌-◌, ◌%◌, ◌^◌}
use laser_db.Base.Tests.{leb}
use mathlib.Core.Bool.{Bool}

abbrev pub u32_mod : ℕ
u32_mod = 2 ^ 32

abbrev pub u64_mod : ℕ
u64_mod = 2 ^ 64

unfoldable pub add32 : ℕ → ℕ → ℕ
add32 a b = (a + b) % u32_mod

unfoldable pub sub32 : ℕ → ℕ → ℕ
sub32 a b = (a + u32_mod - b) % u32_mod

unfoldable pub add64 : ℕ → ℕ → ℕ
add64 a b = (a + b) % u64_mod

unfoldable pub neg64 : ℕ → ℕ
neg64 a = (u64_mod - a) % u64_mod

-- The sign of an int32 and of an int64.
abbrev pub is_neg32 : ℕ → Bool
is_neg32 a = leb (2 ^ 31) a

abbrev pub is_neg64 : ℕ → Bool
is_neg64 a = leb (2 ^ 63) a
