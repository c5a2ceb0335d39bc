-- ===== src/Base/Word.antt =====
-- Machine words as native numbers: a value of `w` bits is a number below 2 ^ w, and every operation
-- of the source that wraps is written with its `%`.
use Prim.Native.Nat.{ℕ, ◌+◌, ◌-◌, ◌%◌, ◌^◌}
use mathlib.Core.Bool.{Bool}
use xwlrvnc.Base.Tests.{ltb}

abbrev pub u16_mod : ℕ
u16_mod = 2 ^ 16

abbrev pub u32_mod : ℕ
u32_mod = 2 ^ 32

abbrev pub u64_mod : ℕ
u64_mod = 2 ^ 64

-- `wrapping_sub`; `-` on ℕ stops at 0, so the modulus is added first.
abbrev pub wrapping_sub16 : ℕ → ℕ → ℕ
wrapping_sub16 a b = (a + u16_mod - b) % u16_mod

abbrev pub wrapping_sub32 : ℕ → ℕ → ℕ
wrapping_sub32 a b = (a + u32_mod - b) % u32_mod

abbrev pub wrapping_add32 : ℕ → ℕ → ℕ
wrapping_add32 a b = (a + b) % u32_mod

-- Whether the bit pattern, read as `i16`, is at least 0.
abbrev pub nonneg16 : ℕ → Bool
nonneg16 w = ltb w (2 ^ 15)

-- Whether the bit pattern, read as `i32`, is at least 0.
abbrev pub nonneg32 : ℕ → Bool
nonneg32 w = ltb w (2 ^ 31)
