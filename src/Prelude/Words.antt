-- ===== src/Prelude/Words.antt =====
-- C and Lua integers: a Lua integer is a ℤ, a w-bit word the number of its bit pattern.
use Prim.Native.Nat.{ℕ, ◌-◌, ◌%◌, ◌^◌, ◌<◌}
use mathlib.Core.Path.{◌≡◌}
use native.Mathlib.Omega.{arith}
use luajack.Prelude.Tests.{ltb, if◌then◌else◌}

-- `negsuc n` is -(n + 1).
pub data ℤ : Type 0 where
  pos : ℕ → ℤ
  negsuc : ℕ → ℤ

abbrev pub u32_mod : ℕ
u32_mod = 2 ^ 32

-- The conversion `(uint32_t)x` of a signed integer of any width.
unfoldable pub to_u32 : ℤ → ℕ
to_u32 (pos n) = n % 2 ^ 32
to_u32 (negsuc n) = 2 ^ 32 - 1 - n % 2 ^ 32

-- The `int32_t` of a bit pattern.
unfoldable pub of_i32 : ℕ → ℤ
of_i32 w = if ltb w (2 ^ 31) then pos w else negsuc (2 ^ 32 - 1 - w)

-- The integers that an `int32_t` holds.
abbrev pub IsI32 : ℤ → Type 0
IsI32 (pos n) = n < 2 ^ 31
IsI32 (negsuc n) = n < 2 ^ 31

pub to_u32-lt : (z : ℤ) → to_u32 z < 2 ^ 32
unfolding to_u32
to_u32-lt (pos n) = omega arith
to_u32-lt (negsuc n) = omega arith

-- An integer in the range of `int32_t` comes back from its bit pattern.
pub of_i32-to_u32 : (z : ℤ) → IsI32 z → of_i32 (to_u32 z) ≡ z
unfolding to_u32 of_i32
of_i32-to_u32 (pos n) h = ground arith
of_i32-to_u32 (negsuc n) h = ground arith
