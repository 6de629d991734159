-- ===== src/Base/Int.antt =====
-- Signed integers over the native numbers, and the casts between them and machine words.
use Prim.Native.Nat.{ℕ, ◌-◌, ◌%◌, ◌^◌, ◌<◌}
use mathlib.Core.Path.{◌≡◌}
use native.Mathlib.Omega.{arith}
use long.Base.Tests.{ltb, if◌then◌else◌}

-- `negsuc n` is -(n + 1).
pub data ℤ : Type 0 where
  pos : ℕ → ℤ
  negsuc : ℕ → ℤ

-- The range of a signed integer of 16 and of 32 bits.
abbrev pub IsI16 : ℤ → Type 0
IsI16 (pos n) = n < 2 ^ 15
IsI16 (negsuc n) = n < 2 ^ 15

abbrev pub IsI32 : ℤ → Type 0
IsI32 (pos n) = n < 2 ^ 31
IsI32 (negsuc n) = n < 2 ^ 31

-- `static_cast<uint16_t>` and `static_cast<uint32_t>`: the residue of the integer.
abbrev pub to_u16 : ℤ → ℕ
to_u16 (pos n) = n % 2 ^ 16
to_u16 (negsuc n) = 2 ^ 16 - 1 - n % 2 ^ 16

abbrev pub to_u32 : ℤ → ℕ
to_u32 (pos n) = n % 2 ^ 32
to_u32 (negsuc n) = 2 ^ 32 - 1 - n % 2 ^ 32

-- The integer that a word stands for in two's complement.
abbrev pub of_u16 : ℕ → ℤ
of_u16 w = if ltb w (2 ^ 15) then pos w else negsuc (2 ^ 16 - 1 - w)

abbrev pub of_u32 : ℕ → ℤ
of_u32 w = if ltb w (2 ^ 31) then pos w else negsuc (2 ^ 32 - 1 - w)

-- The nearest integer of 64 bits.
abbrev pub clamp : ℤ → ℤ
clamp (pos n) = pos (if ltb n (2 ^ 63) then n else 2 ^ 63 - 1)
clamp (negsuc n) = negsuc (if ltb n (2 ^ 63) then n else 2 ^ 63 - 1)

abbrev pub IsI64 : ℤ → Type 0
IsI64 (pos n) = n < 2 ^ 63
IsI64 (negsuc n) = n < 2 ^ 63

pub clamp-IsI64 : (z : ℤ) → IsI64 z → clamp z ≡ z
clamp-IsI64 (pos n) h = ground arith
clamp-IsI64 (negsuc n) h = ground arith

pub i32-IsI64 : (z : ℤ) → IsI32 z → IsI64 z
i32-IsI64 (pos n) h = omega arith
i32-IsI64 (negsuc n) h = omega arith

pub of_u16-to_u16 : (z : ℤ) → IsI16 z → of_u16 (to_u16 z) ≡ z
of_u16-to_u16 (pos n) h = ground arith
of_u16-to_u16 (negsuc n) h = ground arith

pub of_u32-to_u32 : (z : ℤ) → IsI32 z → of_u32 (to_u32 z) ≡ z
of_u32-to_u32 (pos n) h = ground arith
of_u32-to_u32 (negsuc n) h = ground arith

pub to_u16-lt : (z : ℤ) → to_u16 z < 2 ^ 16
to_u16-lt (pos n) = omega arith
to_u16-lt (negsuc n) = omega arith

pub to_u32-lt : (z : ℤ) → to_u32 z < 2 ^ 32
to_u32-lt (pos n) = omega arith
to_u32-lt (negsuc n) = omega arith
