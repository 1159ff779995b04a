-- ===== src/Common/Int.antt =====
-- Signed integers over the native numbers, and the casts between fixed-width integers that the
-- code makes: int32_t to int16_t, uint8_t, uint16_t, int8_t, and int32_t to uint32_t and back.
use zigbee_gateway_v.Common.Tests.{ltb, leb, if◌then◌else◌, ◌==◌}
use Prim.Native.Nat.{ℕ, suc, ◌+◌, ◌-◌, ◌%◌, ◌≤◌, ◌<◌}
use mathlib.Core.Bool.{Bool}
use mathlib.Core.Path.{◌≡◌}
use native.Mathlib.Omega.{arith}

-- `negsuc n` is -(n + 1).
pub data ℤ : Type 0 where
  pos : ℕ → ℤ
  negsuc : ℕ → ℤ

abbrev pub pos_part : ℤ → ℕ
pos_part (pos n) = n
pos_part (negsuc n) = 0

abbrev pub neg_part : ℤ → ℕ
neg_part (pos n) = 0
neg_part (negsuc n) = suc n

infix 50 ◌≤ℤ◌
abbrev pub ◌≤ℤ◌ : ℤ → ℤ → Type 0
a ≤ℤ b = pos_part a + neg_part b ≤ pos_part b + neg_part a

abbrev pub leb_ℤ : ℤ → ℤ → Bool
leb_ℤ a b = leb (pos_part a + neg_part b) (pos_part b + neg_part a)

abbrev pub eqb_ℤ : ℤ → ℤ → Bool
eqb_ℤ a b = pos_part a + neg_part b == pos_part b + neg_part a

pub eqb_ℤ→eq : (a b : ℤ) → eqb_ℤ a b ≡ Bool.true → a ≡ b
eqb_ℤ→eq a b h = ground arith

-- The bit pattern of an int32_t: `static_cast<uint32_t>`.
abbrev pub to_u32 : ℤ → ℕ
to_u32 (pos n) = n % 0x100000000
to_u32 (negsuc n) = 0xffffffff - n % 0x100000000

-- The integer of a bit pattern of 16 bits, 32 bits: `static_cast<int16_t>`, `static_cast<int32_t>`.
abbrev pub i16_of_bits : ℕ → ℤ
i16_of_bits n = if ltb n 0x8000 then pos n else negsuc (0xffff - n)

abbrev pub i32_of_bits : ℕ → ℤ
i32_of_bits n = if ltb n 0x80000000 then pos n else negsuc (0xffffffff - n)

abbrev pub to_i16 : ℤ → ℤ
to_i16 z = i16_of_bits (to_u32 z % 0x10000)

-- An int32_t holds values from -2³¹ to 2³¹ - 1.
abbrev pub IsInt32 : ℤ → Type 0
IsInt32 z = record { low : neg_part z ≤ 0x80000000; high : pos_part z < 0x80000000 }
