-- ===== src/Common/Words.antt =====
-- Fixed-width integers. An unsigned value is a number with its wrap-around written out; a signed
-- one is an integer of `ℤ`.
use Prim.Native.Nat.{ℕ, ◌+◌, ◌-◌, ◌%◌}

abbrev pub u8 : ℕ → ℕ
u8 n = n % 0x100

abbrev pub u16 : ℕ → ℕ
u16 n = n % 0x10000

abbrev pub u32 : ℕ → ℕ
u32 n = n % 0x100000000

-- `a - b` in uint32_t.
abbrev pub sub_u32 : ℕ → ℕ → ℕ
sub_u32 a b = (a + 0x100000000 - b) % 0x100000000
