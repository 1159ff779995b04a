-- ===== src/Common/Table.antt =====
-- Facts about the bits of small numbers, by checking every value of a small range.
use Prim.Native.Nat.{ℕ, zero, suc, ◌*◌, ◌/◌, ◌%◌, ◌<◌, bit_and, bit_or}
use mathlib.Core.Path.{◌≡◌, refl}
use mathlib.Core.Bool.{Bool, true, false}
use native.Mathlib.Omega.{arith}
use zigbee_gateway_v.Common.Tests.{◌==◌, ==→eq, if◌then◌else◌}

-- `test` holds of every number under the bound.
holds_under : (test : ℕ → Bool) (bound : ℕ) → Bool
holds_under test zero = true
holds_under test (suc top) = if test top then holds_under test top else false

holds_under_lem :
    (test : ℕ → Bool) (bound x : ℕ) → x < bound → holds_under test bound ≡ true → test x ≡ true
unfolding holds_under
holds_under_lem test zero x small all = absurd (omega arith)
holds_under_lem test (suc top) x small all = ground (arith, holds_under_lem test top x)

low_nibble_table : holds_under (λ x. bit_and x 0x0f == x % 16) 256 ≡ true
unfolding holds_under
low_nibble_table = refl

pub bit_and-low_nibble : (x : ℕ) → x < 256 → bit_and x 0x0f ≡ x % 16
bit_and-low_nibble x h = ==→eq _ _ (holds_under_lem _ 256 x h low_nibble_table)

nibbles_table : holds_under (λ x. bit_or (x / 16 * 16) (x % 16) == x) 256 ≡ true
unfolding holds_under
nibbles_table = refl

pub bit_or-nibbles : (x : ℕ) → x < 256 → bit_or (x / 16 * 16) (x % 16) ≡ x
bit_or-nibbles x h = ==→eq _ _ (holds_under_lem _ 256 x h nibbles_table)

no_high_table : holds_under (λ x. bit_or 0 x == x) 256 ≡ true
unfolding holds_under
no_high_table = refl

pub zero-bit_or : (x : ℕ) → x < 256 → bit_or 0 x ≡ x
zero-bit_or x h = ==→eq _ _ (holds_under_lem _ 256 x h no_high_table)
