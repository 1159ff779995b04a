-- ===== src/Core/DeviceId.antt =====
-- components/core/include/device_id.hpp and components/core/device_id.cpp: the durable identity of
-- a device, an EUI-64 as eight bytes, most significant first. Characters are their ASCII codes. A
-- text argument is the list of its `len` characters, and an out parameter is the result: the
-- checks against null pointers have no counterpart.
pub mod Order
pub mod Text
use Prim.Native.Nat.{bit_and, bit_or}
use zigbee_gateway_v.Common.{
  ℕ, zero, suc, ◌+◌, ◌-◌, ◌*◌, ◌/◌, ◌≡◌, refl, ap, Bool, true, false, not, ◌&&◌, Option, none, some,
  List, [], ◌∷◌, arith, ltb, leb, ◌==◌, ==→eq, ==_refl, if◌then◌else◌, length, get_or, replicate,
  u8, Bool-cases, inl, inr,
}

-- `kByteLength` and `kHexLength`.
abbrev pub byte_length : ℕ
byte_length = 8

abbrev pub hex_length : ℕ
hex_length = 16

pub record DeviceId : Type 0 where
  pub bytes : List ℕ

-- `DeviceId{}`: all bytes zero.
abbrev pub no_id : DeviceId
no_id = record { bytes = replicate byte_length 0 }

-- `std::array::operator==`.
unfoldable pub bytes_eq : List ℕ → List ℕ → Bool
bytes_eq [] [] = true
bytes_eq [] (y ∷ ys) = false
bytes_eq (x ∷ xs) [] = false
bytes_eq (x ∷ xs) (y ∷ ys) = x == y && bytes_eq xs ys

unfoldable pub id_eq : DeviceId → DeviceId → Bool
id_eq a b = bytes_eq a.bytes b.bytes

-- The loop of `valid`, with its two flags.
valid_flags : List ℕ → Bool → Bool → Bool
valid_flags [] all_zero all_ff = not all_zero && not all_ff
valid_flags (b ∷ bs) all_zero all_ff =
    valid_flags bs (if b == 0 then all_zero else false) (if b == 0xff then all_ff else false)

unfoldable pub valid : DeviceId → Bool
unfolding valid_flags
valid d = valid_flags d.bytes true true

-- `operator<`: the first byte that differs decides.
less_bytes : List ℕ → List ℕ → Bool
less_bytes [] _ = false
less_bytes (x ∷ xs) [] = false
less_bytes (x ∷ xs) (y ∷ ys) = if x == y then less_bytes xs ys else ltb x y

unfoldable pub less : DeviceId → DeviceId → Bool
unfolding less_bytes
less a b = less_bytes a.bytes b.bytes

unfoldable pub hex_nibble : ℕ → Option ℕ
hex_nibble c =
    if leb b'0' c && leb c b'9'
    then some (u8 (c - b'0'))
    else if leb b'a' c && leb c b'f'
    then some (u8 (c - b'a' + 10))
    else none

-- The byte of two nibbles: `(high << 4) | low` as uint8_t.
abbrev pub join_nibbles : ℕ → ℕ → ℕ
join_nibbles high low = u8 (bit_or (high * 16) low)

infixl 5 ◌>>=◌
abbrev pub ◌>>=◌ : {A B : Type 0} → Option A → (A → Option B) → Option B
none >>= f = none
some a >>= f = f a

-- The loop of `parse`, with the rounds that are left and the index of the byte.
unfoldable pub parse_bytes : ℕ → ℕ → List ℕ → Option (List ℕ)
parse_bytes zero i text = some []
parse_bytes (suc n) i text = do
  high ← hex_nibble (get_or text (i * 2) 0)
  low ← hex_nibble (get_or text (i * 2 + 1) 0)
  rest ← parse_bytes n (i + 1) text
  some (join_nibbles high low ∷ rest)

unfoldable pub parse : List ℕ → Option DeviceId
parse text =
    if length text == hex_length
    then (parse_bytes byte_length 0 text >>= λ bytes. some (record { bytes = bytes }))
    else none

-- `kHexDigits[n]`, for n below 16.
abbrev pub hex_digit : ℕ → ℕ
hex_digit n = if ltb n 10 then b'0' + n else b'a' + (n - 10)

unfoldable pub format_bytes : List ℕ → List ℕ
format_bytes [] = []
format_bytes (b ∷ bs) =
    hex_digit (bit_and (b / 16) 0x0f) ∷ hex_digit (bit_and b 0x0f) ∷ format_bytes bs

-- `format` into a buffer of `out_capacity` characters.
unfoldable pub format : DeviceId → ℕ → Option (List ℕ)
format d out_capacity = if ltb out_capacity hex_length then none else some (format_bytes d.bytes)

pub bytes_eq→eq : (xs ys : List ℕ) → bytes_eq xs ys ≡ true → xs ≡ ys
unfolding bytes_eq
bytes_eq→eq [] [] h = refl
bytes_eq→eq [] (y ∷ ys) h = cc
bytes_eq→eq (x ∷ xs) [] h = cc
bytes_eq→eq (x ∷ xs) (y ∷ ys) h = ground (arith, bytes_eq→eq xs ys)

pub bytes_eq_refl : (xs : List ℕ) → bytes_eq xs xs ≡ true
unfolding bytes_eq
bytes_eq_refl [] = refl
bytes_eq_refl (x ∷ xs) = ground (arith, bytes_eq_refl xs)

pub id_eq→eq : (a b : DeviceId) → id_eq a b ≡ true → a ≡ b
unfolding id_eq
id_eq→eq a b h = ap (λ (x : List ℕ). record { bytes = x }) (bytes_eq→eq a.bytes b.bytes h)

pub id_eq_refl : (a : DeviceId) → id_eq a a ≡ true
unfolding id_eq
id_eq_refl a = bytes_eq_refl a.bytes

pub no_id_invalid : valid no_id ≡ false
unfolding valid
no_id_invalid = refl
