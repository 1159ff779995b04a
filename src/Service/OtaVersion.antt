-- ===== src/Service/OtaVersion.antt =====
-- components/service/ota_manifest.cpp: the version numbers of firmware images, and the test whether
-- an update would go back to an older one. A C string is the list of its bytes.
pub mod Parsing
pub mod Order
use zigbee_gateway_v.Common.{
  ℕ, zero, suc, ◌+◌, ◌-◌, ◌*◌, ◌%◌, ◌≤◌, ◌<◌, ◌≡◌, refl, ap, ◌∙◌, Bool, true, false, not, ◌&&◌,
  ◌||◌, Option, none, some, List, [], ◌∷◌, ◌++◌, map, arith, ltb, leb, ◌==◌, if◌then◌else◌, length,
  get_or, u32, Bool-cases, inl, inr,
}
use mathlib.Core.Option

abbrev pub max_parts : ℕ
max_parts = 4

-- `std::isdigit`, in the C locale.
abbrev pub is_digit : ℕ → Bool
is_digit c = leb 0x30 c && leb c 0x39

abbrev pub dot : ℕ
dot = 0x2e

-- `(part * 10U) + static_cast<uint32_t>(*cursor - '0')`.
abbrev pub next_part : ℕ → ℕ → ℕ
next_part part c = u32 (part * 10 + (c - 0x30))

-- The loops of `parse_dotted_numeric_version`: within a part or at the start of one, with the room
-- for more parts and the part so far.
unfoldable pub scan : Bool → ℕ → ℕ → List ℕ → Option (List ℕ)
scan true room part [] = some (part ∷ [])
scan false room part [] = none
scan true room part (c ∷ cs) =
    let after_dot = Option.map (◌∷◌ part) (scan false room 0 cs) in
    let more = scan true room (next_part part c) cs in
    if c == dot then after_dot else if is_digit c then more else none
scan false room part (c ∷ cs) =
    let first = scan true (room - 1) (next_part 0 c) cs in
    if room == 0 then none else if is_digit c then first else none

unfoldable pub parse_dotted_numeric_version : List ℕ → ℕ → Option (List ℕ)
parse_dotted_numeric_version value part_capacity =
    if part_capacity == 0 then none else scan false part_capacity 0 value

-- The loop of `is_downgrade` for the indices from `index` on, as many as `count`; a part that is
-- missing is 0.
unfoldable pub older_from : ℕ → ℕ → List ℕ → List ℕ → Bool
older_from zero index requested current = false
older_from (suc count) index requested current =
    let rest = older_from count (index + 1) requested current in
    let lhs = get_or requested index 0 in
    let rhs = get_or current index 0 in
    if ltb lhs rhs then true else if ltb rhs lhs then false else rest

-- The loop of `is_downgrade` on the parts of both versions.
unfoldable pub older : List ℕ → List ℕ → Bool
older requested current =
    older_from
      (if ltb (length current) (length requested) then length requested else length current) 0
      requested current

unfoldable pub is_downgrade : List ℕ → List ℕ → Bool
is_downgrade requested current = elim (parse_dotted_numeric_version requested max_parts) [
  | none ↦ false
  | some r ↦ elim (parse_dotted_numeric_version current max_parts) [
    | none ↦ false
    | some c ↦ older r c
  ]
]
