-- ===== src/Service/LocatorRegistry/Slots.antt =====
-- components/service/device_locator_registry.cpp: searches in tables where no device has two slots
-- and no address two online devices.
use zigbee_gateway_v.Common.{
  ℕ, ◌≡◌, refl, ap, Bool, true, false, not, ◌&&◌, none, some, List, arith, ◌==◌, Bool-cases,
  Option-cases, inl, inr, if◌then◌else◌, length, get_or, get_or-ge, find_index, find_index-some,
  find_index-none, find_index-only, dec_lt,
}
use zigbee_gateway_v.Core.DeviceId.{DeviceId, id_eq, id_eq→eq}
use zigbee_gateway_v.Service.LocatorRegistry.{
  Slot, no_slot, has_device_id, owns_short_addr, take_offline, mapping,
}

abbrev pub slot_in : List Slot → ℕ → Slot
slot_in ss i = get_or ss i no_slot

-- At most one slot passes a test.
abbrev pub Single : (Slot → Bool) → List Slot → Type 0
Single p ss = (i j : ℕ) → p (slot_in ss i) ≡ true → p (slot_in ss j) ≡ true → i ≡ j

pub find-absent :
    (p : Slot → Bool) (ss : List Slot)
    → ((j : ℕ) → p (slot_in ss j) ≡ false)
    → find_index p ss ≡ none
find-absent p ss h = elim (Option-cases (find_index p ss)) [
  | inl e ↦ e
  | inr (i, e) ↦ absurd (ground (arith, find_index-some p ss i no_slot e, h i))
]

pub find_lone :
    (p : Slot → Bool) (ss : List Slot) (k : ℕ)
    → p no_slot ≡ false
    → Single p ss
    → p (slot_in ss k) ≡ true
    → find_index p ss ≡ some k
find_lone p ss k out one hit = elim (dec_lt k (length ss)) [
  | yes lt ↦ find_index-only p ss k no_slot lt hit (λ j l. elim (Bool-cases (p (slot_in ss j))) [
    | inl other ↦ absurd (omega (arith, one j k other hit))
    | inr e ↦ e
  ])
  | no ge ↦ absurd (ground (arith, ap p (get_or-ge ss k no_slot (omega arith))))
]

pub find-found :
    (p : Slot → Bool) (ss : List Slot) (k : ℕ) → find_index p ss ≡ some k → p (slot_in ss k) ≡ true
find-found p ss k h = (find_index-some p ss k no_slot h).1

-- A search that finds nothing meets no slot that passes.
pub find-missed :
    (p : Slot → Bool) (ss : List Slot) (j : ℕ)
    → p no_slot ≡ false
    → find_index p ss ≡ none
    → p (slot_in ss j) ≡ false
find-missed p ss j out h = elim (dec_lt j (length ss)) [
  | yes lt ↦ find_index-none p ss j no_slot h lt
  | no ge ↦ rw (get_or-ge ss j no_slot (omega arith)) out
]

-- The slot of a device that loses address `a`.
abbrev pub without : ℕ → Slot → Slot
without a s = if owns_short_addr a s then take_offline s else s

pub has_device_id-without :
    (id : DeviceId) (a : ℕ) (s : Slot) → has_device_id id (without a s) ≡ has_device_id id s
has_device_id-without id a s = elim (Bool-cases (owns_short_addr a s)) [
  | inl e ↦ rw e refl
  | inr e ↦ rw e refl
]

pub owns-without :
    (a' a : ℕ) (s : Slot) → owns_short_addr a' (without a s) ≡ owns_short_addr a' s && not (a == a')
owns-without a' a s = elim (Bool-cases (owns_short_addr a s)) [
  | inl e ↦ rw e (ground (arith, e))
  | inr e ↦ rw e (ground (arith, e))
]

-- The table after a remap of `id` to `a` in slot `t`.
abbrev pub IsRemapped : List Slot → List Slot → ℕ → DeviceId → ℕ → ℕ → Type 0
IsRemapped ss ss' t id a revision =
    (k : ℕ) → slot_in ss' k ≡ (if t == k then mapping id a revision else without a (slot_in ss k))

module _ (ss ss' : List Slot) (t : ℕ) (id : DeviceId) (a revision : ℕ)
    (remapped : IsRemapped ss ss' t id a revision)
    (own : (k : ℕ) → has_device_id id (slot_in ss k) ≡ true → k ≡ t) where
  pub has_device_id-remapped :
      (id' : DeviceId) (k : ℕ)
      → has_device_id id' (slot_in ss' k)
        ≡ (if t == k then id_eq id id' else has_device_id id' (slot_in ss k))
  has_device_id-remapped id' k = elim (Bool-cases (t == k)) [
    | inl e ↦ rw (remapped k, e) refl
    | inr e ↦ rw (remapped k, e) (has_device_id-without id' a (slot_in ss k))
  ]

  pub owns-remapped :
      (a' k : ℕ)
      → owns_short_addr a' (slot_in ss' k)
        ≡ (if t == k then a == a' else (owns_short_addr a' (slot_in ss k) && not (a == a')))
  owns-remapped a' k = elim (Bool-cases (t == k)) [
    | inl e ↦ rw (remapped k, e) refl
    | inr e ↦ rw (remapped k, e) (owns-without a' a (slot_in ss k))
  ]

  pub devices-remapped :
      ((id' : DeviceId) → Single (has_device_id id') ss)
      → (id' : DeviceId) → Single (has_device_id id') ss'
  devices-remapped one id' i j = ground (
    arith,
    has_device_id-remapped id' i,
    has_device_id-remapped id' j,
    one id' i j,
    id_eq→eq id id',
    own i,
    own j,
  )

  pub owners-remapped :
      ((a' : ℕ) → Single (owns_short_addr a') ss) → (a' : ℕ) → Single (owns_short_addr a') ss'
  owners-remapped one a' i j = ground (arith, owns-remapped a' i, owns-remapped a' j, one a' i j)
