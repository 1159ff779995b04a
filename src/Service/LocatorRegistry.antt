-- ===== src/Service/LocatorRegistry.antt =====
-- components/service/device_locator_registry.cpp: which network address each device has. A slot is
-- the pair of the elements of `in_use_` and `entries_` at one index.
pub mod Slots
pub mod Laws
pub mod Lookups
pub mod Remap
pub mod Removal
use zigbee_gateway_v.Common.{
  ℕ, ◌+◌, ◌-◌, Bool, true, false, not, ◌&&◌, ◌||◌, Option, none, some, List, ◌==◌, if◌then◌else◌,
  get_or, set, replicate, find_index, u32,
}
use zigbee_gateway_v.Core.DeviceId.{DeviceId, no_id, id_eq, valid}

abbrev pub max_entries : ℕ
max_entries = 64

abbrev pub unknown_short_addr : ℕ
unknown_short_addr = 0xffff

pub data DeviceLocatorStatus : Type 0 where
  offline online : DeviceLocatorStatus

abbrev pub is_online : DeviceLocatorStatus → Bool
is_online DeviceLocatorStatus.offline = false
is_online DeviceLocatorStatus.online = true

pub record DeviceLocatorEntry : Type 0 where
  pub device_id : DeviceId
  pub short_addr : ℕ  -- uint16_t
  pub status : DeviceLocatorStatus
  pub mapping_revision : ℕ  -- uint32_t

abbrev pub no_entry : DeviceLocatorEntry
no_entry = record {
  device_id = no_id;
  short_addr = unknown_short_addr;
  status = DeviceLocatorStatus.offline;
  mapping_revision = 0;
}

pub data DeviceLocatorRemapResult : Type 0 where
  inserted updated displaced invalid_argument no_capacity : DeviceLocatorRemapResult

pub record Slot : Type 0 where
  pub in_use : Bool
  pub entry : DeviceLocatorEntry

abbrev pub no_slot : Slot
no_slot = record { in_use = false; entry = no_entry }

pub record DeviceLocatorRegistry : Type 0 where
  pub slots : List Slot
  pub count : ℕ  -- size_t
  pub next_revision : ℕ  -- uint32_t

-- The constructor, and `clear`.
abbrev pub cleared : DeviceLocatorRegistry
cleared = record { slots = replicate max_entries no_slot; count = 0; next_revision = 1 }

abbrev pub slot_at : DeviceLocatorRegistry → ℕ → Slot
slot_at r i = get_or r.slots i no_slot

abbrev pub has_device_id : DeviceId → Slot → Bool
has_device_id id s = s.in_use && id_eq s.entry.device_id id

abbrev pub owns_short_addr : ℕ → Slot → Bool
owns_short_addr a s = (s.in_use && is_online s.entry.status) && s.entry.short_addr == a

abbrev pub is_free : Slot → Bool
is_free s = not s.in_use

abbrev pub find_slot_by_device_id : DeviceLocatorRegistry → DeviceId → Option ℕ
find_slot_by_device_id r id = find_index (has_device_id id) r.slots

abbrev pub find_slot_by_short_addr : DeviceLocatorRegistry → ℕ → Option ℕ
find_slot_by_short_addr r a = find_index (owns_short_addr a) r.slots

abbrev pub find_free_slot : DeviceLocatorRegistry → Option ℕ
find_free_slot r = find_index is_free r.slots

abbrev pub take_offline : Slot → Slot
take_offline s = record s { entry = record s.entry { status = DeviceLocatorStatus.offline } }

-- The slot that `remap` writes, the existing one or else a free one, and its result so far.
unfoldable pub target_slot :
    DeviceLocatorRegistry → DeviceId → Option (ℕ × DeviceLocatorRemapResult)
target_slot r id = elim (find_slot_by_device_id r id) [
  | some i ↦ some (i, DeviceLocatorRemapResult.updated)
  | none ↦ elim (find_free_slot r) [
    | some i ↦ some (i, DeviceLocatorRemapResult.inserted)
    | none ↦ none
  ]
]

-- Another device that owns the address goes offline.
unfoldable pub displace :
    DeviceLocatorRegistry
    → ℕ
    → ℕ
    → DeviceLocatorRemapResult
    → DeviceLocatorRegistry × DeviceLocatorRemapResult
displace r t a result = elim (find_slot_by_short_addr r a) [
  | none ↦ (r, result)
  | some o ↦ if o == t then (r, result) else (
    record r { slots = set r.slots o (take_offline (slot_at r o)) },
    DeviceLocatorRemapResult.displaced,
  )
]

abbrev pub mapping : DeviceId → ℕ → ℕ → Slot
mapping id a revision = record {
  in_use = true;
  entry = record {
    device_id = id;
    short_addr = a;
    status = DeviceLocatorStatus.online;
    mapping_revision = revision;
  };
}

-- The new mapping in slot `t`, which counts if the slot was free.
abbrev pub install : DeviceLocatorRegistry → ℕ → DeviceId → ℕ → DeviceLocatorRegistry
install r t id a = record {
  slots = set r.slots t (mapping id a r.next_revision);
  count = if not (slot_at r t).in_use then r.count + 1 else r.count;
  next_revision = u32 (r.next_revision + 1);
}

-- The new registry, the result, and the revision written on success.
unfoldable pub remap :
    DeviceLocatorRegistry
    → DeviceId
    → ℕ
    → DeviceLocatorRegistry × DeviceLocatorRemapResult × Option ℕ
remap r id a =
    if not (valid id) || a == unknown_short_addr
    then (r, DeviceLocatorRemapResult.invalid_argument, none)
    else elim (target_slot r id) [
      | none ↦ (r, DeviceLocatorRemapResult.no_capacity, none)
      | some (t, result) ↦
          let (r', result') = displace r t a result in
          (install r' t id a, result', some r.next_revision)
    ]

unfoldable pub mark_offline : DeviceLocatorRegistry → DeviceId → DeviceLocatorRegistry × Bool
mark_offline r id = elim (find_slot_by_device_id r id) [
  | none ↦ (r, false)
  | some i ↦ (record r { slots = set r.slots i (take_offline (slot_at r i)) }, true)
]

unfoldable pub remove : DeviceLocatorRegistry → DeviceId → DeviceLocatorRegistry × Bool
remove r id = elim (find_slot_by_device_id r id) [
  | none ↦ (r, false)
  | some i ↦ (record r { slots = set r.slots i no_slot; count = r.count - 1 }, true)
]

abbrev entry_found : DeviceLocatorRegistry → Option ℕ → Option DeviceLocatorEntry
entry_found r none = none
entry_found r (some i) = some (slot_at r i).entry

unfoldable pub find_by_device_id : DeviceLocatorRegistry → DeviceId → Option DeviceLocatorEntry
find_by_device_id r id = entry_found r (find_slot_by_device_id r id)

unfoldable pub find_by_short_addr : DeviceLocatorRegistry → ℕ → Option DeviceLocatorEntry
find_by_short_addr r a = entry_found r (find_slot_by_short_addr r a)
