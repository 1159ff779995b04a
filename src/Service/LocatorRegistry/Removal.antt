-- ===== src/Service/LocatorRegistry/Removal.antt =====
-- components/service/device_locator_registry.cpp: what `remove` does to the two maps.
use zigbee_gateway_v.Common.{
  ℕ, ◌+◌, ◌-◌, ◌<◌, ◌≡◌, refl, sym, ap, ◌∙◌, ◌≢◌, Bool, true, false, not, ◌&&◌, none, some, List,
  arith, ◌==◌, ==→eq, Bool-cases, Option-cases, inl, inr, if◌then◌else◌, length, length-set, set,
  get_or-set_ne, get_or-set_self, find_index, find_index-some, count_if-set, count_if-pos,
}
use zigbee_gateway_v.Core.DeviceId.{DeviceId, id_eq, id_eq→eq, id_eq_refl}
use zigbee_gateway_v.Service.LocatorRegistry.{
  Slot, no_slot, DeviceLocatorRegistry, has_device_id, owns_short_addr, slot_at, find_by_device_id,
  find_by_short_addr, remove,
}
use zigbee_gateway_v.Service.LocatorRegistry.Slots.{
  slot_in, Single, find-absent, find_lone, find-found, find-missed,
}
use zigbee_gateway_v.Service.LocatorRegistry.Laws.{is_used, Inv}
use zigbee_gateway_v.Service.LocatorRegistry.Lookups.{
  unless_of, by_device_id, by_short_addr, no_device_id, no_short_addr,
}

abbrev cleared_slots : List Slot → ℕ → List Slot
cleared_slots ss i = set ss i no_slot

module _ (p : Slot → Bool) (out : p no_slot ≡ false) (ss : List Slot) (i : ℕ)
    (lt : i < length ss) where
  pass-cleared : (k : ℕ) → p (slot_in (cleared_slots ss i) k) ≡ not (i == k) && p (slot_in ss k)
  pass-cleared k = elim (Bool-cases (i == k)) [
    | inl e ↦ rw (e, sym (==→eq i k e), get_or-set_self ss i no_slot no_slot lt) out
    | inr e ↦ rw (e, get_or-set_ne ss i no_slot k no_slot (ground (arith, e))) refl
  ]

  Single-cleared : Single p ss → Single p (cleared_slots ss i)
  Single-cleared one j k = ground (arith, pass-cleared j, pass-cleared k, one j k)

  find-cleared :
      Single p ss
      → (k : ℕ) → find_index p ss ≡ some k
      → find_index p (cleared_slots ss i) ≡ (if i == k then none else some k)
  find-cleared one k h = elim (Bool-cases (i == k)) [
    | inl e ↦ rw e (
        find-absent p (cleared_slots ss i)
          (λ j. ground (arith, e, pass-cleared j, one j k, find-found p ss k h)))
    | inr e ↦ rw e (
        find_lone p (cleared_slots ss i) k out (Single-cleared one)
          (ground (arith, e, pass-cleared k, find-found p ss k h)))
  ]

  find-cleared_none : find_index p ss ≡ none → find_index p (cleared_slots ss i) ≡ none
  find-cleared_none h =
      find-absent p (cleared_slots ss i)
        (λ j. ground (arith, pass-cleared j, find-missed p ss j out h))

-- What `remove` promises, in terms of the two maps.
pub data Removed (r : DeviceLocatorRegistry) (id : DeviceId)
    : DeviceLocatorRegistry × Bool → Type 0 where
  unknown : find_by_device_id r id ≡ none → Removed r id (r, false)
  gone :
      (r' : DeviceLocatorRegistry)
      → find_by_device_id r id ≢ none
      → ((id' : DeviceId)
          → find_by_device_id r' id' ≡ (if id_eq id id' then none else find_by_device_id r id'))
      → ((a : ℕ) → find_by_short_addr r' a ≡ unless_of id (find_by_short_addr r a))
      → r'.count + 1 ≡ r.count
      → r'.next_revision ≡ r.next_revision
      → Inv r'
      → Removed r id (r', true)

module _ (r : DeviceLocatorRegistry) (inv : Inv r) (id : DeviceId) (i : ℕ)
    (h : find_index (has_device_id id) r.slots ≡ some i) where
  after : DeviceLocatorRegistry
  after = record r { slots = set r.slots i no_slot; count = r.count - 1 }

  lt : i < length r.slots
  lt = (find_index-some (has_device_id id) r.slots i no_slot h).0

  hit : has_device_id id (slot_at r i) ≡ true
  hit = find-found (has_device_id id) r.slots i h

  counted : r.count - 1 + 1 ≡ r.count
  counted = ground (arith, hit, inv.counted, count_if-pos is_used r.slots i no_slot lt)

  after-Inv : Inv after
  unfolding after
  after-Inv = record {
    size = length-set r.slots i no_slot ∙ inv.size;
    devices = λ id'. Single-cleared (has_device_id id') refl r.slots i lt (inv.devices id');
    owners = λ a. Single-cleared (owns_short_addr a) refl r.slots i lt (inv.owners a);
    counted =
        ground
          (arith, hit, counted, inv.counted, count_if-set is_used r.slots i no_slot no_slot lt);
  }

  -- Slot `i` is that of a device exactly if the device is `id`.
  slot_of_id :
      (id' : DeviceId) (k : ℕ)
      → find_index (has_device_id id') r.slots ≡ some k
      → (i == k) ≡ id_eq id id'
  slot_of_id id' k e =
      let found = find-found (has_device_id id') r.slots k e in
      elim (Bool-cases (id_eq id id')) [
        | inl same ↦ ground (arith, same, id_eq→eq id id' same, hit, found, inv.devices id' i k)
        | inr other ↦ ground (
          arith,
          other,
          hit,
          found,
          id_eq→eq (slot_at r k).entry.device_id id,
          id_eq→eq (slot_at r k).entry.device_id id',
          id_eq_refl id,
        )
      ]

  -- The slot of an owner is slot `i` exactly if it is of the device.
  slot_of_owner :
      (a k : ℕ)
      → find_index (owns_short_addr a) r.slots ≡ some k
      → (i == k) ≡ id_eq (slot_at r k).entry.device_id id
  slot_of_owner a k e =
      ground (arith, hit, find-found (owns_short_addr a) r.slots k e, inv.devices id i k)

  same_entry : (k : ℕ) → (i == k) ≡ false → some (slot_at after k).entry ≡ some (slot_at r k).entry
  unfolding after
  same_entry k e =
      ap (λ (s : Slot). some s.entry)
        (get_or-set_ne r.slots i no_slot k no_slot (ground (arith, e)))

  after-device :
      (id' : DeviceId)
      → find_by_device_id after id' ≡ (if id_eq id id' then none else find_by_device_id r id')
  unfolding after
  after-device id' = elim (Option-cases (find_index (has_device_id id') r.slots)) [
    | inl e ↦ rw (no_device_id r id' e) (
        no_device_id after id' (find-cleared_none (has_device_id id') refl r.slots i lt e)
        ∙ ground arith)
    | inr (k, e) ↦
        let moved = find-cleared (has_device_id id') refl r.slots i lt (inv.devices id') k e in
        rw (by_device_id r id' k e, sym (slot_of_id id' k e))
          (elim (Bool-cases (i == k)) [
            | inl s ↦ rw s (no_device_id after id' (moved ∙ rw s refl))
            | inr d ↦ rw d (by_device_id after id' k (moved ∙ rw d refl) ∙ same_entry k d)
          ])
  ]

  after-owner : (a : ℕ) → find_by_short_addr after a ≡ unless_of id (find_by_short_addr r a)
  unfolding after
  after-owner a = elim (Option-cases (find_index (owns_short_addr a) r.slots)) [
    | inl e ↦
        rw (no_short_addr r a e)
          (no_short_addr after a (find-cleared_none (owns_short_addr a) refl r.slots i lt e))
    | inr (k, e) ↦
        let moved = find-cleared (owns_short_addr a) refl r.slots i lt (inv.owners a) k e in
        rw (by_short_addr r a k e, sym (slot_of_owner a k e))
          (elim (Bool-cases (i == k)) [
            | inl s ↦ rw s (no_short_addr after a (moved ∙ rw s refl))
            | inr d ↦ rw d (by_short_addr after a k (moved ∙ rw d refl) ∙ same_entry k d)
          ])
  ]

-- Under the invariant of the registry, `remove` changes nothing for a device it does not know;
-- else the device is forgotten, an address it owned belongs to nobody, no other device or address
-- is concerned, `count_` falls by one, revisions go on as before, and the invariant is kept.
pub remove-Removed :
    (r : DeviceLocatorRegistry) → Inv r → (id : DeviceId) → Removed r id (remove r id)
unfolding remove after
remove-Removed r inv id = elim (Option-cases (find_index (has_device_id id) r.slots)) [
  | inl h ↦ rw (h, remove) (unknown (no_device_id r id h))
  | inr (i, h) ↦
      rw (h, remove)
        (gone (after r inv id i h) (λ n. ground (arith, n, by_device_id r id i h))
          (after-device r inv id i h) (after-owner r inv id i h) (counted r inv id i h) refl
          (after-Inv r inv id i h))
]
