-- ===== src/Service/LocatorRegistry/Remap.antt =====
-- components/service/device_locator_registry.cpp: what the operations do to the two maps.
use zigbee_gateway_v.Common.{
  ℕ, ◌+◌, ◌≡◌, refl, sym, ap, ◌∙◌, true, false, not, ◌||◌, Option, none, some, arith, ◌==◌, ==→eq,
  Bool-cases, Option-cases, inl, inr, if◌then◌else◌, find_index, find_index-room, count_if-le, u32,
}
use mathlib.Core.Option
use zigbee_gateway_v.Core.DeviceId.{DeviceId, id_eq, valid}
use zigbee_gateway_v.Service.LocatorRegistry.{
  has_device_id, owns_short_addr, is_free, DeviceLocatorEntry, DeviceLocatorRegistry,
  DeviceLocatorRemapResult, max_entries, unknown_short_addr, mapping, slot_at, target_slot,
  displace, install, remap, find_by_device_id, find_by_short_addr,
}
use zigbee_gateway_v.Service.LocatorRegistry.Slots.{find-found}
use zigbee_gateway_v.Service.LocatorRegistry.Laws.{
  is_used, Inv, IsTarget, known-IsTarget, free-IsTarget, displace-IsDisplaced, install-Inv,
}
use zigbee_gateway_v.Service.LocatorRegistry.Lookups.{
  leave, unless_of, by_device_id, by_short_addr, no_device_id, no_short_addr, install-by_device_id,
  install-by_short_addr,
}

-- The result of a remap: an address that another device owned is displaced, and otherwise a device
-- is new or known.
abbrev pub known_result : Option DeviceLocatorEntry → DeviceLocatorRemapResult
known_result none = DeviceLocatorRemapResult.inserted
known_result (some e) = DeviceLocatorRemapResult.updated

abbrev pub owner_result :
    DeviceId → Option DeviceLocatorEntry → DeviceLocatorRemapResult → DeviceLocatorRemapResult
owner_result id none result = result
owner_result id (some e) result =
    if id_eq e.device_id id then result else DeviceLocatorRemapResult.displaced

-- What `remap` promises, in terms of the two maps.
pub data Remapped (r : DeviceLocatorRegistry) (id : DeviceId) (a : ℕ)
    : DeviceLocatorRegistry × DeviceLocatorRemapResult × Option ℕ → Type 0 where
  refused :
      (not (valid id) || a == unknown_short_addr) ≡ true
      → Remapped r id a (r, DeviceLocatorRemapResult.invalid_argument, none)
  full :
      (not (valid id) || a == unknown_short_addr) ≡ false
      → find_by_device_id r id ≡ none
      → r.count ≡ max_entries
      → Remapped r id a (r, DeviceLocatorRemapResult.no_capacity, none)
  mapped :
      (r' : DeviceLocatorRegistry) (result : DeviceLocatorRemapResult)
      → (not (valid id) || a == unknown_short_addr) ≡ false
      → ((id' : DeviceId)
          → find_by_device_id r' id' ≡ (
              if id_eq id id'
              then some (mapping id a r.next_revision).entry
              else Option.map (leave a) (find_by_device_id r id')))
      → ((a' : ℕ)
          → find_by_short_addr r' a' ≡ (
              if a == a'
              then some (mapping id a r.next_revision).entry
              else unless_of id (find_by_short_addr r a')))
      → result ≡ owner_result id (find_by_short_addr r a) (known_result (find_by_device_id r id))
      → r'.next_revision ≡ u32 (r.next_revision + 1)
      → Inv r'
      → Remapped r id a (r', result, some r.next_revision)

module _ (r : DeviceLocatorRegistry) (inv : Inv r) (id : DeviceId) (a : ℕ) where
  displace-result :
      (t : ℕ) (result : DeviceLocatorRemapResult)
      → IsTarget r id t
      → (displace r t a result).1 ≡ owner_result id (find_by_short_addr r a) result
  unfolding displace
  displace-result t result target = elim (Option-cases (find_index (owns_short_addr a) r.slots)) [
    | inl h ↦ rw (no_short_addr r a h, displace, h) refl
    | inr (o, h) ↦
        let hit = find-found (owns_short_addr a) r.slots o h in
        elim (Bool-cases (o == t)) [
          | inl e ↦
              let own =
                ap (λ k. is_used (slot_at r k)) (==→eq o t e)
                ∙ target.2
                ∙ ap (λ k. has_device_id id (slot_at r k)) (sym (==→eq o t e)) in
              let same = the_id o hit own in rw (by_short_addr r a o h, displace, h, e, same) refl
          | inr e ↦
              let differs = not_the_id o hit (λ own. ground (arith, e, target.1 o own)) in
              rw (by_short_addr r a o h, displace, h, e, differs) refl
        ]
  ]
    where
      the_id :
          (o : ℕ)
          → owns_short_addr a (slot_at r o) ≡ true
          → is_used (slot_at r o) ≡ has_device_id id (slot_at r o)
          → id_eq (slot_at r o).entry.device_id id ≡ true
      the_id o hit own = ground (arith, hit, own)

      not_the_id :
          (o : ℕ)
          → owns_short_addr a (slot_at r o) ≡ true
          → ¬ (has_device_id id (slot_at r o) ≡ true)
          → id_eq (slot_at r o).entry.device_id id ≡ false
      not_the_id o hit other = ground (arith, hit, other)

  mapped_in :
      (t : ℕ)
      → (not (valid id) || a == unknown_short_addr) ≡ false
      → IsTarget r id t
      → (result : DeviceLocatorRemapResult) → result ≡ known_result (find_by_device_id r id)
      → Remapped r id a (
        install (displace r t a result).0 t id a,
        (displace r t a result).1,
        some r.next_revision,
      )
  mapped_in t good target result e =
      let d = displace-IsDisplaced r inv id a t result in
      let r' = (displace r t a result).0 in
      mapped _ _ good
        (λ id'.
          install-by_device_id r inv id a t r' target d id'
          ∙ ap
              (λ n.
                if id_eq id id'
                then some (mapping id a n).entry
                else Option.map (leave a) (find_by_device_id r id'))
              d.revision)
        (λ a'.
          install-by_short_addr r inv id a t r' target d a'
          ∙ ap
              (λ n.
                if a == a'
                then some (mapping id a n).entry
                else unless_of id (find_by_short_addr r a'))
              d.revision)
        (displace-result t result target ∙ ap (owner_result id (find_by_short_addr r a)) e)
        (ap (λ n. u32 (n + 1)) d.revision) (install-Inv r inv id a t r' target d)

  -- Under the invariant of the registry, `remap` refuses an invalid identity or address and a full
  -- table with no change, or: the device has the address, online, with the next revision; a device
  -- that had this address stays known but goes offline, and no other device changes; the address
  -- belongs to the device, the device's former address to nobody, and no other address changes
  -- hands; the result says which case it was; and the invariant is kept.
  pub remap-Remapped : Remapped r id a (remap r id a)
  unfolding remap target_slot
  remap-Remapped = elim (Bool-cases (not (valid id) || a == unknown_short_addr)) [
    | inl bad ↦ rw bad (refused bad)
    | inr good ↦ rw good (elim (Option-cases (find_index (has_device_id id) r.slots)) [
      | inr (t, h) ↦ rw h (
          mapped_in t good (known-IsTarget r inv id t h) DeviceLocatorRemapResult.updated
            (rw (by_device_id r id t h) refl))
      | inl h ↦ elim (Option-cases (find_index is_free r.slots)) [
        | inr (t, h') ↦
            rw (h, h')
              (mapped_in t good (free-IsTarget r inv id t h h') DeviceLocatorRemapResult.inserted
                (rw (no_device_id r id h) refl))
        | inl h' ↦ rw (h, h') (full good (no_device_id r id h) (all_used h'))
      ]
    ])
  ]
    where
      all_used : find_index is_free r.slots ≡ none → r.count ≡ max_entries
      all_used h = ground (
        arith,
        inv.counted,
        inv.size,
        count_if-le is_used r.slots,
        find_index-room is_used is_free r.slots (λ s e. ground (arith, e)),
      )

Remapped-Inv :
    (r : DeviceLocatorRegistry) (id : DeviceId) (a : ℕ)
    → Inv r
    → (out : DeviceLocatorRegistry × DeviceLocatorRemapResult × Option ℕ) → Remapped r id a out
    → Inv out.0
Remapped-Inv r id a inv _ (refused bad) = inv
Remapped-Inv r id a inv _ (full good none_known all_used) = inv
Remapped-Inv r id a inv _ (mapped r' result good ids addrs outcome revision inv') = inv'

pub remap-Inv : (r : DeviceLocatorRegistry) (id : DeviceId) (a : ℕ) → Inv r → Inv (remap r id a).0
remap-Inv r id a inv = Remapped-Inv r id a inv _ (remap-Remapped r inv id a)
