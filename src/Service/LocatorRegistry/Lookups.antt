-- ===== src/Service/LocatorRegistry/Lookups.antt =====
-- components/service/device_locator_registry.cpp: the two maps after a new mapping is installed.
use zigbee_gateway_v.Common.{
  ℕ, ◌≡◌, refl, ap, subst, ◌∙◌, true, false, not, ◌&&◌, Option, none, some, arith, ◌==◌, ==→eq,
  Bool-cases, Option-cases, inl, inr, if◌then◌else◌, find_index,
}
use mathlib.Core.Option
use zigbee_gateway_v.Core.DeviceId.{DeviceId, id_eq, id_eq→eq, id_eq_refl}
use zigbee_gateway_v.Service.LocatorRegistry.{
  Slot, has_device_id, owns_short_addr, is_online, DeviceLocatorEntry, DeviceLocatorStatus,
  DeviceLocatorRegistry, mapping, slot_at, install, find_by_device_id, find_by_short_addr,
}
use zigbee_gateway_v.Service.LocatorRegistry.Slots.{
  find-absent, find_lone, find-found, find-missed, without, has_device_id-remapped, owns-remapped,
}
use zigbee_gateway_v.Service.LocatorRegistry.Laws.{
  is_used, Inv, IsTarget, IsDisplaced, install-IsRemapped, install-Inv,
}

-- The entry of a device after its address went to another device.
abbrev pub leave : ℕ → DeviceLocatorEntry → DeviceLocatorEntry
leave a e =
    if is_online e.status && e.short_addr == a
    then record e { status = DeviceLocatorStatus.offline }
    else e

-- The owner of an address after `id` took another one.
abbrev pub unless_of : DeviceId → Option DeviceLocatorEntry → Option DeviceLocatorEntry
unless_of id none = none
unless_of id (some e) = if id_eq e.device_id id then none else some e

pub by_device_id :
    (r : DeviceLocatorRegistry) (id : DeviceId) (k : ℕ)
    → find_index (has_device_id id) r.slots ≡ some k
    → find_by_device_id r id ≡ some (slot_at r k).entry
unfolding find_by_device_id
by_device_id r id k h = rw h refl

pub by_short_addr :
    (r : DeviceLocatorRegistry) (a k : ℕ)
    → find_index (owns_short_addr a) r.slots ≡ some k
    → find_by_short_addr r a ≡ some (slot_at r k).entry
unfolding find_by_short_addr
by_short_addr r a k h = rw h refl

pub no_device_id :
    (r : DeviceLocatorRegistry) (id : DeviceId)
    → find_index (has_device_id id) r.slots ≡ none
    → find_by_device_id r id ≡ none
unfolding find_by_device_id
no_device_id r id h = rw h refl

pub no_short_addr :
    (r : DeviceLocatorRegistry) (a : ℕ)
    → find_index (owns_short_addr a) r.slots ≡ none
    → find_by_short_addr r a ≡ none
unfolding find_by_short_addr
no_short_addr r a h = rw h refl

pub leave-without : (a : ℕ) (s : Slot) → s.in_use ≡ true → (without a s).entry ≡ leave a s.entry
leave-without a s h = elim (Bool-cases (owns_short_addr a s)) [
  | inl e ↦ rw e (ground (arith, h))
  | inr e ↦ rw e (ground (arith, h))
]

module _ (r : DeviceLocatorRegistry) (inv : Inv r) (id : DeviceId) (a t : ℕ)
    (r' : DeviceLocatorRegistry) (target : IsTarget r id t) (d : IsDisplaced r t a r') where
  abbrev pub after : DeviceLocatorRegistry
  after = install r' t id a

  abbrev pub new_entry : DeviceLocatorEntry
  new_entry = (mapping id a r'.next_revision).entry

  pub at_target : slot_at after t ≡ mapping id a r'.next_revision
  at_target = ground (arith, install-IsRemapped r inv id a t r' target d t)

  pub after-device :
      (id' : DeviceId) (k : ℕ)
      → has_device_id id' (slot_at after k)
        ≡ (if t == k then id_eq id id' else has_device_id id' (slot_at r k))
  after-device =
      has_device_id-remapped r.slots after.slots t id a r'.next_revision
        (install-IsRemapped r inv id a t r' target d) target.1

  pub after-owner :
      (a' k : ℕ)
      → owns_short_addr a' (slot_at after k)
        ≡ (if t == k then a == a' else (owns_short_addr a' (slot_at r k) && not (a == a')))
  after-owner =
      owns-remapped r.slots after.slots t id a r'.next_revision
        (install-IsRemapped r inv id a t r' target d) target.1

  pub at_other : (k : ℕ) → (t == k) ≡ false → slot_at after k ≡ without a (slot_at r k)
  at_other k e = install-IsRemapped r inv id a t r' target d k ∙ rw e refl

  -- The target is a slot of `id`, if it is in use.
  pub used_target :
      (k : ℕ) → (t == k) ≡ true → is_used (slot_at r k) ≡ has_device_id id (slot_at r k)
  used_target k e =
      subst (λ k. is_used (slot_at r k) ≡ has_device_id id (slot_at r k)) (==→eq t k e) target.2

  pub device_kept :
      (id' : DeviceId) (k : ℕ)
      → id_eq id id' ≡ false
      → find_index (has_device_id id') r.slots ≡ some k
      → find_by_device_id after id' ≡ Option.map (leave a) (find_by_device_id r id')
  device_kept id' k other h = rw (by_device_id r id' k h) (
      by_device_id after id' k (
        find_lone (has_device_id id') after.slots k refl
          ((install-Inv r inv id a t r' target d).devices id')
          (ground (arith, after-device id' k, hit, apart)))
      ∙ ap (λ (s : Slot). some s.entry) (at_other k apart)
      ∙ ap some (leave-without a (slot_at r k) (ground (arith, hit))))
    where
      hit : has_device_id id' (slot_at r k) ≡ true
      hit = find-found (has_device_id id') r.slots k h

      apart : (t == k) ≡ false
      apart = elim (Bool-cases (t == k)) [
        | inr e ↦ e
        | inl e ↦ absurd (
            ground (
              arith,
              used_target k e,
              hit,
              other,
              id_eq→eq (slot_at r k).entry.device_id id',
              id_eq→eq (slot_at r k).entry.device_id id,
              id_eq_refl id,
            ))
      ]

  pub owner_kept :
      (a' k : ℕ)
      → (a == a') ≡ false
      → find_index (owns_short_addr a') r.slots ≡ some k
      → find_by_short_addr after a' ≡ unless_of id (find_by_short_addr r a')
  owner_kept a' k other h = rw (by_short_addr r a' k h) (elim (Bool-cases (t == k)) [
    | inl e ↦ rw (moved e) (
        no_short_addr after a' (
          find-absent (owns_short_addr a') after.slots
            (λ j. ground (arith, other, e, hit, after-owner a' j, inv.owners a' j k))))
    | inr e ↦ rw (not_of e) (
        by_short_addr after a' k (
          find_lone (owns_short_addr a') after.slots k refl
            ((install-Inv r inv id a t r' target d).owners a')
            (ground (arith, other, after-owner a' k, hit, e)))
        ∙ ap (λ (s : Slot). some s.entry) (at_other k e ∙ unmoved))
  ])
    where
      hit : owns_short_addr a' (slot_at r k) ≡ true
      hit = find-found (owns_short_addr a') r.slots k h

      missed : owns_short_addr a (slot_at r k) ≡ false
      missed = ground (arith, hit, other)

      unmoved : without a (slot_at r k) ≡ slot_at r k
      unmoved = rw missed refl

      moved : (t == k) ≡ true → id_eq (slot_at r k).entry.device_id id ≡ true
      moved e = ground (arith, hit, used_target k e)

      not_of : (t == k) ≡ false → id_eq (slot_at r k).entry.device_id id ≡ false
      not_of e = ground (arith, hit, e, target.1 k)

  pub install-by_device_id :
      (id' : DeviceId)
      → find_by_device_id after id'
        ≡ (if id_eq id id' then some new_entry else Option.map (leave a) (find_by_device_id r id'))
  install-by_device_id id' = elim (Bool-cases (id_eq id id')) [
    | inl same ↦ rw same (
        by_device_id after id' t (
          find_lone (has_device_id id') after.slots t refl
            ((install-Inv r inv id a t r' target d).devices id')
            (ground (arith, after-device id' t, same)))
        ∙ ap (λ (s : Slot). some s.entry) at_target)
    | inr other ↦ rw other (elim (Option-cases (find_index (has_device_id id') r.slots)) [
      | inl h ↦ rw (no_device_id r id' h) (
          no_device_id after id' (
            find-absent (has_device_id id') after.slots (λ j. ground (
              arith,
              other,
              after-device id' j,
              find-missed (has_device_id id') r.slots j refl h,
            ))))
      | inr (k, h) ↦ device_kept id' k other h
    ])
  ]

  pub install-by_short_addr :
      (a' : ℕ)
      → find_by_short_addr after a'
        ≡ (if a == a' then some new_entry else unless_of id (find_by_short_addr r a'))
  install-by_short_addr a' = elim (Bool-cases (a == a')) [
    | inl same ↦ rw same (
        by_short_addr after a' t (
          find_lone (owns_short_addr a') after.slots t refl
            ((install-Inv r inv id a t r' target d).owners a')
            (ground (arith, after-owner a' t, same)))
        ∙ ap (λ (s : Slot). some s.entry) at_target)
    | inr other ↦ rw other (elim (Option-cases (find_index (owns_short_addr a') r.slots)) [
      | inl h ↦ rw (no_short_addr r a' h) (
          no_short_addr after a' (
            find-absent (owns_short_addr a') after.slots (λ j.
              ground (
                arith,
                other,
                after-owner a' j,
                find-missed (owns_short_addr a') r.slots j refl h,
              ))))
      | inr (k, h) ↦ owner_kept a' k other h
    ])
  ]
