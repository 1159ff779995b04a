-- ===== src/Service/LocatorRegistry/Laws.antt =====
-- components/service/device_locator_registry.cpp: the registry as two maps, from devices and from
-- addresses, that every operation keeps in agreement.
use zigbee_gateway_v.Common.{
  ℕ, ◌<◌, ◌≡◌, refl, subst, ◌∙◌, ◌≢◌, Bool, true, false, none, some, arith, ◌==◌, ==→eq, Bool-cases,
  Option-cases, inl, inr, length, length-set, set, get_or-replicate, get_or-set_self, get_or-set_ne,
  find_index-some, count_if, count_if-set,
}
use zigbee_gateway_v.Core.DeviceId.{DeviceId}
use zigbee_gateway_v.Service.LocatorRegistry.{
  Slot, no_slot, has_device_id, owns_short_addr, is_free, DeviceLocatorRegistry,
  DeviceLocatorRemapResult, max_entries, cleared, take_offline, mapping, slot_at,
  find_slot_by_device_id, find_slot_by_short_addr, find_free_slot, displace, install,
}
use zigbee_gateway_v.Service.LocatorRegistry.Slots.{
  slot_in, Single, find-missed, without, IsRemapped, devices-remapped, owners-remapped,
}

abbrev pub is_used : Slot → Bool
is_used s = s.in_use

pub record Inv (r : DeviceLocatorRegistry) : Type 0 where
  pub size : length r.slots ≡ max_entries
  pub devices : (id : DeviceId) → Single (has_device_id id) r.slots
  pub owners : (a : ℕ) → Single (owns_short_addr a) r.slots
  pub counted : r.count ≡ count_if is_used r.slots

pub cleared-Inv : Inv cleared
unfolding count_if
cleared-Inv = record {
  size = refl;
  devices = λ id i j h h'. absurd (ground (arith, get_or-replicate max_entries no_slot i));
  owners = λ a i j h h'. absurd (ground (arith, get_or-replicate max_entries no_slot i));
  counted = refl;
}

-- The target of a remap of `id`: the slot of `id`, or a free slot when `id` has none.
abbrev pub IsTarget : DeviceLocatorRegistry → DeviceId → ℕ → Type 0
IsTarget r id t =
    (t < max_entries)
    × ((k : ℕ) → has_device_id id (slot_at r k) ≡ true → k ≡ t)
    × (is_used (slot_at r t) ≡ has_device_id id (slot_at r t))

-- What `displace` leaves: every slot but the target without the address.
pub record IsDisplaced (r : DeviceLocatorRegistry) (t a : ℕ) (r' : DeviceLocatorRegistry)
    : Type 0 where
  pub size : length r'.slots ≡ max_entries
  pub revision : r'.next_revision ≡ r.next_revision
  pub count : r'.count ≡ r.count
  pub used : count_if is_used r'.slots ≡ count_if is_used r.slots
  pub target : slot_at r' t ≡ slot_at r t
  pub others : (k : ℕ) → k ≢ t → slot_at r' k ≡ without a (slot_at r k)

module _ (r : DeviceLocatorRegistry) (inv : Inv r) (id : DeviceId) where
  pub known-IsTarget : (t : ℕ) → find_slot_by_device_id r id ≡ some t → IsTarget r id t
  known-IsTarget t h =
      let f = find_index-some (has_device_id id) r.slots t no_slot h in
      (omega (arith, f.0, inv.size), (λ k hit. inv.devices id k t hit f.1), ground (arith, f.1))

  pub free-IsTarget :
      (t : ℕ) → find_slot_by_device_id r id ≡ none → find_free_slot r ≡ some t → IsTarget r id t
  free-IsTarget t h h' =
      let f = find_index-some is_free r.slots t no_slot h' in
      (
        omega (arith, f.0, inv.size),
        (λ k hit. absurd (ground (arith, find-missed (has_device_id id) r.slots k refl h))),
        ground (arith, f.1),
      )

  module _ (a t : ℕ) (result : DeviceLocatorRemapResult) where
    kept : ((k : ℕ) → k ≢ t → owns_short_addr a (slot_at r k) ≡ false) → IsDisplaced r t a r
    kept h = record {
      size = inv.size;
      revision = refl;
      count = refl;
      used = refl;
      target = refl;
      others = λ k ne. rw (h k ne) refl;
    }

    owner-IsDisplaced :
        (o : ℕ)
        → o ≢ t
        → o < max_entries
        → owns_short_addr a (slot_at r o) ≡ true
        → IsDisplaced r t a (record r { slots = set r.slots o (take_offline (slot_at r o)) })
    owner-IsDisplaced o ne small hit = record {
      size = omega (arith, length-set r.slots o (take_offline (slot_at r o)), inv.size);
      revision = refl;
      count = refl;
      used = omega (
        arith,
        count_if-set is_used r.slots o (take_offline (slot_at r o)) no_slot
            (omega (arith, inv.size)),
      );
      target = get_or-set_ne r.slots o (take_offline (slot_at r o)) t no_slot ne;
      others = λ k ne'. elim (Bool-cases (o == k)) [
        | inl e ↦
            let q = ==→eq o k e in
            subst
              (λ k.
                slot_in (set r.slots o (take_offline (slot_at r o))) k ≡ without a (slot_at r k))
              q
              (rw hit (
                get_or-set_self r.slots o (take_offline (slot_at r o)) no_slot
                  (omega (arith, inv.size))))
        | inr e ↦
            rw (get_or-set_ne r.slots o (take_offline (slot_at r o)) k no_slot (ground (arith, e)))
              (elim (Bool-cases (owns_short_addr a (slot_at r k))) [
                | inl hit' ↦ absurd (ground (arith, inv.owners a o k hit hit'))
                | inr miss ↦ rw miss refl
              ])
      ];
    }

    pub displace-IsDisplaced : IsDisplaced r t a (displace r t a result).0
    unfolding displace
    displace-IsDisplaced = elim (Option-cases (find_slot_by_short_addr r a)) [
      | inl h ↦ rw (h, displace) (kept (λ k ne. find-missed (owns_short_addr a) r.slots k refl h))
      | inr (o, h) ↦
          let f = find_index-some (owns_short_addr a) r.slots o no_slot h in
          elim (Bool-cases (o == t)) [
            | inl e ↦
                rw (h, displace, e)
                  (kept (λ k ne. elim (Bool-cases (owns_short_addr a (slot_at r k))) [
                    | inl hit ↦ absurd (ground (arith, ne, e, inv.owners a k o hit f.1))
                    | inr miss ↦ miss
                  ]))
            | inr e ↦
                rw (h, displace, e)
                  (owner-IsDisplaced o (ground (arith, e)) (omega (arith, f.0, inv.size)) f.1)
          ]
    ]

  -- The mapping of `id` to `a` in slot `t`, where the address is free.
  module _ (a t : ℕ) (r' : DeviceLocatorRegistry) (target : IsTarget r id t)
      (d : IsDisplaced r t a r') where
    pub install-IsRemapped : IsRemapped r.slots (install r' t id a).slots t id a r'.next_revision
    install-IsRemapped k = elim (Bool-cases (t == k)) [
      | inl e ↦ rw e (
          subst (λ k. slot_in (install r' t id a).slots k ≡ mapping id a r'.next_revision)
            (==→eq t k e)
            (get_or-set_self r'.slots t (mapping id a r'.next_revision) no_slot
              (omega (arith, target.0, d.size))))
      | inr e ↦ rw e (
          get_or-set_ne r'.slots t (mapping id a r'.next_revision) k no_slot (ground (arith, e))
          ∙ d.others k (ground (arith, e)))
    ]

    pub install-Inv : Inv (install r' t id a)
    install-Inv = record {
      size = omega (arith, length-set r'.slots t (mapping id a r'.next_revision), d.size);
      devices =
          devices-remapped r.slots _ t id a r'.next_revision install-IsRemapped target.1
            inv.devices;
      owners =
          owners-remapped r.slots _ t id a r'.next_revision install-IsRemapped target.1 inv.owners;
      counted = ground (
        arith,
        count_if-set is_used r'.slots t (mapping id a r'.next_revision) no_slot
            (omega (arith, target.0, d.size)),
        inv.counted,
        d.count,
        d.used,
      );
    }
