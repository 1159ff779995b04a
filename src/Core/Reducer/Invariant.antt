-- ===== src/Core/Reducer/Invariant.antt =====
-- components/core/core_reducer.cpp: the invariant of the table of devices, kept by every event.
use zigbee_gateway_v.Common.{
  ℕ, ◌+◌, ◌-◌, ◌<◌, ◌≡◌, ◌≢◌, ◌∙◌, refl, sym, ap, inl, inr, Bool, true, false, not, ◌&&◌, none,
  some, arith, ltb, if◌then◌else◌, length, set, replicate, zero, suc, ℕ_discrete, length-set,
  get_or-replicate, get_or-set_self, get_or-set_ne, count_if, count_if-set, count_if-le,
  count_if-pos, weigh, u16, Bool-cases,
}
use zigbee_gateway_v.Core.DeviceId.{DeviceId}
use zigbee_gateway_v.Core.Events.{CoreEvent}
use zigbee_gateway_v.Core.State.{
  CoreState, CoreDeviceRecord, no_device, device_at, max_devices, initial_state,
}
use zigbee_gateway_v.Core.Reducer.Lookup.{matches, is_free, find_device_index, find_free_slot}
use zigbee_gateway_v.Core.Reducer.Identity.{
  no_device-matches, no_device-is_free, matches-is_free, find_device_index-some,
  find_device_index-none, find_free_slot-some, matches_same, matches_shared,
}
use zigbee_gateway_v.Core.Reducer.Moves.{Move, Edit, keep, edit, create, clear, core_reduce-Move}
use zigbee_gateway_v.Core.Reducer.{core_reduce, is_anonymous}

abbrev pub is_online : CoreDeviceRecord → Bool
is_online d = d.online

-- The table has its 64 slots; a slot is online exactly when it is in use; an identity, or a locator
-- among the records without an identity, belongs to one slot at most; and `device_count` counts the
-- devices that are online.
pub record Inv (s : CoreState) : Type 0 where
  pub size : length s.devices ≡ max_devices
  pub online : (i : ℕ) → (device_at s i).online ≡ not (is_free (device_at s i))
  pub unique :
      (id : DeviceId) (a i j : ℕ)
      → matches id a (device_at s i) ≡ true
      → matches id a (device_at s j) ≡ true
      → i ≡ j
  pub counted : s.device_count ≡ count_if is_online s.devices

count_if-replicate : (n : ℕ) → count_if is_online (replicate n no_device) ≡ 0
unfolding count_if
count_if-replicate zero = refl
count_if-replicate (suc n) = omega (arith, count_if-replicate n)

pub initial_state-Inv : Inv initial_state
initial_state-Inv = record {
  size = refl;
  online = λ i. rw (get_or-replicate max_devices no_device i, no_device-is_free);
  unique = λ id a i j h k.
      absurd (ground (arith, get_or-replicate max_devices no_device i, no_device-matches id a));
  counted = sym (count_if-replicate max_devices);
}

module _ (s t : CoreState) (inv : Inv s) where
  -- One slot is written, and the count follows.
  module _ (k : ℕ) (d : CoreDeviceRecord) (lt : k < length s.devices)
      (written : t.devices ≡ set s.devices k d) (on : d.online ≡ not (is_free d))
      (count : t.device_count + weigh (device_at s k).online ≡ s.device_count + weigh d.online)
      (alone : (id : DeviceId) (a j : ℕ)
        → k ≢ j
        → matches id a d ≡ true
        → matches id a (device_at s j) ≡ false) where
    at_k : device_at t k ≡ d
    at_k = rw written (get_or-set_self s.devices k d no_device lt)

    at_other : (j : ℕ) → k ≢ j → device_at t j ≡ device_at s j
    at_other j n = rw written (get_or-set_ne s.devices k d j no_device n)

    written-online : (i : ℕ) → (device_at t i).online ≡ not (is_free (device_at t i))
    written-online i = elim (ℕ_discrete k i) [
      | yes e ↦ rw (← e, at_k) on
      | no n ↦ rw (at_other i n) (inv.online i)
    ]

    written_unique :
        (id : DeviceId) (a i j : ℕ)
        → matches id a (device_at t i) ≡ true
        → matches id a (device_at t j) ≡ true
        → i ≡ j
    written_unique id a i j h g = elim (ℕ_discrete k i) [
      | yes e ↦ elim (ℕ_discrete k j) [
        | yes f ↦ sym e ∙ f
        | no m ↦ absurd (clash j m (rw (← e, at_k) at h) (rw (at_other j m) at g))
      ]
      | no n ↦ elim (ℕ_discrete k j) [
        | yes f ↦ absurd (clash i n (rw (← f, at_k) at g) (rw (at_other i n) at h))
        | no m ↦ inv.unique id a i j (rw (at_other i n) at h) (rw (at_other j m) at g)
      ]
    ]
      where
        clash : (x : ℕ) → k ≢ x → matches id a d ≡ true → matches id a (device_at s x) ≡ true → ⊥
        clash x n here there = cc (alone id a x n here)

    written-Inv : Inv t
    written-Inv = record {
      size = rw (written, length-set s.devices k d) inv.size;
      online = written-online;
      unique = written_unique;
      counted =
          rw written
            (omega (arith, inv.counted, count_if-set is_online s.devices k d no_device lt));
    }

module _ (event : CoreEvent) (s t : CoreState) (inv : Inv s) where
  keep-Inv : t.devices ≡ s.devices → t.device_count ≡ s.device_count → Inv t
  keep-Inv e c = record {
    size = rw e inv.size;
    online = λ i. rw e (inv.online i);
    unique = λ id a i j h g. inv.unique id a i j (rw e at h) (rw e at g);
    counted = rw (e, c) inv.counted;
  }

  edited_Inv :
      (i : ℕ) (d : CoreDeviceRecord)
      → find_device_index s event.device_id event.device_short_addr ≡ some i
      → Edit event (device_at s i) d
      → t.devices ≡ set s.devices i d
      → ((device_at s i).online ≡ true → t.device_count ≡ s.device_count)
      → Inv t
  edited_Inv i d f e w c =
      written-Inv s t inv i d hit.0 w (on ∙ sym (ap not in_use)) (rw (c was, was, on)) alone
    where
      hit :
          (i < length s.devices)
          × (matches event.device_id event.device_short_addr (device_at s i) ≡ true)
      hit = find_device_index-some s event.device_id event.device_short_addr i f

      was : (device_at s i).online ≡ true
      was = inv.online i ∙ ap not (matches-is_free _ _ _ hit.1)

      on : d.online ≡ true
      on = e.stays_online was

      same : (id : DeviceId) (a : ℕ) → matches id a d ≡ matches id a (device_at s i)
      same id a = matches_same id _ a _ (device_at s i) d hit.1 e.identity e.locator

      in_use : is_free d ≡ false
      in_use =
          matches-is_free event.device_id event.device_short_addr d
            (same event.device_id event.device_short_addr ∙ hit.1)

      alone :
          (id : DeviceId) (a j : ℕ)
          → i ≢ j
          → matches id a d ≡ true
          → matches id a (device_at s j) ≡ false
      alone id a j n h = elim (Bool-cases (matches id a (device_at s j))) [
        | inl twice ↦ absurd (n (inv.unique id a i j (sym (same id a) ∙ h) twice))
        | inr once ↦ once
      ]

  create-Inv :
      (i : ℕ) (d : CoreDeviceRecord)
      → is_anonymous event ≡ false
      → find_device_index s event.device_id event.device_short_addr ≡ none
      → find_free_slot s ≡ some i
      → d.device_id ≡ event.device_id
      → d.short_addr ≡ event.device_short_addr
      → d.online ≡ true
      → t.devices ≡ set s.devices i d
      → t.device_count ≡ u16 (s.device_count + 1)
      → Inv t
  unfolding is_free
  create-Inv i d n f g ei ea eo w c =
      written-Inv s t inv i d hit.0 w (eo ∙ sym (ap not in_use)) count alone
    where
      hit : (i < length s.devices) × (is_free (device_at s i) ≡ true)
      hit = find_free_slot-some s i g

      off : (device_at s i).online ≡ false
      off = inv.online i ∙ ap not hit.1

      in_use : is_free d ≡ false
      in_use = rw (is_free, ei, ea) n

      count : t.device_count + weigh (device_at s i).online ≡ s.device_count + weigh d.online
      count =
          rw (c, off, eo) (omega (arith, inv.counted, inv.size, count_if-le is_online s.devices))

      alone :
          (id : DeviceId) (a j : ℕ)
          → i ≢ j
          → matches id a d ≡ true
          → matches id a (device_at s j) ≡ false
      alone id a j m h = elim (Bool-cases (matches id a (device_at s j))) [
        | inl twice ↦ absurd (
            cc (
              rw (ei, ea) at (matches_shared id a d (device_at s j) h twice),
              find_device_index-none s event.device_id event.device_short_addr j f,
            ))
        | inr once ↦ once
      ]

  clear-Inv :
      (i : ℕ)
      → find_device_index s event.device_id event.device_short_addr ≡ some i
      → t.devices ≡ set s.devices i no_device
      → t.device_count ≡ (
          if (device_at s i).online && ltb 0 s.device_count
          then s.device_count - 1
          else s.device_count)
      → Inv t
  clear-Inv i f w c =
      written-Inv s t inv i no_device hit.0 w (rw no_device-is_free) count
        (λ id a j n h. cc (no_device-matches id a))
    where
      hit :
          (i < length s.devices)
          × (matches event.device_id event.device_short_addr (device_at s i) ≡ true)
      hit = find_device_index-some s event.device_id event.device_short_addr i f

      was : (device_at s i).online ≡ true
      was = inv.online i ∙ ap not (matches-is_free _ _ _ hit.1)

      count : t.device_count + weigh (device_at s i).online ≡ s.device_count + 0
      count =
          rw (c, was)
            (ground (arith, inv.counted, count_if-pos is_online s.devices i no_device hit.0 was))

Move-Inv : {event : CoreEvent} {s t : CoreState} → Move event s t → Inv s → Inv t
Move-Inv {event} {s} {t} (keep e c) inv = keep-Inv event s t inv e c
Move-Inv {event} {s} {t} (edit i d f e w c) inv = edited_Inv event s t inv i d f e w c
Move-Inv {event} {s} {t} (create i d n f g ei ea eo r w c) inv =
    create-Inv event s t inv i d n f g ei ea eo w c
Move-Inv {event} {s} {t} (clear i f w c) inv = clear-Inv event s t inv i f w c

-- Every event, whatever its type, keeps the invariant.
pub core_reduce-Inv : (s : CoreState) (event : CoreEvent) → Inv s → Inv (core_reduce s event).next
core_reduce-Inv s event inv = Move-Inv (core_reduce-Move s event) inv
