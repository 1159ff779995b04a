-- ===== src/Core/Reducer/Isolation.antt =====
-- components/core/core_reducer.cpp: which records an event can touch, and what they may then hold.
use zigbee_gateway_v.Common.{
  ℕ, ◌≡◌, ◌≢◌, sym, ap, inl, inr, Bool-cases, Bool, true, false, arith, length, get_or, set,
  get_or-set_self, get_or-set_ne, get_or-ge, length-set, dec_lt, ℕ_discrete,
}
use zigbee_gateway_v.Core.DeviceId.{DeviceId, valid}
use zigbee_gateway_v.Core.Events.{CoreEvent}
use zigbee_gateway_v.Core.State.{CoreState, CoreDeviceRecord, no_device, device_at}
use zigbee_gateway_v.Core.Reducer.Lookup.{matches, is_free}
use zigbee_gateway_v.Core.Reducer.Identity.{
  matches→Answers, find_device_index-some, find_free_slot-some, Answers,
}
use zigbee_gateway_v.Core.Reducer.Ranges.{IsEvent, InRange}
use zigbee_gateway_v.Core.Reducer.Moves.{Move, keep, edit, create, clear, core_reduce-Move}
use zigbee_gateway_v.Core.Reducer.{core_reduce}

-- A write elsewhere.
written_elsewhere :
    (s t : CoreState) (i j : ℕ) (d : CoreDeviceRecord)
    → t.devices ≡ set s.devices i d
    → i ≢ j
    → device_at t j ≡ device_at s j
written_elsewhere s t i j d w n = rw w (get_or-set_ne s.devices i d j no_device n)

module _ (s : CoreState) (event : CoreEvent) where
  -- Two slots that differ in what they answer are two slots.
  apart :
      (p : CoreDeviceRecord → Bool) (i j : ℕ)
      → p (device_at s i) ≡ true
      → p (device_at s j) ≡ false
      → i ≢ j
  apart p i j yes_i no_j e = cc (ap (λ k. p (device_at s k)) e)

  Move-isolated :
      (t : CoreState) (j : ℕ)
      → Move event s t
      → matches event.device_id event.device_short_addr (device_at s j) ≡ false
      → is_free (device_at s j) ≡ false
      → device_at t j ≡ device_at s j
  Move-isolated t j (keep e c) m u = ap (λ ds. get_or ds j no_device) e
  Move-isolated t j (edit i d f e w c) m u = written_elsewhere s t i j d w (
      apart (matches event.device_id event.device_short_addr) i j
        (find_device_index-some s _ _ i f).1 m)
  Move-isolated t j (create i d n f g ei ea eo r w c) m u =
      written_elsewhere s t i j d w (apart is_free i j (find_free_slot-some s i g).1 u)
  Move-isolated t j (clear i f w c) m u = written_elsewhere s t i j no_device w (
      apart (matches event.device_id event.device_short_addr) i j
        (find_device_index-some s _ _ i f).1 m)

other_identity :
    (id : DeviceId) (a : ℕ) (d : CoreDeviceRecord)
    → valid d.device_id ≡ true
    → id ≢ d.device_id
    → matches id a d ≡ false
other_identity id a d v other = elim (Bool-cases (matches id a d)) [
  | inl hit ↦ absurd (clash (matches→Answers id a d hit))
  | inr miss ↦ miss
]
  where
    clash : Answers id a d → ⊥
    clash (inl (_, e)) = other (sym e)
    clash (inr (_, w, _, _)) = cc

-- A record with a resolved identity is out of reach of every event that does not carry this
-- identity, whatever locator the event names: it is neither changed, nor removed, nor reused.
pub resolved_isolated :
    (s : CoreState) (event : CoreEvent) (j : ℕ)
    → valid (device_at s j).device_id ≡ true
    → event.device_id ≢ (device_at s j).device_id
    → device_at (core_reduce s event).next j ≡ device_at s j
unfolding is_free
resolved_isolated s event j v other =
    Move-isolated s event (core_reduce s event).next j (core_reduce-Move s event)
      (other_identity event.device_id event.device_short_addr (device_at s j) v other) (rw v)

written-InRange :
    (s t : CoreState) (i : ℕ) (d : CoreDeviceRecord)
    → t.devices ≡ set s.devices i d
    → ((j : ℕ) → InRange (device_at s j))
    → InRange d
    → (j : ℕ) → InRange (device_at t j)
written-InRange s t i d w rs r j = elim (ℕ_discrete i j) [
  | no n ↦ rw (written_elsewhere s t i j d w n) (rs j)
  | yes e ↦ elim (dec_lt i (length s.devices)) [
    | yes lt ↦ rw (← e, w, get_or-set_self s.devices i d no_device lt) r
    | no past ↦
        rw (w, get_or-ge (set s.devices i d) j no_device (omega (arith, length-set s.devices i d)))
          (omega arith)
  ]
]

Move-InRange :
    {event : CoreEvent} {s t : CoreState}
    → Move event s t
    → IsEvent event
    → ((j : ℕ) → InRange (device_at s j))
    → (j : ℕ) → InRange (device_at t j)
Move-InRange (keep e c) v rs j = rw e (rs j)
Move-InRange {s = s} {t = t} (edit i d f e w c) v rs j =
    written-InRange s t i d w rs (e.in_range v (rs i)) j
Move-InRange {s = s} {t = t} (create i d n f g ei ea eo r w c) v rs j =
    written-InRange s t i d w rs (r v (rs i)) j
Move-InRange {s = s} {t = t} (clear i f w c) v rs j =
    written-InRange s t i no_device w rs (omega arith) j

-- An event whose fields fit their types, in a state whose records all hold values that fit theirs,
-- with a battery at 100 percent at most, leaves a state whose records are all such again.
pub core_reduce-InRange :
    (s : CoreState) (event : CoreEvent)
    → IsEvent event
    → ((j : ℕ) → InRange (device_at s j))
    → (j : ℕ) → InRange (device_at (core_reduce s event).next j)
core_reduce-InRange s event v rs j = Move-InRange (core_reduce-Move s event) v rs j
