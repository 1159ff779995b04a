-- ===== src/Core/Reducer/Identity.antt =====
-- components/core/core_reducer.cpp: what it means that an event is about a record, and what the two
-- searches of the reducer find.
use zigbee_gateway_v.Common.{
  ℕ, ◌<◌, ◌≡◌, ◌≢◌, ◌⊎◌, ◌∙◌, refl, sym, inl, inr, true, false, not, ◌&&◌, none, some, arith, ◌==◌,
  length, get_or-ge, dec_lt, Bool-cases, find_index-some, find_index-none,
}
use zigbee_gateway_v.Core.DeviceId.{
  DeviceId, valid, id_eq, id_eq→eq, id_eq_refl, no_id, no_id_invalid,
}
use zigbee_gateway_v.Core.Events.{unknown_short_addr}
use zigbee_gateway_v.Core.State.{CoreState, CoreDeviceRecord, no_device, device_at}
use zigbee_gateway_v.Core.Reducer.Lookup.{matches, find_device_index, find_free_slot, is_free}

-- Why a record answers to an identity and a locator.
abbrev pub Answers : DeviceId → ℕ → CoreDeviceRecord → Type 0
Answers id a d =
    ((valid id ≡ true) × (d.device_id ≡ id))
    ⊎ ((valid id ≡ false)
        × (valid d.device_id ≡ false)
        × (d.short_addr ≡ a)
        × (a ≢ unknown_short_addr))

pub matches→Answers :
    (id : DeviceId) (a : ℕ) (d : CoreDeviceRecord) → matches id a d ≡ true → Answers id a d
unfolding matches
matches→Answers id a d h = elim (Bool-cases (valid id)) [
  | inl v ↦ inl (v, ground (arith, id_eq→eq d.device_id id))
  | inr v ↦ inr (v, ground arith, ground arith, ground arith)
]

pub Answers→matches :
    (id : DeviceId) (a : ℕ) (d : CoreDeviceRecord) → Answers id a d → matches id a d ≡ true
unfolding matches
Answers→matches id a d (inl (v, e)) = rw (v, e) (id_eq_refl id)
Answers→matches id a d (inr (v, w, e, n)) = ground arith

pub no_device-matches : (id : DeviceId) (a : ℕ) → matches id a no_device ≡ false
unfolding matches
no_device-matches id a = elim (Bool-cases (valid id)) [
  | inl v ↦ ground (arith, id_eq→eq no_id id, no_id_invalid)
  | inr v ↦ ground arith
]

pub no_device-is_free : is_free no_device ≡ true
unfolding is_free
no_device-is_free = rw no_id_invalid

-- A record that answers to an event is not a free slot.
pub matches-is_free :
    (id : DeviceId) (a : ℕ) (d : CoreDeviceRecord) → matches id a d ≡ true → is_free d ≡ false
unfolding is_free
matches-is_free id a d h = go (matches→Answers id a d h)
  where
    go : Answers id a d → (not (valid d.device_id) && d.short_addr == unknown_short_addr) ≡ false
    go (inl (v, e)) = rw (e, v)
    go (inr (v, w, e, n)) = ground arith

pub find_device_index-some :
    (s : CoreState) (id : DeviceId) (a i : ℕ)
    → find_device_index s id a ≡ some i
    → (i < length s.devices) × (matches id a (device_at s i) ≡ true)
unfolding find_device_index matches
find_device_index-some s id a i h = ground (
  arith,
  find_index-some (λ (d : CoreDeviceRecord). id_eq d.device_id id) s.devices i no_device,
  find_index-some (λ (d : CoreDeviceRecord). not (valid d.device_id) && d.short_addr == a) s.devices
      i no_device,
)

find_device_index-none_below :
    (s : CoreState) (id : DeviceId) (a j : ℕ)
    → find_device_index s id a ≡ none
    → j < length s.devices
    → matches id a (device_at s j) ≡ false
unfolding find_device_index matches
find_device_index-none_below s id a j h lt = ground (
  arith,
  find_index-none (λ (d : CoreDeviceRecord). id_eq d.device_id id) s.devices j no_device,
  find_index-none (λ (d : CoreDeviceRecord). not (valid d.device_id) && d.short_addr == a) s.devices
      j no_device,
)

pub find_device_index-none :
    (s : CoreState) (id : DeviceId) (a j : ℕ)
    → find_device_index s id a ≡ none
    → matches id a (device_at s j) ≡ false
find_device_index-none s id a j h = elim (dec_lt j (length s.devices)) [
  | yes lt ↦ find_device_index-none_below s id a j h lt
  | no past ↦ rw (get_or-ge s.devices j no_device (omega arith)) (no_device-matches id a)
]

-- Two records that answer to one event answer to each other's identity and locator.
pub matches_shared :
    (id : DeviceId) (a : ℕ) (d d' : CoreDeviceRecord)
    → matches id a d ≡ true
    → matches id a d' ≡ true
    → matches d.device_id d.short_addr d' ≡ true
matches_shared id a d d' h g =
    Answers→matches d.device_id d.short_addr d'
      (go (matches→Answers id a d h) (matches→Answers id a d' g))
  where
    go : Answers id a d → Answers id a d' → Answers d.device_id d.short_addr d'
    go (inl (v, e)) (inl (v', e')) = inl (rw e v, e' ∙ sym e)
    go (inl (v, e)) (inr (v', w', e', n')) = absurd (cc)
    go (inr (v, w, e, n)) (inl (v', e')) = absurd (cc)
    go (inr (v, w, e, n)) (inr (v', w', e', n')) = inr (w, w', e' ∙ sym e, λ z. n (sym e ∙ z))

pub find_free_slot-some :
    (s : CoreState) (i : ℕ)
    → find_free_slot s ≡ some i
    → (i < length s.devices) × (is_free (device_at s i) ≡ true)
unfolding find_free_slot
find_free_slot-some s i h = find_index-some is_free s.devices i no_device h

-- A record whose identity stays, and whose locator stays or becomes that of an event about it,
-- answers to the same identities and locators as before.
pub matches_same :
    (id ev_id : DeviceId) (a ev_a : ℕ) (d d' : CoreDeviceRecord)
    → matches ev_id ev_a d ≡ true
    → d'.device_id ≡ d.device_id
    → (d'.short_addr ≡ d.short_addr) ⊎ (d'.short_addr ≡ ev_a)
    → matches id a d' ≡ matches id a d
unfolding matches
matches_same id ev_id a ev_a d d' h e l = rw e (go (matches→Answers ev_id ev_a d h))
  where
    go :
        Answers ev_id ev_a d → matches id a (record d' { device_id = d.device_id }) ≡ matches id a d
    go (inl (v, f)) = rw (f, v) refl
    go (inr (v, w, f, n)) = ground arith
