-- ===== src/Core/Reducer/Moves.antt =====
-- components/core/core_reducer.cpp, seen from outside: the ways in which one event can change the
-- table of devices and its count. Every branch of `core_reduce` is one of them.
use zigbee_gateway_v.Common.{
  ℕ, ◌+◌, ◌-◌, ◌≡◌, ◌⊎◌, refl, ◌∙◌, inl, inr, Bool, true, false, not, ◌&&◌, ◌||◌, same_bool, ◌==◌,
  Option, none, some, [], arith, ltb, set, if◌then◌else◌, u16, Option-cases, Bool-cases,
}
use zigbee_gateway_v.Core.Events.{CoreEvent, CoreEventType, CoreTelemetryKind, CoreEffect}
use zigbee_gateway_v.Core.State.{
  CoreState, CoreDeviceRecord, CoreReportingState, CoreReduceResult, no_device, device_at,
}
use zigbee_gateway_v.Core.Reducer.Telemetry.{update_telemetry, set_measured, note_report}
use zigbee_gateway_v.Core.Reducer.Ranges.{IsEvent, InRange, update_telemetry-InRange}
use zigbee_gateway_v.Core.Reducer.Lookup.{find_device_index, find_free_slot}
use zigbee_gateway_v.Core.Reducer.Apply.{
  push_state_persist_and_telemetry, apply_onoff_attribute, apply_reporting_state,
  apply_telemetry_update,
}
use zigbee_gateway_v.Core.Reducer.{
  is_anonymous, interview, join_new, join_known, reduce_joined, leave, reduce_left, reduce_network,
  reduce_result, dispatch, announce, announce_with, finish, core_reduce, to_reporting,
}

-- A record edited by an event about it: its identity stays.
pub record Edit (event : CoreEvent) (old new : CoreDeviceRecord) : Type 0 where
  pub identity : new.device_id ≡ old.device_id
  pub locator : (new.short_addr ≡ old.short_addr) ⊎ (new.short_addr ≡ event.device_short_addr)
  pub stays_online : old.online ≡ true → new.online ≡ true
  pub in_range : IsEvent event → InRange old → InRange new

pub data Move (event : CoreEvent) (s t : CoreState) : Type 0 where
  keep : t.devices ≡ s.devices → t.device_count ≡ s.device_count → Move event s t
  edit :
      (i : ℕ) (d : CoreDeviceRecord)
      → find_device_index s event.device_id event.device_short_addr ≡ some i
      → Edit event (device_at s i) d
      → t.devices ≡ set s.devices i d
      → ((device_at s i).online ≡ true → t.device_count ≡ s.device_count)
      → Move event s t
  create :
      (i : ℕ) (d : CoreDeviceRecord)
      → is_anonymous event ≡ false
      → find_device_index s event.device_id event.device_short_addr ≡ none
      → find_free_slot s ≡ some i
      → d.device_id ≡ event.device_id
      → d.short_addr ≡ event.device_short_addr
      → d.online ≡ true
      → (IsEvent event → InRange (device_at s i) → InRange d)
      → t.devices ≡ set s.devices i d
      → t.device_count ≡ u16 (s.device_count + 1)
      → Move event s t
  clear :
      (i : ℕ)
      → find_device_index s event.device_id event.device_short_addr ≡ some i
      → t.devices ≡ set s.devices i no_device
      → t.device_count ≡ (
          if (device_at s i).online && ltb 0 s.device_count
          then s.device_count - 1
          else s.device_count)
      → Move event s t

set_measured-Edit :
    (k : CoreTelemetryKind) (event : CoreEvent) (d : CoreDeviceRecord)
    → ((set_measured k d event).0.device_id ≡ d.device_id)
      × ((set_measured k d event).0.short_addr ≡ d.short_addr)
      × ((set_measured k d event).0.online ≡ d.online)
unfolding set_measured
set_measured-Edit CoreTelemetryKind.none event d = (refl, refl, refl)
set_measured-Edit _ event d = ground arith

update_telemetry-Edit :
    (event : CoreEvent) (d : CoreDeviceRecord) → Edit event d (update_telemetry d event).0
unfolding update_telemetry note_report
update_telemetry-Edit event d =
    let (i, a, o) = set_measured-Edit event.telemetry_kind event (note_report d event).0 in
    record {
      identity = i;
      locator = inl a;
      stays_online = λ h. o ∙ h;
      in_range = update_telemetry-InRange event d;
    }

-- Only the table and the count matter to a move.
Move-next :
    {event : CoreEvent} {s t u : CoreState}
    → u.devices ≡ t.devices
    → u.device_count ≡ t.device_count
    → Move event s t
    → Move event s u
Move-next p q (keep e c) = keep (p ∙ e) (q ∙ c)
Move-next p q (edit i d f k e c) = edit i d f k (p ∙ e) (λ h. q ∙ c h)
Move-next p q (create i d n f g a b o r e c) = create i d n f g a b o r (p ∙ e) (q ∙ c)
Move-next p q (clear i f e c) = clear i f (p ∙ e) (q ∙ c)

announce-Move :
    {event : CoreEvent} {s : CoreState} (r : CoreReduceResult × Bool)
    → Move event s r.0.next
    → Move event s (announce r).0.next
unfolding push_state_persist_and_telemetry
announce-Move (out, true) m = m
announce-Move (out, false) m = m

announce_with-Move :
    {event : CoreEvent} {s : CoreState} (e : CoreEffect) (r : CoreReduceResult × Bool)
    → Move event s r.0.next
    → Move event s (announce_with e r).0.next
unfolding push_state_persist_and_telemetry
announce_with-Move e (out, true) m = m
announce_with-Move e (out, false) m = m

finish-Move :
    {event : CoreEvent} {s : CoreState} (r : CoreReduceResult × Bool)
    → Move event s r.0.next
    → Move event s (finish s r).next
finish-Move (out, true) m = Move-next refl refl m
finish-Move (out, false) m = m

module _ (out : CoreReduceResult) (event : CoreEvent) where
  abbrev found : Option ℕ
  found = find_device_index out.next event.device_id event.device_short_addr

  stay : Move event out.next out.next
  stay = keep refl refl

  join_known-Move : (i : ℕ) → found ≡ some i → Move event out.next (join_known out i event).0.next
  unfolding join_known
  join_known-Move i h = elim (Bool-cases (device_at out.next i).online) [
    | inr off ↦ rw off (
        announce_with-Move (interview event) (_, true)
          (edit i _ h
            (record {
              identity = refl;
              locator = inr refl;
              stays_online = λ o. refl;
              in_range = λ v r. omega arith;
            })
            refl (λ on. cc)))
    | inl on ↦
        rw on (elim (Bool-cases ((device_at out.next i).short_addr == event.device_short_addr)) [
          | inl old ↦ rw old stay
          | inr moved ↦ rw moved (
              announce-Move (_, true)
                (edit i _ h
                  (record {
                    identity = refl;
                    locator = inr refl;
                    stays_online = λ o. refl;
                    in_range = λ v r. omega arith;
                  })
                  refl (λ _. refl)))
        ])
  ]

  join_new-Move :
      is_anonymous event ≡ false → found ≡ none → Move event out.next (join_new out event).0.next
  unfolding join_new
  join_new-Move named h = elim (Option-cases (find_free_slot out.next)) [
    | inl full ↦ rw (full, join_new) stay
    | inr (i, free) ↦
        rw (free, join_new)
          (announce_with-Move (interview event) (_, true)
            (create i _ named h free refl refl refl (λ v r. omega arith) refl refl))
  ]

  joined-Move : Move event out.next (reduce_joined out event).0.next
  unfolding reduce_joined
  joined-Move = elim (Bool-cases (is_anonymous event)) [
    | inl lost ↦ rw lost stay
    | inr named ↦ rw named (elim (Option-cases found) [
      | inl h ↦ rw (h, reduce_joined) (join_new-Move named h)
      | inr (i, h) ↦ rw (h, reduce_joined) (join_known-Move i h)
    ])
  ]

  left-Move : Move event out.next (reduce_left out event).0.next
  unfolding reduce_left leave
  left-Move = elim (Bool-cases (is_anonymous event)) [
    | inl lost ↦ rw lost stay
    | inr named ↦ rw named (elim (Option-cases found) [
      | inl h ↦ rw (h, reduce_left) stay
      | inr (i, h) ↦ rw (h, reduce_left) (announce-Move (_, true) (clear i h refl refl))
    ])
  ]

  edited :
      (i : ℕ) (d : CoreDeviceRecord)
      → found ≡ some i
      → Edit event (device_at out.next i) d
      → Move event out.next (record out.next { devices = set out.next.devices i d })
  edited i d h e = edit i d h e refl (λ _. refl)

  onoff-Move : Move event out.next (apply_onoff_attribute out event).0.next
  unfolding apply_onoff_attribute
  onoff-Move =
      elim (Bool-cases (not (event.cluster_id == 0x0006) || not (event.attribute_id == 0x0000))) [
        | inl other ↦ rw other stay
        | inr onoff ↦ rw onoff (elim (Option-cases found) [
          | inl h ↦ rw (h, apply_onoff_attribute) stay
          | inr (i, h) ↦
              rw (h, apply_onoff_attribute)
                (elim (Bool-cases (
                  not (same_bool (device_at out.next i).power_on event.value_bool)
                  || not (device_at out.next i).online)) [
                    | inl c ↦ rw c (
                        edited i _ h (record {
                          identity = refl;
                          locator = inl refl;
                          stays_online = λ o. refl;
                          in_range = λ v r. omega arith;
                        }))
                    | inr c ↦ rw c stay
                  ])
        ])
      ]

  reporting-Move :
      (r : CoreReportingState) (stale : Bool)
      → Move event out.next (to_reporting r stale out event).0.next
  unfolding apply_reporting_state
  reporting-Move r stale = elim (Option-cases found) [
    | inl h ↦ rw (h, apply_reporting_state) stay
    | inr (i, h) ↦
        rw (h, apply_reporting_state)
          (edited i _ h (record {
            identity = refl;
            locator = inl refl;
            stays_online = λ o. o;
            in_range = λ v r. omega arith;
          }))
  ]

  telemetry-Move : Move event out.next (apply_telemetry_update out event).0.next
  unfolding apply_telemetry_update
  telemetry-Move = elim (Option-cases found) [
    | inl h ↦ rw (h, apply_telemetry_update) stay
    | inr (i, h) ↦
        rw (h, apply_telemetry_update)
          (edited i _ h (update_telemetry-Edit event (device_at out.next i)))
  ]

  network-Move : (up : Bool) → Move event out.next (reduce_network up out).0.next
  unfolding reduce_network
  network-Move up =
      elim (Bool-cases
        (if up then not out.next.network_connected else out.next.network_connected)) [
          | inl c ↦ rw c (announce-Move (_, true) (keep refl refl))
          | inr c ↦ rw c stay
        ]

dispatch-Move :
    (t : CoreEventType) (out : CoreReduceResult) (event : CoreEvent)
    → Move event out.next (dispatch t out event).0.next
unfolding dispatch reduce_result
dispatch-Move CoreEventType.device_joined out event = joined-Move out event
dispatch-Move CoreEventType.device_left out event = left-Move out event
dispatch-Move CoreEventType.network_up out event = network-Move out event true
dispatch-Move CoreEventType.network_down out event = network-Move out event false
dispatch-Move CoreEventType.attribute_reported out event = announce-Move _ (onoff-Move out event)
dispatch-Move CoreEventType.device_interview_completed out event =
    announce_with-Move _ _ (reporting-Move out event _ _)
dispatch-Move CoreEventType.device_binding_ready out event =
    announce_with-Move _ _ (reporting-Move out event _ _)
dispatch-Move CoreEventType.device_reporting_configured out event =
    announce_with-Move _ _ (reporting-Move out event _ _)
dispatch-Move CoreEventType.device_telemetry_updated out event =
    announce-Move _ (telemetry-Move out event)
dispatch-Move CoreEventType.device_stale out event = announce-Move _ (reporting-Move out event _ _)
dispatch-Move _ out event = keep refl refl

-- Every event moves the table of devices in one of these ways, and nothing else happens to it.
pub core_reduce-Move : (s : CoreState) (event : CoreEvent) → Move event s (core_reduce s event).next
unfolding core_reduce
core_reduce-Move s event =
    finish-Move _ (dispatch-Move event.type (record { next = s; effects = [] }) event)
