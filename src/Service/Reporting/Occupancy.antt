-- ===== src/Service/Reporting/Occupancy.antt =====
-- components/service/reporting_manager.cpp: `normalize_occupancy_report`, the filter that makes
-- occupancy events from raw reports.
use zigbee_gateway_v.Common.{
  ℕ, ◌+◌, ◌≡◌, ◌≢◌, Bool, true, false, not, ◌&&◌, ◌||◌, Option, some, List, arith, ltb, ◌==◌,
  if◌then◌else◌, same_bool, get_or, set, find_index, u32,
}
use zigbee_gateway_v.Common.Int.{pos}
use zigbee_gateway_v.Core.Events.{CoreEvent, CoreEventType, CoreTelemetryKind, no_event}
use zigbee_gateway_v.Service.Reporting.Entry.{
  Entry, no_entry, valid_short_addr, has_addr, is_free, is_due,
}

pub record OccupancyPolicy : Type 0 where
  pub debounce_ms : ℕ  -- uint32_t
  pub hold_ms : ℕ  -- uint32_t

-- The last step where an event is emitted: the end of the hold time.
abbrev pub hold : ℕ → OccupancyPolicy → Entry → Entry
hold now_ms policy e =
    if e.occupancy_stable && ltb 0 policy.hold_ms
    then record e { occupancy_hold_until_ms = u32 (now_ms + policy.hold_ms) }
    else if not e.occupancy_stable
    then record e { occupancy_hold_until_ms = 0 }
    else e

-- The entry after a raw report, and whether an event is emitted.
unfoldable pub filter : Bool → ℕ → OccupancyPolicy → Entry → Entry × Bool
filter occupied_raw now_ms policy e =
    let accepted = record e { occupancy_stable = occupied_raw; occupancy_pending_valid = false } in
    if not e.occupancy_valid
    then (hold now_ms policy (record accepted { occupancy_valid = true }), true)
    else if same_bool occupied_raw e.occupancy_stable
    then (record e { occupancy_pending_valid = false }, false)
    else if not occupied_raw
        && ltb 0 policy.hold_ms
        && not (is_due now_ms e.occupancy_hold_until_ms)
    then (e, false)
    else if policy.debounce_ms == 0
    then (hold now_ms policy accepted, true)
    else if not e.occupancy_pending_valid || not (same_bool e.occupancy_pending_target occupied_raw)
    then (
      record e {
        occupancy_pending_valid = true;
        occupancy_pending_target = occupied_raw;
        occupancy_pending_since_ms = now_ms;
      },
      false,
    )
    else if not (is_due now_ms (u32 (e.occupancy_pending_since_ms + policy.debounce_ms)))
    then (e, false)
    else (hold now_ms policy accepted, true)

abbrev pub occupancy_event : ℕ → ℕ → Entry → CoreEvent
occupancy_event a now_ms e = record no_event {
  type = CoreEventType.device_telemetry_updated;
  device_short_addr = a;
  value_u32 = now_ms;
  telemetry_kind = CoreTelemetryKind.occupancy;
  telemetry_i32 = pos (if e.occupancy_stable then 1 else 0);
  telemetry_valid = true;
}

-- The index of the device, or of a free entry.
unfoldable pub index_or_free : List Entry → ℕ → Option ℕ
index_or_free es a = elim (find_index (has_addr a) es) [
  | some i ↦ some i
  | Option.none ↦ find_index is_free es
]

unfoldable pub normalize_occupancy_report :
    List Entry → ℕ → Bool → ℕ → OccupancyPolicy → List Entry × Option CoreEvent
normalize_occupancy_report es a occupied_raw now_ms policy =
    if not (valid_short_addr a) then (es, Option.none) else elim (index_or_free es a) [
      | Option.none ↦ (es, Option.none)
      | some i ↦
          let (e, emit) =
            filter occupied_raw now_ms policy (record (get_or es i no_entry) { short_addr = a }) in
          (set es i e, if emit then some (occupancy_event a now_ms e) else Option.none)
    ]

-- What the filter promises of an event it lets through: the entry carries the report's value, which
-- is news; the hold time is over where a room that was occupied is reported empty; and the report
-- came before and has lasted for the debounce time.
pub record IsNews (raw : Bool) (now_ms : ℕ) (policy : OccupancyPolicy) (e e' : Entry) : Type 0 where
  pub now_known : e'.occupancy_valid ≡ true
  pub value : e'.occupancy_stable ≡ raw
  pub change : e.occupancy_valid ≡ true → e.occupancy_stable ≡ not raw
  pub held :
      e.occupancy_valid ≡ true
      → raw ≡ false
      → policy.hold_ms ≢ 0
      → is_due now_ms e.occupancy_hold_until_ms ≡ true
  pub lasting :
      e.occupancy_valid ≡ true
      → policy.debounce_ms ≢ 0
      → (e.occupancy_pending_valid ≡ true)
        × (e.occupancy_pending_target ≡ raw)
        × (is_due now_ms (u32 (e.occupancy_pending_since_ms + policy.debounce_ms)) ≡ true)

pub filter-IsNews :
    (raw : Bool) (now_ms : ℕ) (policy : OccupancyPolicy) (e : Entry)
    → (filter raw now_ms policy e).1 ≡ true
    → IsNews raw now_ms policy e (filter raw now_ms policy e).0
unfolding filter
filter-IsNews raw now_ms policy e h = record {
  now_known = ground arith;
  value = ground arith;
  change = λ v. ground arith;
  held = λ v r p. ground arith;
  lasting = λ v d. ground arith;
}
