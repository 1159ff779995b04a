-- ===== src/Service/DeviceTests.antt =====
-- Runs of the start-up of Tuya devices, of the reporting manager and of the versions of firmware
-- images on small inputs, and each theorem about them at one.
use zigbee_gateway_v.Common.{
  ℕ, ◌+◌, ◌*◌, ◌≡◌, ◌≤◌, ◌<◌, refl, true, false, Option, some, List, [], ◌∷◌, arith, map, get_or,
  set, replicate, find_index,
}
use zigbee_gateway_v.Core.Events.{CoreEvent, CoreEventType, no_event}
use zigbee_gateway_v.Service.Tuya.InitCoordinator.{
  TuyaInitCoordinator, TuyaInitPlan, TuyaInitAction, TuyaInitStatus, no_step, no_entry,
  new_coordinator, notify_device_resolved, tick, notify_ack, acknowledge, status, next_action,
  is_pending, is_waiting, action_of,
}
use zigbee_gateway_v.Service.Tuya.InitCoordinator.Table
use zigbee_gateway_v.Service.Tuya.InitCoordinator.Table.{Reachable-coordinator}
use zigbee_gateway_v.Service.Tuya.InitCoordinator.Budget.{Event, run, run_bounded}
use zigbee_gateway_v.Service.Tuya.InitCoordinator.Settling.{AllDueBy, ticks, ticks_settle}
use zigbee_gateway_v.Service.Tuya.InitCoordinator.Acks.{AllBelow, notify_ack_once, tick-notify_ack}
use zigbee_gateway_v.Service.Reporting
use zigbee_gateway_v.Service.Reporting.Entry.{
  Entry, State, RetryTarget, FailureReason, new_entries, advance,
}
use zigbee_gateway_v.Service.Reporting.Manager.{
  handle_event, index_for, collect_stale_candidates, stale_loop,
}
use zigbee_gateway_v.Service.Reporting.Loops
use zigbee_gateway_v.Service.Reporting.Loops.{marked, silent_addrs, Reachable-entries}
use zigbee_gateway_v.Service.Reporting.Retries.{
  failures, next_try, failures_degrade, Collected, collect_exact,
}
use zigbee_gateway_v.Service.Reporting.Alternation
use zigbee_gateway_v.Service.Reporting.Alternation.{
  Report, Alternates, occupancy_of, run-Alternates,
}
use zigbee_gateway_v.Service.OtaVersion.{max_parts, parse_dotted_numeric_version, is_downgrade}
use zigbee_gateway_v.Service.OtaVersion.Order.{goes_back, is_downgrade_lem}
use zigbee_gateway_v.Service.OtaVersion.Parsing.{
  dotted, part_value, IsPart, AllParts, AllDigits, parse-dotted,
}

-- A plan of one step, and the coordinator when the device 0x1234 has it.
abbrev one_step : TuyaInitPlan
one_step = record { step_count = 1; steps = replicate 4 no_step }

abbrev one_device : TuyaInitCoordinator
one_device = notify_device_resolved new_coordinator 0x1234 one_step

abbrev waiting : TuyaInitCoordinator
waiting = (tick one_device 1000).0

-- The step is sent, acknowledged, and the device is ready.
started_up :
    (status one_device 0x1234 ≡ TuyaInitStatus.init_pending)
    × (status waiting 0x1234 ≡ TuyaInitStatus.waiting_ack)
    × (status (notify_ack waiting 0x80000000 true).0 0x1234 ≡ TuyaInitStatus.ready)
unfolding status notify_device_resolved tick next_action notify_ack acknowledge find_index
started_up = (refl, refl, refl)

one_device-Reachable : Table.Reachable one_device
one_device-Reachable =
    Table.Reachable.next Table.Reachable.start
      (Table.Step.resolved new_coordinator 0x1234 one_step (omega arith))

Reachable-coordinator_example : Table.Inv waiting
Reachable-coordinator_example =
    Reachable-coordinator
      (Table.Reachable.next one_device-Reachable (Table.Step.ticked one_device 1000))

run_bounded_example :
    (run one_device (Event.at 1000 ∷ Event.ack 0x80000000 false ∷ Event.at 2000 ∷ [])).1 ≤ 624
run_bounded_example =
    run_bounded one_device (Event.at 1000 ∷ Event.ack 0x80000000 false ∷ Event.at 2000 ∷ [])
      (Reachable-coordinator one_device-Reachable)

one_device-AllDueBy : AllDueBy 1000 one_device.entries
unfolding AllDueBy notify_device_resolved find_index
one_device-AllDueBy = ground arith

ticks_settle_example :
    let s = status (ticks one_device 1000 625) 0x1234 in
    (is_pending s ≡ false) × (is_waiting s ≡ false)
ticks_settle_example =
    ticks_settle one_device 1000 0x1234 (Reachable-coordinator one_device-Reachable) (omega arith)
      one_device-AllDueBy

notify_ack_once_example :
    notify_ack (notify_ack waiting 0x80000000 false).0 0x80000000 true
    ≡ ((notify_ack waiting 0x80000000 false).0, false)
notify_ack_once_example = notify_ack_once waiting 0x80000000 false true

one_device-AllBelow : AllBelow one_device.correlation_id_counter one_device.entries
unfolding AllBelow notify_device_resolved find_index
one_device-AllBelow = ground arith

first_id : one_device.correlation_id_counter ≡ 0x80000000
unfolding notify_device_resolved find_index
first_id = refl

-- The action of the only step.
abbrev first_action : TuyaInitAction
first_action = action_of (get_or one_device.entries 0 no_entry) 0x80000000

first_sent : (tick one_device 1000).1 ≡ some first_action
unfolding tick next_action notify_device_resolved find_index
first_sent = refl

tick-notify_ack_example :
    AllBelow waiting.correlation_id_counter waiting.entries
    × ((i : ℕ) × ((get_or waiting.entries i no_entry).short_addr ≡ first_action.short_addr)
        × (is_waiting (get_or waiting.entries i no_entry).status ≡ true)
        × (notify_ack waiting first_action.correlation_id true ≡ (
          record waiting {
            entries = set waiting.entries i (acknowledge true (get_or waiting.entries i no_entry));
          },
          true,
        )))
tick-notify_ack_example =
    tick-notify_ack one_device 1000 first_action true one_device-AllBelow small first_sent
  where
    small : one_device.correlation_id_counter + 1 < 0x100000000
    small = omega (arith, first_id)

-- The manager after a device joined.
abbrev joined : CoreEvent
joined = record no_event { type = CoreEventType.device_joined; device_short_addr = 0x1234 }

abbrev one_entry : List Entry
one_entry = (handle_event new_entries joined).0

one_entry-Reachable : Loops.Reachable one_entry
one_entry-Reachable =
    Loops.Reachable.next Loops.Reachable.start (Loops.Step.event new_entries joined)

Reachable-entries_example : Reporting.Table.Inv one_entry
Reachable-entries_example = Reachable-entries one_entry-Reachable

failures_degrade_example :
    let e' =
      failures RetryTarget.bind FailureReason.timeout (λ k. 100 * k) 4 Reporting.Entry.no_entry in
    (e'.state ≡ State.degraded) × (e'.retry_attempt ≡ 3) × (next_try e' ≡ Option.none)
failures_degrade_example =
    failures_degrade RetryTarget.bind FailureReason.timeout (λ k. 100 * k) Reporting.Entry.no_entry
      refl (omega arith) 3

-- The manager after the device reported at 1000.
abbrev reported : CoreEvent
reported = record joined { type = CoreEventType.device_telemetry_updated; value_u32 = 1000 }

abbrev silent_entry : List Entry
silent_entry = (handle_event one_entry reported).0

silent_entry-Reachable : Loops.Reachable silent_entry
silent_entry-Reachable =
    Loops.Reachable.next one_entry-Reachable (Loops.Step.event one_entry reported)

-- The device is found silent after 19 seconds.
collected : (collect_stale_candidates silent_entry 20000 15000).1 ≡ 0x1234 ∷ []
unfolding collect_stale_candidates stale_loop handle_event index_for find_index advance
collected = refl

collect_exact_example :
    let (es', addrs) = collect_stale_candidates silent_entry 20000 15000 in
    Collected 20000 15000 silent_entry (es', addrs)
    × (collect_stale_candidates es' 20000 15000 ≡ (es', []))
collect_exact_example =
    collect_exact silent_entry 20000 15000
      (omega (arith, (Reachable-entries silent_entry-Reachable).size)) (omega arith)

-- Three reports of one room: occupied, occupied again, and empty.
abbrev reports : List Report
reports =
    map
      (λ b. record {
        short_addr = 0x1234;
        occupied_raw = b;
        now_ms = 1000;
        policy = record { debounce_ms = 0; hold_ms = 0 };
      })
      (true ∷ true ∷ false ∷ [])

run-Alternates_example :
    Alternates 0x1234 (occupancy_of new_entries 0x1234) (Alternation.run new_entries reports)
run-Alternates_example =
    run-Alternates new_entries reports 0x1234 (Reachable-entries Loops.Reachable.start)
      (omega arith)

-- "1.2" and "1.10".
abbrev version_2 : List ℕ
version_2 = 0x31 ∷ 0x2e ∷ 0x32 ∷ []

abbrev version_10 : List ℕ
version_10 = 0x31 ∷ 0x2e ∷ 0x31 ∷ 0x30 ∷ []

is_downgrade_lem_example :
    is_downgrade version_2 version_10
    ≡ goes_back
        (parse_dotted_numeric_version version_2 max_parts)
        (parse_dotted_numeric_version version_10 max_parts)
is_downgrade_lem_example = is_downgrade_lem version_2 version_10

-- The parts 1 and 10.
first-IsPart : IsPart (1 ∷ [])
unfolding IsPart AllDigits
first-IsPart = (omega arith, tt)

ten-AllParts : AllParts ((1 ∷ 0 ∷ []) ∷ [])
unfolding AllParts IsPart AllDigits
ten-AllParts = ((omega arith, (omega arith, tt)), tt)

parse-dotted_example :
    parse_dotted_numeric_version (dotted (1 ∷ []) ((1 ∷ 0 ∷ []) ∷ [])) max_parts
    ≡ some (map part_value ((1 ∷ []) ∷ (1 ∷ 0 ∷ []) ∷ []))
parse-dotted_example =
    parse-dotted (1 ∷ []) ((1 ∷ 0 ∷ []) ∷ []) first-IsPart ten-AllParts (omega arith)
