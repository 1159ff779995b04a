-- ===== src/Core/Tests.antt =====
-- Runs of components/core on small inputs, and each theorem at one of them.
use zigbee_gateway_v.Common.{
  ℕ, ◌+◌, ◌≤◌, ◌≡◌, refl, true, some, List, [], ◌∷◌, map, arith, set, get_or-replicate, find_index,
  count_if, length, subst,
}
use zigbee_gateway_v.Common.Int.{pos}
use zigbee_gateway_v.Core.DeviceId.{
  DeviceId, parse, format, format_bytes, valid, id_eq, bytes_eq, hex_length,
}
use zigbee_gateway_v.Core.DeviceId.Text.{IsId, parse-format, format-parse}
use zigbee_gateway_v.Core.Events.{CoreEvent, CoreEventType, CoreTelemetryKind, no_event}
use zigbee_gateway_v.Core.State.{
  CoreState, CoreDeviceRecord, initial_state, no_device, device_at, max_devices, push,
}
use zigbee_gateway_v.Core.Reducer.{core_reduce, reduce_joined, join_new}
use zigbee_gateway_v.Core.Reducer.Lookup.{find_device_index, find_free_slot, is_free}
use zigbee_gateway_v.Core.Reducer.Apply.{push_state_persist_and_telemetry, apply_telemetry_update}
use zigbee_gateway_v.Core.Reducer.Telemetry.{update_telemetry}
use zigbee_gateway_v.Core.Reducer.Invariant.{Inv, initial_state-Inv, core_reduce-Inv}
use zigbee_gateway_v.Core.Reducer.Isolation.{resolved_isolated, core_reduce-InRange}
use zigbee_gateway_v.Core.Reducer.Ranges.{InRange}
use zigbee_gateway_v.Core.Commands.{
  CoreCommand, CoreCommandType, CoreCommandResult, CoreCommandResultType, no_command,
}
use zigbee_gateway_v.Core.Dispatcher.{
  new_dispatcher, submit, resolve, expire_timeouts, timeout_event, max_pending,
}
use zigbee_gateway_v.Core.Dispatcher
use zigbee_gateway_v.Core.Dispatcher.Table.{lookup, unless_expired, expired_commands}
use zigbee_gateway_v.Core.Dispatcher.Laws
use zigbee_gateway_v.Core.Dispatcher.Laws.{
  Distinct-replicate, Submitted, Resolved, new_dispatcher-Inv, submit-Submitted, resolve-Resolved,
  expire_timeouts-Inv, expire_timeouts_exact,
}

abbrev first_id : DeviceId
first_id = record { bytes = 0 ∷ 0x12 ∷ 0x4b ∷ 0 ∷ 0x14 ∷ 0xd9 ∷ 0xe7 ∷ 0xa1 ∷ [] }

abbrev second_id : DeviceId
second_id = record { bytes = 0 ∷ 0x12 ∷ 0x4b ∷ 0 ∷ 0x14 ∷ 0xd9 ∷ 0xe8 ∷ 0 ∷ [] }

-- "00124b0014d9e7a1"
abbrev first_text : List ℕ
first_text =
    b'0' ∷ b'0' ∷ b'1' ∷ b'2' ∷ b'4' ∷ b'b' ∷ b'0' ∷ b'0' ∷ b'1' ∷ b'4' ∷ b'd' ∷ b'9' ∷ b'e' ∷ b'7'
    ∷ b'a' ∷ b'1' ∷ []

first_id-IsId : IsId first_id
first_id-IsId = record { eight = refl; small = omega arith }

first_format : format first_id 16 ≡ some first_text
unfolding format format_bytes
first_format = refl

parse-format_example : parse first_text ≡ some first_id
parse-format_example = parse-format first_id 16 first_text first_id-IsId first_format

format-parse_example :
    IsId first_id
    × (length first_text ≡ hex_length)
    × (format first_id hex_length ≡ some first_text)
format-parse_example = format-parse first_id first_text parse-format_example

abbrev joined : DeviceId → ℕ → CoreEvent
joined id a = record no_event {
  type = CoreEventType.device_joined;
  device_id = id;
  device_short_addr = a;
}

-- The first device alone, in slot 0.
abbrev first_device : CoreDeviceRecord
first_device = record no_device { device_id = first_id; short_addr = 0x1234; online = true }

abbrev one_device : CoreState
one_device = record initial_state {
  revision = 1;
  device_count = 1;
  devices = set initial_state.devices 0 first_device;
}

first_join : (core_reduce initial_state (joined first_id 0x1234)).next ≡ one_device
unfolding core_reduce reduce_joined join_new find_device_index find_free_slot find_index is_free
    valid push_state_persist_and_telemetry push id_eq bytes_eq
first_join = refl

core_reduce-Inv_example : Inv (core_reduce initial_state (joined first_id 0x1234)).next
core_reduce-Inv_example = core_reduce-Inv initial_state (joined first_id 0x1234) initial_state-Inv

-- A leave that names the locator of the first device and another identity.
abbrev stranger_left : CoreEvent
stranger_left = record (joined second_id 0x1234) { type = CoreEventType.device_left }

resolved_isolated_example : device_at (core_reduce one_device stranger_left).next 0 ≡ first_device
unfolding valid
resolved_isolated_example = resolved_isolated one_device stranger_left 0 refl (λ e. ground arith)

abbrev hot : CoreEvent
hot = record (joined first_id 0x1234) {
  type = CoreEventType.device_telemetry_updated;
  value_u32 = 77;
  telemetry_kind = CoreTelemetryKind.battery_percent;
  telemetry_i32 = pos 250;
  telemetry_valid = true;
}

initial_state-InRange : (j : ℕ) → InRange (device_at initial_state j)
initial_state-InRange j = rw (get_or-replicate max_devices no_device j) (omega arith)

one_device-InRange : (j : ℕ) → InRange (device_at one_device j)
one_device-InRange =
    subst (λ s. (j : ℕ) → InRange (device_at s j)) first_join
      (core_reduce-InRange initial_state (joined first_id 0x1234) (omega arith)
        initial_state-InRange)

-- The telemetry of 250 percent is stored as 100.
hot_percent : (device_at (core_reduce one_device hot).next 0).battery_percent ≡ 100
unfolding core_reduce apply_telemetry_update find_device_index valid find_index id_eq bytes_eq
    update_telemetry push_state_persist_and_telemetry
hot_percent = refl

core_reduce-InRange_example : InRange (device_at (core_reduce one_device hot).next 0)
core_reduce-InRange_example = core_reduce-InRange one_device hot (omega arith) one_device-InRange 0

abbrev switch_on : CoreCommand
switch_on = record no_command {
  type = CoreCommandType.set_device_power;
  correlation_id = 7;
  device_id = first_id;
  device_short_addr = 0x1234;
  desired_power_on = true;
  issued_at_ms = 100;
}

submit-Submitted_example : Submitted new_dispatcher switch_on (submit new_dispatcher switch_on)
submit-Submitted_example = submit-Submitted new_dispatcher new_dispatcher-Inv switch_on

abbrev succeeded : CoreCommandResult
succeeded = record {
  correlation_id = 7;
  type = CoreCommandResultType.success;
  completed_at_ms = 150;
}

-- With `switch_on` in the first entry.
abbrev one_pending : Dispatcher.CoreCommandDispatcher
one_pending = record new_dispatcher {
  pending = set new_dispatcher.pending 0 (record { in_use = true; command = switch_on });
  pending_count = 1;
}

one_pending-Inv : Laws.Inv one_pending
unfolding count_if lookup
one_pending-Inv = record {
  size = refl;
  distinct = ((λ h. refl), Distinct-replicate 15);
  counted = refl;
}

resolve-Resolved_example :
    Resolved one_pending succeeded no_event (resolve one_pending succeeded no_event)
resolve-Resolved_example = resolve-Resolved one_pending one_pending-Inv succeeded no_event

resolved_once : (resolve one_pending succeeded no_event).0 ≡ new_dispatcher
unfolding resolve find_index
resolved_once = refl

expire_timeouts-Inv_example :
    let (d, events) = expire_timeouts one_pending 200 100 4 in
    Laws.Inv d × (length events ≤ 4) × (d.pending_count + length events ≡ 1)
expire_timeouts-Inv_example = expire_timeouts-Inv one_pending 200 100 4 one_pending-Inv

expire_timeouts_exact_example :
    let (d, events) = expire_timeouts one_pending 200 100 16 in
    (events ≡ map (timeout_event 200) (expired_commands 200 100 one_pending.pending))
    × (lookup 7 d.pending ≡ unless_expired 200 100 (lookup 7 one_pending.pending))
expire_timeouts_exact_example =
    expire_timeouts_exact one_pending 200 100 16 7 one_pending-Inv (omega arith) (omega arith)
