-- ===== src/Core/Reducer.antt =====
-- components/core/core_reducer.cpp: the pure step of the gateway's state. `out` is the result under
-- construction, and `state_changed` is returned with it.
pub mod Telemetry
pub mod Lookup
pub mod Apply
pub mod Identity
pub mod Ranges
pub mod Moves
pub mod Invariant
pub mod Outcomes
pub mod Effects
pub mod Isolation
use zigbee_gateway_v.Common.{
  ℕ, ◌+◌, ◌-◌, ◌≡◌, Bool, true, false, not, ◌&&◌, none, some, [], ltb, ◌==◌, if◌then◌else◌, u16,
  u32,
}
use zigbee_gateway_v.Core.DeviceId.{valid}
use zigbee_gateway_v.Core.Events.{
  CoreEvent, CoreEventType, CoreEffect, CoreEffectType, no_correlation_id, unknown_short_addr,
}
use zigbee_gateway_v.Core.State.{
  CoreState, CoreDeviceRecord, CoreReportingState, CoreReduceResult, no_device, device_at,
}
use Lookup.{find_device_index, find_free_slot, put_device}
use Apply.{
  push_state_persist_and_telemetry, push_effect, zigbee_effect, apply_onoff_attribute,
  apply_reporting_state, apply_telemetry_update,
}

-- What a changed state pushes; an unchanged one pushes nothing.
abbrev pub announce : CoreReduceResult × Bool → CoreReduceResult × Bool
announce (out, changed) = (if changed then push_state_persist_and_telemetry out else out, changed)

-- The same, with one more effect after it.
abbrev pub announce_with : CoreEffect → CoreReduceResult × Bool → CoreReduceResult × Bool
announce_with e (out, changed) =
    (if changed then push_effect (push_state_persist_and_telemetry out) e else out, changed)

-- A new record, in the free slot `index`.
abbrev pub fresh_device : CoreDeviceRecord → CoreEvent → CoreDeviceRecord
fresh_device d event = record d {
  device_id = event.device_id;
  short_addr = event.device_short_addr;
  online = true;
  power_on = false;
}

abbrev pub add_device : CoreState → ℕ → CoreDeviceRecord → CoreState
add_device s index d = record (put_device s index d) { device_count = u16 (s.device_count + 1) }

abbrev pub interview : CoreEvent → CoreEffect
interview event = zigbee_effect CoreEffectType.zigbee_interview event.device_short_addr

-- `case kDeviceJoined`, where the device has no record yet.
unfoldable pub join_new : CoreReduceResult → CoreEvent → CoreReduceResult × Bool
join_new out event = elim (find_free_slot out.next) [
  | none ↦ (out, false)
  | some index ↦
      let s = out.next in
      announce_with (interview event)
        (record out { next = add_device s index (fresh_device (device_at s index) event) }, true)
]

-- `case kDeviceJoined`, where the device has the record at `index`.
unfoldable pub join_known : CoreReduceResult → ℕ → CoreEvent → CoreReduceResult × Bool
join_known out index event =
    let s = out.next in
    let d = device_at s index in
    let moved = record d { short_addr = event.device_short_addr } in
    if not d.online
    then announce_with (interview event)
        (record out { next = add_device s index (record moved { online = true }) }, true)
    else if not (d.short_addr == event.device_short_addr)
    then announce (record out { next = put_device s index moved }, true)
    else (out, false)

abbrev pub is_anonymous : CoreEvent → Bool
is_anonymous event = not (valid event.device_id) && event.device_short_addr == unknown_short_addr

unfoldable pub reduce_joined : CoreReduceResult → CoreEvent → CoreReduceResult × Bool
reduce_joined out event =
    if is_anonymous event
    then (out, false)
    else elim (find_device_index out.next event.device_id event.device_short_addr) [
      | none ↦ join_new out event
      | some index ↦ join_known out index event
    ]

-- `case kDeviceLeft`, at the record of the device.
unfoldable pub leave : CoreReduceResult → ℕ → CoreReduceResult × Bool
leave out index =
    let s = out.next in
    let d = device_at s index in
    let count = if d.online && ltb 0 s.device_count then s.device_count - 1 else s.device_count in
    announce
      (record out { next = record (put_device s index no_device) { device_count = count } }, true)

unfoldable pub reduce_left : CoreReduceResult → CoreEvent → CoreReduceResult × Bool
reduce_left out event =
    if is_anonymous event
    then (out, false)
    else elim (find_device_index out.next event.device_id event.device_short_addr) [
      | none ↦ (out, false)
      | some index ↦ leave out index
    ]

-- `case kNetworkUp` and `case kNetworkDown`.
unfoldable pub reduce_network : Bool → CoreReduceResult → CoreReduceResult × Bool
reduce_network up out =
    if (if up then not out.next.network_connected else out.next.network_connected)
    then announce (record out { next = record out.next { network_connected = up } }, true)
    else (out, false)

-- The three `case kCommandResult…`.
unfoldable pub reduce_result : ℕ → Bool → CoreReduceResult → CoreEvent → CoreReduceResult × Bool
reduce_result status success out event = (
  push_effect (record out { next = record out.next { last_command_status = status } })
      (record {
        type = CoreEffectType.emit_command_result;
        correlation_id = event.correlation_id;
        device_short_addr = event.device_short_addr;
        arg_u32 = status;
        arg_bool = success;
      }),
  true,
)

-- A `case` that moves the device to a reporting state.
abbrev pub to_reporting :
    CoreReportingState → Bool → CoreReduceResult → CoreEvent → CoreReduceResult × Bool
to_reporting r stale out event =
    apply_reporting_state out event.device_id event.device_short_addr r stale

-- The `switch` of `core_reduce`.
unfoldable pub dispatch : CoreEventType → CoreReduceResult → CoreEvent → CoreReduceResult × Bool
dispatch CoreEventType.device_joined out event = reduce_joined out event
dispatch CoreEventType.device_left out event = reduce_left out event
dispatch CoreEventType.network_up out event = reduce_network true out
dispatch CoreEventType.network_down out event = reduce_network false out
dispatch CoreEventType.attribute_reported out event = announce (apply_onoff_attribute out event)
dispatch CoreEventType.command_set_device_power_requested out event = (
  push_effect out (record {
    type = CoreEffectType.send_zigbee_on_off;
    correlation_id = event.correlation_id;
    device_short_addr = event.device_short_addr;
    arg_u32 = 0;
    arg_bool = event.value_bool;
  }),
  false,
)
dispatch CoreEventType.command_refresh_network_requested out event = (
  push_effect out (record {
    type = CoreEffectType.refresh_network;
    correlation_id = event.correlation_id;
    device_short_addr = unknown_short_addr;
    arg_u32 = 0;
    arg_bool = false;
  }),
  false,
)
dispatch CoreEventType.command_result_success out event = reduce_result 1 true out event
dispatch CoreEventType.command_result_timeout out event = reduce_result 2 false out event
dispatch CoreEventType.command_result_failed out event = reduce_result 3 false out event
dispatch CoreEventType.device_interview_completed out event =
    announce_with (zigbee_effect CoreEffectType.zigbee_bind event.device_short_addr)
      (to_reporting CoreReportingState.interview_completed false out event)
dispatch CoreEventType.device_binding_ready out event =
    announce_with (zigbee_effect CoreEffectType.zigbee_configure_reporting event.device_short_addr)
      (to_reporting CoreReportingState.binding_ready false out event)
dispatch CoreEventType.device_reporting_configured out event =
    announce_with (zigbee_effect CoreEffectType.zigbee_read_attributes event.device_short_addr)
      (to_reporting CoreReportingState.reporting_configured false out event)
dispatch CoreEventType.device_telemetry_updated out event =
    announce (apply_telemetry_update out event)
dispatch CoreEventType.device_stale out event =
    announce (to_reporting CoreReportingState.stale true out event)
dispatch CoreEventType.unknown out event = (out, false)

-- The end of `core_reduce`: a changed state gets the next revision.
abbrev pub finish : CoreState → CoreReduceResult × Bool → CoreReduceResult
finish prev (out, changed) =
    if changed
    then record out { next = record out.next { revision = u32 (prev.revision + 1) } }
    else out

unfoldable pub core_reduce : CoreState → CoreEvent → CoreReduceResult
unfolding dispatch
core_reduce prev event =
    finish prev (dispatch event.type (record { next = prev; effects = [] }) event)
