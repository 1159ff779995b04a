-- ===== src/Core/Reducer/Apply.antt =====
-- components/core/core_reducer.cpp: the helpers that change one device record and push effects.
-- `out` is the result under construction, and `state_changed` is returned with it.
use zigbee_gateway_v.Common.{
  ℕ, ◌+◌, Bool, true, false, not, ◌||◌, none, some, ◌==◌, same_bool, if◌then◌else◌, u32,
}
use zigbee_gateway_v.Core.DeviceId.{DeviceId}
use zigbee_gateway_v.Core.Events.{
  CoreEvent, CoreEffect, CoreEffectType, no_correlation_id, unknown_short_addr,
}
use zigbee_gateway_v.Core.State.{
  CoreState, CoreDeviceRecord, CoreReportingState, CoreReduceResult, device_at, push,
}
use zigbee_gateway_v.Core.Reducer.Telemetry.{update_telemetry, reporting_state_eq}
use zigbee_gateway_v.Core.Reducer.Lookup.{find_device_index, put_device}

abbrev pub persist_effect : CoreState → CoreEffect
persist_effect s = record {
  type = CoreEffectType.persist_state;
  correlation_id = no_correlation_id;
  device_short_addr = unknown_short_addr;
  arg_u32 = u32 (s.revision + 1);
  arg_bool = s.network_connected;
}

abbrev pub telemetry_effect : CoreState → CoreEffect
telemetry_effect s = record {
  type = CoreEffectType.publish_telemetry;
  correlation_id = no_correlation_id;
  device_short_addr = unknown_short_addr;
  arg_u32 = s.device_count;
  arg_bool = s.network_connected;
}

unfoldable pub push_state_persist_and_telemetry : CoreReduceResult → CoreReduceResult
unfolding push
push_state_persist_and_telemetry out = record out {
  effects = push (push out.effects (persist_effect out.next)) (telemetry_effect out.next);
}

-- An effect that names the device of the event.
abbrev pub zigbee_effect : CoreEffectType → ℕ → CoreEffect
zigbee_effect t short_addr = record {
  type = t;
  correlation_id = no_correlation_id;
  device_short_addr = short_addr;
  arg_u32 = 0;
  arg_bool = false;
}

abbrev pub push_effect : CoreReduceResult → CoreEffect → CoreReduceResult
push_effect out e = record out { effects = push out.effects e }

unfoldable pub apply_onoff_attribute : CoreReduceResult → CoreEvent → CoreReduceResult × Bool
apply_onoff_attribute out event =
    if not (event.cluster_id == 0x0006) || not (event.attribute_id == 0x0000)
    then (out, false)
    else elim (find_device_index out.next event.device_id event.device_short_addr) [
      | none ↦ (out, false)
      | some index ↦
          let device = device_at out.next index in
          if not (same_bool device.power_on event.value_bool) || not device.online
          then (
            record out {
              next =
                  put_device out.next index
                    (record device { power_on = event.value_bool; online = true });
            },
            true,
          )
          else (out, false)
    ]

-- The record that `apply_reporting_state` leaves, and whether it differs.
unfoldable pub with_reporting_state :
    CoreDeviceRecord → CoreReportingState → Bool → CoreDeviceRecord × Bool
with_reporting_state device reporting_state stale = (
  record device { reporting_state = reporting_state; stale = stale },
  not (reporting_state_eq device.reporting_state reporting_state)
      || not (same_bool device.stale stale),
)

unfoldable pub apply_reporting_state :
    CoreReduceResult → DeviceId → ℕ → CoreReportingState → Bool → CoreReduceResult × Bool
unfolding with_reporting_state
apply_reporting_state out device_id short_addr reporting_state stale =
    elim (find_device_index out.next device_id short_addr) [
      | none ↦ (out, false)
      | some index ↦
          let (device, changed) =
            with_reporting_state (device_at out.next index) reporting_state stale in
          (record out { next = put_device out.next index device }, changed)
    ]

unfoldable pub apply_telemetry_update : CoreReduceResult → CoreEvent → CoreReduceResult × Bool
apply_telemetry_update out event =
    elim (find_device_index out.next event.device_id event.device_short_addr) [
      | none ↦ (out, false)
      | some index ↦
          let (device, changed) = update_telemetry (device_at out.next index) event in
          (record out { next = put_device out.next index device }, changed)
    ]
