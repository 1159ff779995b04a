-- ===== src/Core/Events.antt =====
-- components/core/include/core_events.hpp, core_effects.hpp and core_errors.hpp: what goes into the
-- reducer and what comes out of it.
use zigbee_gateway_v.Common.{ℕ, Bool, false}
use zigbee_gateway_v.Common.Int.{ℤ, pos}
use zigbee_gateway_v.Core.DeviceId.{DeviceId, no_id}

-- `kNoCorrelationId` and `kUnknownDeviceShortAddr`.
abbrev pub no_correlation_id : ℕ
no_correlation_id = 0

abbrev pub unknown_short_addr : ℕ
unknown_short_addr = 0xffff

pub data CoreEventType : Type 0 where
  unknown device_joined device_left network_up network_down attribute_reported : CoreEventType
  command_set_device_power_requested command_refresh_network_requested : CoreEventType
  command_result_success command_result_timeout command_result_failed : CoreEventType
  device_interview_completed device_binding_ready device_reporting_configured : CoreEventType
  device_telemetry_updated device_stale : CoreEventType

pub data CoreTelemetryKind : Type 0 where
  none temperature_centi_c occupancy contact_ias_zone_status : CoreTelemetryKind
  battery_percent battery_voltage_milli_v lqi rssi_dbm : CoreTelemetryKind

pub record CoreEvent : Type 0 where
  pub type : CoreEventType
  pub correlation_id : ℕ  -- uint32_t
  pub device_id : DeviceId
  pub device_short_addr : ℕ  -- uint16_t
  pub cluster_id : ℕ  -- uint16_t
  pub attribute_id : ℕ  -- uint16_t
  pub value_u32 : ℕ  -- uint32_t
  pub value_bool : Bool
  pub telemetry_kind : CoreTelemetryKind
  pub telemetry_i32 : ℤ  -- int32_t
  pub telemetry_valid : Bool

-- `CoreEvent{}`.
abbrev pub no_event : CoreEvent
no_event = record {
  type = CoreEventType.unknown;
  correlation_id = no_correlation_id;
  device_id = no_id;
  device_short_addr = unknown_short_addr;
  cluster_id = 0;
  attribute_id = 0;
  value_u32 = 0;
  value_bool = false;
  telemetry_kind = CoreTelemetryKind.none;
  telemetry_i32 = pos 0;
  telemetry_valid = false;
}

pub data CoreEffectType : Type 0 where
  none persist_state publish_telemetry set_led send_zigbee_on_off : CoreEffectType
  refresh_network emit_command_result zigbee_interview zigbee_bind : CoreEffectType
  zigbee_configure_reporting zigbee_read_attributes : CoreEffectType

pub record CoreEffect : Type 0 where
  pub type : CoreEffectType
  pub correlation_id : ℕ  -- uint32_t
  pub device_short_addr : ℕ  -- uint16_t
  pub arg_u32 : ℕ  -- uint32_t
  pub arg_bool : Bool

pub data CoreError : Type 0 where
  ok invalid_argument not_found busy timeout no_capacity internal : CoreError
