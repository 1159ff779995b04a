-- ===== src/Core/Reducer/Ranges.antt =====
-- components/core/core_reducer.cpp: the values that a device record can hold.
use zigbee_gateway_v.Common.{ℕ, ◌<◌, ◌≤◌, arith}
use zigbee_gateway_v.Common.Int.{ℤ, pos, negsuc, ◌≤ℤ◌, IsInt32, to_i16}
use zigbee_gateway_v.Core.Events.{CoreEvent, CoreTelemetryKind}
use zigbee_gateway_v.Core.State.{CoreDeviceRecord}
use zigbee_gateway_v.Core.Reducer.Telemetry.{
  update_telemetry, set_measured, note_report, clamp_to, clamp_i8,
}

-- The fields of an event hold values of their types.
pub record IsEvent (event : CoreEvent) : Type 0 where
  pub locator : event.device_short_addr < 0x10000
  pub value : event.value_u32 < 0x100000000
  pub telemetry : IsInt32 event.telemetry_i32

-- Each value of a record fits its type, and a battery holds 100 percent at most.
pub record InRange (d : CoreDeviceRecord) : Type 0 where
  pub locator : d.short_addr < 0x10000
  pub report : d.last_report_at_ms < 0x100000000
  pub cold : negsuc 0x7fff ≤ℤ d.temperature_centi_c
  pub warm : d.temperature_centi_c ≤ℤ pos 0x7fff
  pub percent : d.battery_percent ≤ 100
  pub voltage : d.battery_voltage_mv < 0x10000
  pub lqi : d.lqi < 0x100
  pub weak : negsuc 0x7f ≤ℤ d.rssi_dbm
  pub strong : d.rssi_dbm ≤ℤ pos 0x7f

clamp_to-le : (top : ℕ) (raw : ℤ) → top < 0x80000000 → clamp_to top raw ≤ top
clamp_to-le top (pos n) h = ground arith
clamp_to-le top (negsuc n) h = ground arith

clamp_i8_range : (raw : ℤ) → (negsuc 0x7f ≤ℤ clamp_i8 raw) × (clamp_i8 raw ≤ℤ pos 0x7f)
clamp_i8_range (pos n) = ground arith
clamp_i8_range (negsuc n) = ground arith

to_i16_range : (z : ℤ) → (negsuc 0x7fff ≤ℤ to_i16 z) × (to_i16 z ≤ℤ pos 0x7fff)
to_i16_range (pos n) = ground arith
to_i16_range (negsuc n) = ground arith

set_measured-InRange :
    (k : CoreTelemetryKind) (event : CoreEvent) (d : CoreDeviceRecord)
    → InRange d
    → InRange (set_measured k d event).0
unfolding set_measured
set_measured-InRange CoreTelemetryKind.none event d r = r
set_measured-InRange CoreTelemetryKind.temperature_centi_c event d r =
    ground (arith, to_i16_range event.telemetry_i32)
set_measured-InRange CoreTelemetryKind.rssi_dbm event d r =
    ground (arith, clamp_i8_range event.telemetry_i32)
set_measured-InRange _ event d r = ground (
  arith,
  clamp_to-le 100 event.telemetry_i32,
  clamp_to-le 0xffff event.telemetry_i32,
  clamp_to-le 0xff event.telemetry_i32,
)

pub update_telemetry-InRange :
    (event : CoreEvent) (d : CoreDeviceRecord)
    → IsEvent event
    → InRange d
    → InRange (update_telemetry d event).0
unfolding update_telemetry note_report
update_telemetry-InRange event d v r =
    set_measured-InRange event.telemetry_kind event (note_report d event).0 (omega arith)
