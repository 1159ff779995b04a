-- ===== src/Core/Reducer/Telemetry.antt =====
-- components/core/core_reducer.cpp, `apply_telemetry_update`: what one telemetry event does to the
-- record of its device.
use Prim.Native.Nat.{bit_and}
use zigbee_gateway_v.Common.{ℕ, Bool, true, false, not, ◌||◌, ◌==◌, same_bool, if◌then◌else◌}
use zigbee_gateway_v.Common.Int.{ℤ, pos, negsuc, leb_ℤ, eqb_ℤ, to_u32, to_i16}
use zigbee_gateway_v.Core.Events.{CoreEvent, CoreTelemetryKind}
use zigbee_gateway_v.Core.State.{
  CoreDeviceRecord, CoreReportingState, CoreOccupancyState, CoreContactState,
}

-- The enumerators in the order of the source.
abbrev reporting_code : CoreReportingState → ℕ
reporting_code CoreReportingState.unknown = 0
reporting_code CoreReportingState.interview_completed = 1
reporting_code CoreReportingState.binding_ready = 2
reporting_code CoreReportingState.reporting_configured = 3
reporting_code CoreReportingState.reporting_active = 4
reporting_code CoreReportingState.stale = 5

abbrev pub reporting_state_eq : CoreReportingState → CoreReportingState → Bool
reporting_state_eq a b = reporting_code a == reporting_code b

abbrev occupancy_code : CoreOccupancyState → ℕ
occupancy_code CoreOccupancyState.unknown = 0
occupancy_code CoreOccupancyState.not_occupied = 1
occupancy_code CoreOccupancyState.occupied = 2

abbrev contact_code : CoreContactState → ℕ
contact_code CoreContactState.unknown = 0
contact_code CoreContactState.closed = 1
contact_code CoreContactState.open_ = 2

-- `raw <= 0 ? 0 : (raw >= top ? top : raw)`.
abbrev pub clamp_to : ℕ → ℤ → ℕ
clamp_to top raw = if leb_ℤ raw (pos 0) then 0 else if leb_ℤ (pos top) raw then top else to_u32 raw

-- `raw <= -128 ? -128 : (raw >= 127 ? 127 : raw)`.
abbrev pub clamp_i8 : ℤ → ℤ
clamp_i8 raw =
    if leb_ℤ raw (negsuc 127) then negsuc 127 else if leb_ℤ (pos 127) raw then pos 127 else raw

-- A result is the record and `changed`. First what every telemetry event does.
unfoldable pub note_report : CoreDeviceRecord → CoreEvent → CoreDeviceRecord × Bool
note_report d event = (
  record d {
    reporting_state = CoreReportingState.reporting_active;
    stale = false;
    last_report_at_ms = event.value_u32;
  },
  not (reporting_state_eq d.reporting_state CoreReportingState.reporting_active)
      || (d.stale || not (d.last_report_at_ms == event.value_u32)),
)

set_temperature : CoreDeviceRecord → CoreEvent → CoreDeviceRecord × Bool
set_temperature d event =
    let next_temp = to_i16 event.telemetry_i32 in
    if event.telemetry_valid
    then if not d.has_temperature || not (eqb_ℤ d.temperature_centi_c next_temp)
      then (record d { temperature_centi_c = next_temp; has_temperature = true }, true)
      else (d, false)
    else if d.has_temperature
    then (record d { has_temperature = false }, true)
    else (d, false)

set_occupancy : CoreDeviceRecord → CoreEvent → CoreDeviceRecord × Bool
set_occupancy d event =
    let next_state =
      if event.telemetry_valid
      then if not (eqb_ℤ event.telemetry_i32 (pos 0))
        then CoreOccupancyState.occupied
        else CoreOccupancyState.not_occupied
      else CoreOccupancyState.unknown in
    if not (occupancy_code d.occupancy_state == occupancy_code next_state)
    then (record d { occupancy_state = next_state }, true)
    else (d, false)

-- `(status_mask & mask) != 0` for the IAS zone status.
abbrev status_bit : CoreEvent → ℕ → Bool
status_bit event mask = not (bit_and (to_u32 event.telemetry_i32) mask == 0)

set_contact : CoreDeviceRecord → CoreEvent → CoreDeviceRecord × Bool
set_contact d event =
    let next_contact_state =
      if event.telemetry_valid
      then if status_bit event 1 then CoreContactState.open_ else CoreContactState.closed
      else CoreContactState.unknown in
    let next_tamper = if event.telemetry_valid then status_bit event 2 else d.contact_tamper in
    let next_battery_low =
      if event.telemetry_valid then status_bit event 4 else d.contact_battery_low in
    (
      record d {
        contact_state = next_contact_state;
        contact_tamper = next_tamper;
        contact_battery_low = next_battery_low;
      },
      not (contact_code d.contact_state == contact_code next_contact_state)
          || (not (same_bool d.contact_tamper next_tamper)
              || not (same_bool d.contact_battery_low next_battery_low)),
    )

set_battery_percent : CoreDeviceRecord → CoreEvent → CoreDeviceRecord × Bool
set_battery_percent d event =
    let next_percent = clamp_to 100 event.telemetry_i32 in
    if event.telemetry_valid
    then if not d.has_battery || not (d.battery_percent == next_percent)
      then (record d { battery_percent = next_percent; has_battery = true }, true)
      else (d, false)
    else if d.has_battery
    then (record d { has_battery = false }, true)
    else (d, false)

set_battery_voltage : CoreDeviceRecord → CoreEvent → CoreDeviceRecord × Bool
set_battery_voltage d event =
    let next_mv = clamp_to 65535 event.telemetry_i32 in
    if event.telemetry_valid
    then if not d.has_battery_voltage || not (d.battery_voltage_mv == next_mv)
      then (record d { battery_voltage_mv = next_mv; has_battery_voltage = true }, true)
      else (d, false)
    else if d.has_battery_voltage
    then (record d { has_battery_voltage = false }, true)
    else (d, false)

set_lqi : CoreDeviceRecord → CoreEvent → CoreDeviceRecord × Bool
set_lqi d event =
    let next_lqi = clamp_to 255 event.telemetry_i32 in
    if event.telemetry_valid
    then if not d.has_lqi || not (d.lqi == next_lqi)
      then (record d { lqi = next_lqi; has_lqi = true }, true)
      else (d, false)
    else if d.has_lqi
    then (record d { has_lqi = false }, true)
    else (d, false)

set_rssi : CoreDeviceRecord → CoreEvent → CoreDeviceRecord × Bool
set_rssi d event =
    let next_rssi = clamp_i8 event.telemetry_i32 in
    if event.telemetry_valid
    then if not d.has_rssi || not (eqb_ℤ d.rssi_dbm next_rssi)
      then (record d { rssi_dbm = next_rssi; has_rssi = true }, true)
      else (d, false)
    else if d.has_rssi
    then (record d { has_rssi = false }, true)
    else (d, false)

-- The chain of tests on `event.telemetry_kind`.
unfoldable pub set_measured :
    CoreTelemetryKind → CoreDeviceRecord → CoreEvent → CoreDeviceRecord × Bool
unfolding set_temperature set_occupancy set_contact set_battery_percent set_battery_voltage set_lqi
    set_rssi
set_measured CoreTelemetryKind.temperature_centi_c d event = set_temperature d event
set_measured CoreTelemetryKind.occupancy d event = set_occupancy d event
set_measured CoreTelemetryKind.contact_ias_zone_status d event = set_contact d event
set_measured CoreTelemetryKind.battery_percent d event = set_battery_percent d event
set_measured CoreTelemetryKind.battery_voltage_milli_v d event = set_battery_voltage d event
set_measured CoreTelemetryKind.lqi d event = set_lqi d event
set_measured CoreTelemetryKind.rssi_dbm d event = set_rssi d event
set_measured CoreTelemetryKind.none d event = (d, false)

-- The body of `apply_telemetry_update` on the device that is found.
unfoldable pub update_telemetry : CoreDeviceRecord → CoreEvent → CoreDeviceRecord × Bool
unfolding note_report set_measured
update_telemetry d event =
    let (noted, reported) = note_report d event in
    let (measured, changed) = set_measured event.telemetry_kind noted event in
    (measured, reported || changed)
