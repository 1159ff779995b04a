-- ===== src/Core/State.antt =====
-- components/core/include/core_state.hpp: the device records, the state of the gateway and the
-- bounded list of effects of one reduction.
use zigbee_gateway_v.Common.{
  ℕ, Bool, false, List, [], ◌∷◌, ◌++◌, leb, if◌then◌else◌, length, get_or, replicate,
}
use zigbee_gateway_v.Common.Int.{ℤ, pos}
use zigbee_gateway_v.Core.DeviceId.{DeviceId, no_id}
use zigbee_gateway_v.Core.Events.{CoreEffect, unknown_short_addr}

abbrev pub max_devices : ℕ
max_devices = 64

abbrev pub max_effects_per_reduce : ℕ
max_effects_per_reduce = 4

pub data CoreReportingState : Type 0 where
  unknown interview_completed binding_ready reporting_configured : CoreReportingState
  reporting_active stale : CoreReportingState

pub data CoreOccupancyState : Type 0 where
  unknown not_occupied occupied : CoreOccupancyState

pub data CoreContactState : Type 0 where
  unknown closed open_ : CoreContactState

pub record CoreDeviceRecord : Type 0 where
  pub device_id : DeviceId
  pub short_addr : ℕ  -- uint16_t
  pub online : Bool
  pub power_on : Bool
  pub reporting_state : CoreReportingState
  pub last_report_at_ms : ℕ  -- uint32_t
  pub stale : Bool
  pub temperature_centi_c : ℤ  -- int16_t
  pub has_temperature : Bool
  pub occupancy_state : CoreOccupancyState
  pub contact_state : CoreContactState
  pub contact_tamper : Bool
  pub contact_battery_low : Bool
  pub battery_percent : ℕ  -- uint8_t
  pub has_battery : Bool
  pub battery_voltage_mv : ℕ  -- uint16_t
  pub has_battery_voltage : Bool
  pub lqi : ℕ  -- uint8_t
  pub has_lqi : Bool
  pub rssi_dbm : ℤ  -- int8_t
  pub has_rssi : Bool

-- `CoreDeviceRecord{}`: a free slot.
abbrev pub no_device : CoreDeviceRecord
no_device = record {
  device_id = no_id;
  short_addr = unknown_short_addr;
  online = false;
  power_on = false;
  reporting_state = CoreReportingState.unknown;
  last_report_at_ms = 0;
  stale = false;
  temperature_centi_c = pos 0;
  has_temperature = false;
  occupancy_state = CoreOccupancyState.unknown;
  contact_state = CoreContactState.unknown;
  contact_tamper = false;
  contact_battery_low = false;
  battery_percent = 0;
  has_battery = false;
  battery_voltage_mv = 0;
  has_battery_voltage = false;
  lqi = 0;
  has_lqi = false;
  rssi_dbm = pos 0;
  has_rssi = false;
}

pub record CoreState : Type 0 where
  pub revision : ℕ  -- uint32_t
  pub device_count : ℕ  -- uint16_t
  pub network_connected : Bool
  pub last_command_status : ℕ  -- uint8_t
  pub devices : List CoreDeviceRecord

-- `CoreState{}`.
abbrev pub initial_state : CoreState
initial_state = record {
  revision = 0;
  device_count = 0;
  network_connected = false;
  last_command_status = 0;
  devices = replicate max_devices no_device;
}

-- `state.devices[i]`.
abbrev pub device_at : CoreState → ℕ → CoreDeviceRecord
device_at s i = get_or s.devices i no_device

-- `CoreEffectList::push`: the effects pushed so far, in order; a push into a full list is lost.
unfoldable pub push : List CoreEffect → CoreEffect → List CoreEffect
push items effect =
    if leb max_effects_per_reduce (length items) then items else items ++ effect ∷ []

pub record CoreReduceResult : Type 0 where
  pub next : CoreState
  pub effects : List CoreEffect
