-- ===== src/Service/DeviceManager/Snapshot.antt =====
-- components/service/device_manager.cpp: `build_runtime_snapshot`. A row holds the elements of the
-- arrays of `DeviceRuntimeSnapshot` at one index.
use zigbee_gateway_v.Common.{
  ℕ, zero, suc, ◌<◌, ◌≡◌, refl, Bool, true, false, not, ◌||◌, Option, none, some, List, [], ◌∷◌,
  map, arith, Option-cases, inl, inr, if◌then◌else◌, length, get_or, find_index,
}
use zigbee_gateway_v.Common.Int.{ℤ, pos}
use zigbee_gateway_v.Core.State.{
  CoreState, CoreDeviceRecord, CoreReportingState, no_device, device_at,
}
use zigbee_gateway_v.Service.DeviceManager.{
  DeviceManager, no_device_addr, is_pending_for, pending_at, time_left,
  get_force_remove_remaining_ms,
}

pub record DeviceRuntimeRow : Type 0 where
  pub force_remove_ms_left : ℕ  -- uint32_t
  pub reporting_state : CoreReportingState
  pub last_report_at_ms : ℕ  -- uint32_t
  pub stale : Bool
  pub battery_percent : ℕ  -- uint8_t
  pub has_battery : Bool
  pub battery_voltage_mv : ℕ  -- uint16_t
  pub has_battery_voltage : Bool
  pub lqi : ℕ  -- uint8_t
  pub has_lqi : Bool
  pub rssi_dbm : ℤ  -- int8_t
  pub has_rssi : Bool

abbrev pub no_row : DeviceRuntimeRow
no_row = record {
  force_remove_ms_left = 0;
  reporting_state = CoreReportingState.unknown;
  last_report_at_ms = 0;
  stale = false;
  battery_percent = 0;
  has_battery = false;
  battery_voltage_mv = 0;
  has_battery_voltage = false;
  lqi = 0;
  has_lqi = false;
  rssi_dbm = pos 0;
  has_rssi = false;
}

pub record DeviceRuntimeSnapshot : Type 0 where
  pub join_window_open : Bool
  pub join_window_seconds_left : ℕ  -- uint16_t
  pub rows : List DeviceRuntimeRow

-- The inner loop: the time to the removal of an address, 0 if there is none.
unfoldable pub remaining_ms : DeviceManager → ℕ → ℕ → ℕ
remaining_ms m now_ms a = elim (find_index (is_pending_for a) m.pending_force_remove) [
  | none ↦ 0
  | some i ↦ time_left now_ms (pending_at m i).deadline_ms
]

-- A device that is offline or has no address keeps the empty row.
unfoldable pub row_of : DeviceManager → ℕ → CoreDeviceRecord → DeviceRuntimeRow
row_of m now_ms d = if no_device_addr d.short_addr || not d.online then no_row else record {
  force_remove_ms_left = remaining_ms m now_ms d.short_addr;
  reporting_state = d.reporting_state;
  last_report_at_ms = d.last_report_at_ms;
  stale = d.stale;
  battery_percent = d.battery_percent;
  has_battery = d.has_battery;
  battery_voltage_mv = d.battery_voltage_mv;
  has_battery_voltage = d.has_battery_voltage;
  lqi = d.lqi;
  has_lqi = d.has_lqi;
  rssi_dbm = d.rssi_dbm;
  has_rssi = d.has_rssi;
}

unfoldable pub build_runtime_snapshot :
    DeviceManager → CoreState → ℕ → Bool → ℕ → DeviceRuntimeSnapshot
build_runtime_snapshot m state now_ms join_window_open join_window_seconds_left = record {
  join_window_open = join_window_open;
  join_window_seconds_left = if join_window_open then join_window_seconds_left else 0;
  rows = map (row_of m now_ms) state.devices;
}

-- The time in a result, 0 for a failure.
abbrev pub or_zero : Option ℕ → ℕ
or_zero none = 0
or_zero (some n) = n

get_or-map :
    {A B : Type 0} (f : A → B) (xs : List A) (i : ℕ) (d : A) (e : B)
    → i < length xs
    → get_or (map f xs) i e ≡ f (get_or xs i d)
get_or-map f [] i d e lt = absurd (omega arith)
get_or-map f (x ∷ xs) zero d e lt = refl
get_or-map f (x ∷ xs) (suc i) d e lt = get_or-map f xs i d e (omega arith)

remaining-agrees :
    (m : DeviceManager) (now_ms a : ℕ)
    → no_device_addr a ≡ false
    → remaining_ms m now_ms a ≡ or_zero (get_force_remove_remaining_ms m a now_ms)
unfolding remaining_ms get_force_remove_remaining_ms
remaining-agrees m now_ms a h =
    elim (Option-cases (find_index (is_pending_for a) m.pending_force_remove)) [
      | inl e ↦ rw (remaining_ms, e, h) refl
      | inr (i, e) ↦ rw (remaining_ms, e, h) refl
    ]

-- The snapshot shows, for a device that is online under an address of a device, the same time to
-- its removal as `get_force_remove_remaining_ms`, and 0 where that fails.
pub snapshot-remaining :
    (m : DeviceManager) (state : CoreState) (now_ms seconds i : ℕ) (join_open : Bool)
    → i < length state.devices
    → no_device_addr (device_at state i).short_addr ≡ false
    → (device_at state i).online ≡ true
    → (get_or
        (build_runtime_snapshot m state now_ms join_open seconds).rows
        i
        no_row).force_remove_ms_left
      ≡ or_zero (get_force_remove_remaining_ms m (device_at state i).short_addr now_ms)
unfolding build_runtime_snapshot row_of
snapshot-remaining m state now_ms seconds i join_open lt known here =
    rw (get_or-map (row_of m now_ms) state.devices i no_device no_row lt, known, here)
      (remaining-agrees m now_ms (device_at state i).short_addr known)
