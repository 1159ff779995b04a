-- ===== src/Core/Reducer/Lookup.antt =====
-- components/core/core_reducer.cpp: how the reducer finds the record of a device, or a free slot.
use zigbee_gateway_v.Common.{ℕ, Bool, not, ◌&&◌, Option, none, ◌==◌, if◌then◌else◌, set, find_index}
use zigbee_gateway_v.Core.DeviceId.{DeviceId, valid, id_eq}
use zigbee_gateway_v.Core.Events.{unknown_short_addr}
use zigbee_gateway_v.Core.State.{CoreState, CoreDeviceRecord}

-- The test of the loops of `find_device_index`: by identity where the caller has one, and else by
-- locator, among the records without an identity.
unfoldable pub matches : DeviceId → ℕ → CoreDeviceRecord → Bool
matches device_id short_addr d =
    if valid device_id
    then id_eq d.device_id device_id
    else not (short_addr == unknown_short_addr)
      && (not (valid d.device_id) && d.short_addr == short_addr)

-- `none` is the index -1.
unfoldable pub find_device_index : CoreState → DeviceId → ℕ → Option ℕ
find_device_index state device_id short_addr =
    if valid device_id
    then find_index (λ d. id_eq d.device_id device_id) state.devices
    else if short_addr == unknown_short_addr
    then none
    else find_index (λ d. not (valid d.device_id) && d.short_addr == short_addr) state.devices

unfoldable pub is_free : CoreDeviceRecord → Bool
is_free d = not (valid d.device_id) && d.short_addr == unknown_short_addr

unfoldable pub find_free_slot : CoreState → Option ℕ
find_free_slot state = find_index is_free state.devices

-- `out->next.devices[index] = d`.
abbrev pub put_device : CoreState → ℕ → CoreDeviceRecord → CoreState
put_device s i d = record s { devices = set s.devices i d }
