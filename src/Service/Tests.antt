-- ===== src/Service/Tests.antt =====
-- Runs of components/service on small inputs, and each theorem at one of them.
use zigbee_gateway_v.Common.{
  none, ℕ, ◌≡◌, refl, get_or, true, false, some, List, [], ◌∷◌, arith, set, if◌then◌else◌,
  find_index, length,
}
use zigbee_gateway_v.Core.DeviceId.{DeviceId, valid, id_eq, bytes_eq}
use zigbee_gateway_v.Core.Events.{CoreEvent, CoreEventType, no_event}
use zigbee_gateway_v.Service.DeviceManager.Leaving.{is_waiting, handle_event-left}
use zigbee_gateway_v.Core.State.{CoreState, initial_state, no_device}
use zigbee_gateway_v.Service.LocatorRegistry.{
  DeviceLocatorRegistry, DeviceLocatorRemapResult, cleared, remap, remove, target_slot, displace,
}
use zigbee_gateway_v.Service.LocatorRegistry.Removal.{Removed, remove-Removed}
use zigbee_gateway_v.Service.LocatorRegistry.Laws.{Inv, cleared-Inv}
use zigbee_gateway_v.Service.LocatorRegistry.Remap.{Remapped, remap-Remapped, remap-Inv}
use zigbee_gateway_v.Service.DeviceManager.{
  DeviceManager, handle_event, new_manager, schedule_force_remove, collect_expired_force_remove,
  get_force_remove_remaining_ms, is_duplicate_join_candidate, scan_candidates, DeviceManager,
}
use zigbee_gateway_v.Service.DeviceManager.Deadlines
use zigbee_gateway_v.Service.DeviceManager.Deadlines.{deadline_of, new_manager-Inv}
use zigbee_gateway_v.Service.DeviceManager.ForceRemove.{
  Scheduled, reached_addrs, unless_reached, schedule_force_remove-Scheduled, collect_expired_exact,
}
use zigbee_gateway_v.Service.DeviceManager.Snapshot.{
  build_runtime_snapshot, no_row, or_zero, snapshot-remaining,
}
use zigbee_gateway_v.Service.DeviceManager.JoinCandidates.{
  seen_of, recently, Noted, is_duplicate-recently,
}
use zigbee_gateway_v.Service.Tuya.DpParser.{
  TuyaPayloadView, TuyaDpItem, TuyaDpType, TuyaDpParseStatus, parse,
}
use zigbee_gateway_v.Service.Tuya.DpFrames.{encode_items, parse-frame}

abbrev sensor_id : DeviceId
sensor_id = record { bytes = 0 ∷ 0x12 ∷ 0x4b ∷ 0 ∷ 0x14 ∷ 0xd9 ∷ 0xe7 ∷ 0xa1 ∷ [] }

abbrev plug_id : DeviceId
plug_id = record { bytes = 0 ∷ 0x12 ∷ 0x4b ∷ 0 ∷ 0x14 ∷ 0xd9 ∷ 0xe8 ∷ 0 ∷ [] }

-- With the sensor alone, at 0x1234.
abbrev one_mapped : DeviceLocatorRegistry
one_mapped = (remap cleared sensor_id 0x1234).0

one_mapped-Inv : Inv one_mapped
one_mapped-Inv = remap-Inv cleared sensor_id 0x1234 cleared-Inv

-- The plug takes the address of the sensor.
plug_displaces :
    ((remap one_mapped plug_id 0x1234).1 ≡ DeviceLocatorRemapResult.displaced)
    × ((remap one_mapped plug_id 0x1234).2 ≡ some 2)
unfolding remap target_slot displace find_index valid id_eq bytes_eq
plug_displaces = (refl, refl)

remap-Remapped_example : Remapped one_mapped plug_id 0x1234 (remap one_mapped plug_id 0x1234)
remap-Remapped_example = remap-Remapped one_mapped one_mapped-Inv plug_id 0x1234

remove-Removed_example : Removed one_mapped sensor_id (remove one_mapped sensor_id)
remove-Removed_example = remove-Removed one_mapped one_mapped-Inv sensor_id

schedule_force_remove-Scheduled_example :
    Scheduled new_manager 0x1234 500 (schedule_force_remove new_manager 0x1234 500)
schedule_force_remove-Scheduled_example =
    schedule_force_remove-Scheduled new_manager 0x1234 500 new_manager-Inv

-- With one removal in the first slot.
abbrev one_pending : DeviceManager
one_pending = record new_manager {
  pending_force_remove =
      set new_manager.pending_force_remove 0
        (record { in_use = true; short_addr = 0x1234; deadline_ms = 500 });
}

one_scheduled : schedule_force_remove new_manager 0x1234 500 ≡ (one_pending, true)
unfolding schedule_force_remove find_index
one_scheduled = refl

one_pending-Inv : Deadlines.Inv one_pending
unfolding deadline_of
one_pending-Inv = record { size = refl; distinct = ((λ h. refl), new_manager-Inv.distinct.1) }

collect_expired_exact_example :
    let (m, expired) = collect_expired_force_remove one_pending 600 in
    (expired ≡ reached_addrs 600 one_pending.pending_force_remove)
    × ((k : ℕ)
        → deadline_of k m.pending_force_remove
          ≡ unless_reached 600 (deadline_of k one_pending.pending_force_remove))
    × Deadlines.Inv m
collect_expired_exact_example = collect_expired_exact one_pending 600 one_pending-Inv

-- The history has the address since 100.
abbrev one_candidate : DeviceManager
one_candidate = (is_duplicate_join_candidate new_manager 0x1234 100).0

-- It is refused at 200, and let through at 6000.
joined_twice :
    ((is_duplicate_join_candidate one_candidate 0x1234 200).1 ≡ true)
    × ((is_duplicate_join_candidate one_candidate 0x1234 6000).1 ≡ false)
unfolding is_duplicate_join_candidate scan_candidates
joined_twice = (refl, refl)

is_duplicate-recently_example :
    let (m, duplicate) = is_duplicate_join_candidate one_candidate 0x1234 200 in
    (duplicate ≡ recently 200 (seen_of 0x1234 one_candidate.join_candidate_history))
    × (seen_of 0x1234 m.join_candidate_history
        ≡ (if duplicate then seen_of 0x1234 one_candidate.join_candidate_history else some 200))
    × (length m.join_candidate_history ≡ 8)
    × Noted one_candidate 0x1234 200 (m, duplicate)
is_duplicate-recently_example =
    is_duplicate-recently one_candidate 0x1234 200
      (is_duplicate-recently new_manager 0x1234 100 refl refl).2 refl

abbrev switched_on : List TuyaDpItem
switched_on = record { dp_id = 1; dp_type = TuyaDpType.bool; value = 1 ∷ [] } ∷ []

abbrev switch_frame : TuyaPayloadView
switch_frame = record {
  short_addr = 0x1234;
  endpoint = 1;
  cluster_id = 0xef00;
  payload = 0 ∷ 7 ∷ encode_items switched_on;
}

parse-frame_example : parse switch_frame ≡ record {
  status = TuyaDpParseStatus.ok;
  short_addr = 0x1234;
  endpoint = 1;
  items = switched_on;
}
parse-frame_example =
    parse-frame switch_frame 0 7 switched_on refl refl (omega arith) (omega arith) (omega arith, tt)
      (omega arith)

-- The device of `one_pending` alone.
abbrev one_device : CoreState
one_device = record initial_state {
  device_count = 1;
  devices =
      set initial_state.devices 0
        (record no_device { device_id = sensor_id; short_addr = 0x1234; online = true });
}

snapshot-remaining_example :
    (get_or
      (build_runtime_snapshot one_pending one_device 100 false 0).rows
      0
      no_row).force_remove_ms_left
    ≡ or_zero (get_force_remove_remaining_ms one_pending 0x1234 100)
snapshot-remaining_example =
    snapshot-remaining one_pending one_device 100 0 0 false (omega arith) refl refl

abbrev sensor_left : CoreEvent
sensor_left = record no_event {
  type = CoreEventType.device_left;
  device_id = sensor_id;
  device_short_addr = 0x1234;
}

handle_event-left_example :
    let (m, changed) = handle_event one_pending sensor_left in
    (deadline_of 0x1234 m.pending_force_remove ≡ none)
    × (seen_of 0x1234 m.join_candidate_history ≡ none)
    × (changed ≡ is_waiting (deadline_of 0x1234 one_pending.pending_force_remove))
    × Deadlines.Inv m
handle_event-left_example =
    handle_event-left one_pending sensor_left 0x1234 one_pending-Inv refl refl refl
