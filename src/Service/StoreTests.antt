-- ===== src/Service/StoreTests.antt =====
-- Runs of the result store, the ring queues and the command manager on small inputs, and each
-- theorem about them at one.
use zigbee_gateway_v.Common.{
  ℕ, ◌≡◌, ◌⊎◌, ◌||◌, ◌==◌, ◌++◌, leb, refl, true, some, none, Option, List, [], ◌∷◌, arith,
  find_index, count_if, false, if◌then◌else◌, length, ◌+◌, get_or,
}
use zigbee_gateway_v.Core.Commands.{CoreCommand, CoreCommandType, no_command, command_to_event}
use zigbee_gateway_v.Core.Events.{CoreError, no_event, no_correlation_id}
use zigbee_gateway_v.Service.ResultStore.{
  Results, OtaPollStatus, publish_result, take_result, get_poll_status, ota_capacity,
}
use zigbee_gateway_v.Service.ResultStore.Queue.{Tagged, lookup}
use zigbee_gateway_v.Service.ResultStore.Lifecycle.{
  IsValid, publish_result-lookup, take_result-lookup,
}
use zigbee_gateway_v.Service.Ring.{new_ring, push, pop}
use zigbee_gateway_v.Core.Dispatcher.{submit, expire_timeouts, expire_loop}
use zigbee_gateway_v.Service.Ring.Refine.{
  Inv, run, run_list, contents, new_ring-Inv, push-Inv, run_refines,
}
use zigbee_gateway_v.Core.Dispatcher.Table.{is_used}
use zigbee_gateway_v.Core.Dispatcher.Table
use zigbee_gateway_v.Service.Runtime.{
  ServiceRuntime, event_queue_capacity, drop_ingress, push_event,
}
use zigbee_gateway_v.Service.Tuya.InitCoordinator.{new_coordinator}
use zigbee_gateway_v.Service.CommandManager.{
  CommandManager, new_manager, queue_capacity, no_tracked, is_unknown, post_command,
  find_tracked_command, submit_command_internal, track, find_or_allocate,
}
use zigbee_gateway_v.Service.CommandManager.Invariant
use zigbee_gateway_v.Service.CommandManager.Errors.{post_command-outcome}
use zigbee_gateway_v.Service.CommandManager.Loops.{
  drain_command_requests, process_timeouts, pending_commands, timeout_loop, on_timeout, try_again,
  request_rounds, handle_request,
}
use zigbee_gateway_v.Service.CommandManager.Drains.{Drained, drain_command_requests-Drained}
use zigbee_gateway_v.Service.CommandManager.States.{Step, start, next, Reachable-tracked}

-- No results of updates.
abbrev empty_results : Results ℕ OtaPollStatus
empty_results = record { results = []; statuses = [] }

empty_results-IsValid : IsValid ota_capacity empty_results
empty_results-IsValid = record {
  results = record { distinct = tt; fits = omega arith };
  statuses = record { distinct = tt; fits = omega arith };
}

-- The result 42 of request 7.
abbrev seventh : Tagged ℕ
seventh = record { request_id = 7; value = 42 }

publish_result-lookup_example :
    let (r', done) = publish_result ota_capacity OtaPollStatus.ready empty_results seventh in
    IsValid ota_capacity r'
    × (done ≡ true)
    × ((if done then empty_results else r') ≡ empty_results)
    × (lookup 7 r'.results ≡ some 42)
    × (lookup 7 r'.statuses ≡ some OtaPollStatus.ready)
unfolding publish_result
publish_result-lookup_example =
    publish_result-lookup ota_capacity (omega arith) OtaPollStatus.ready empty_results seventh 7
      empty_results-IsValid

abbrev one_result : Results ℕ OtaPollStatus
one_result = (publish_result ota_capacity OtaPollStatus.ready empty_results seventh).0

take_result-lookup_example :
    let (r', out) = take_result one_result 7 in
    (get_poll_status OtaPollStatus.not_ready OtaPollStatus.ready one_result 7 ≡ OtaPollStatus.ready)
    × (out ≡ some 42)
    × (get_poll_status OtaPollStatus.not_ready OtaPollStatus.ready r' 7 ≡ OtaPollStatus.not_ready)
    × ((take_result r' 7).1 ≡ none)
    × (lookup 7 r'.results ≡ none)
    × (lookup 7 r'.statuses ≡ none)
    × IsValid ota_capacity r'
unfolding publish_result
take_result-lookup_example =
    take_result-lookup ota_capacity one_result
      (publish_result-lookup ota_capacity (omega arith) OtaPollStatus.ready empty_results seventh 7
        empty_results-IsValid).0
      7 (omega arith) OtaPollStatus.not_ready OtaPollStatus.ready 7 42
      (publish_result-lookup ota_capacity (omega arith) OtaPollStatus.ready empty_results seventh 7
        empty_results-IsValid).3

-- A queue of two places: the third push is refused, and a place is used again after a pop.
abbrev calls : List (Option ℕ)
calls = some 1 ∷ some 2 ∷ some 3 ∷ none ∷ some 4 ∷ none ∷ none ∷ none ∷ []

run_refines_example :
    run 2 0 (new_ring 2 0) calls ≡ run_list 2 0 (contents 2 0 (new_ring 2 0)) calls
run_refines_example = run_refines 2 0 (new_ring 2 0) calls (new_ring-Inv 2 0 (omega arith))

-- A command to switch a device on.
abbrev switch_on : CoreCommand
switch_on = record no_command {
  type = CoreCommandType.set_device_power;
  correlation_id = 5;
  device_short_addr = 0x1234;
  desired_power_on = true;
  issued_at_ms = 1000;
}

abbrev runtime : ServiceRuntime
runtime = record {
  event_queue = new_ring event_queue_capacity no_event;
  stats = record {
    dropped_ingress_events = 0;
    dropped_events = 0;
    command_retries = 0;
    command_timeouts = 0;
  };
  tuya_init_coordinator = new_coordinator;
  max_command_retries = 1;
  command_timeout_ms = 5000;
}

-- The manager with the command in its queue, then with the command in the dispatcher, then past the
-- timeout.
abbrev posted : CommandManager
posted = (post_command new_manager runtime switch_on).0

abbrev submitted : CommandManager
submitted = (drain_command_requests posted runtime).0

abbrev retried : CommandManager
retried = (process_timeouts submitted runtime 6000).0

-- The command is tried again, with the new time and no further try.
tried_again :
    (Table.lookup 5 retried.command_dispatcher.pending
      ≡ some (record switch_on { issued_at_ms = 6000 }))
    × ((get_or retried.tracked_commands 0 no_tracked).retries_left ≡ 0)
    × (pending_commands retried ≡ 1)
unfolding process_timeouts expire_timeouts expire_loop timeout_loop on_timeout try_again
    find_tracked_command find_index submit push_event push command_to_event drain_command_requests
    request_rounds handle_request submit_command_internal track find_or_allocate pop post_command
    Table.lookup pending_commands count_if
tried_again = (refl, refl, refl)

posted_at : Inv queue_capacity no_command new_manager.command_request_queue
posted_at = new_ring-Inv queue_capacity no_command (omega arith)

post_command-outcome_example :
    let (m', rt', e) = post_command new_manager runtime switch_on in
    let waiting = contents queue_capacity no_command new_manager.command_request_queue in
    ((e ≡ CoreError.invalid_argument)
      × ((switch_on.correlation_id == no_correlation_id || is_unknown switch_on.type) ≡ true)
      × (m' ≡ new_manager)
      × (rt' ≡ runtime))
    ⊎ ((e ≡ CoreError.no_capacity)
        × ((switch_on.correlation_id == no_correlation_id || is_unknown switch_on.type) ≡ false)
        × (leb queue_capacity (length waiting) ≡ true)
        × (m' ≡ new_manager)
        × (rt' ≡ drop_ingress runtime))
    ⊎ ((e ≡ CoreError.ok)
        × ((switch_on.correlation_id == no_correlation_id || is_unknown switch_on.type) ≡ false)
        × (leb queue_capacity (length waiting) ≡ false)
        × (contents queue_capacity no_command m'.command_request_queue
            ≡ waiting ++ (switch_on ∷ []))
        × (m' ≡ record new_manager { command_request_queue = m'.command_request_queue })
        × (rt' ≡ runtime))
post_command-outcome_example = post_command-outcome new_manager runtime switch_on posted_at

drain_command_requests-Drained_example :
    Drained posted runtime (drain_command_requests posted runtime)
unfolding post_command push
drain_command_requests-Drained_example =
    drain_command_requests-Drained posted runtime
      (push-Inv queue_capacity no_command new_manager.command_request_queue posted_at switch_on)

Reachable-tracked_example :
    Invariant.Inv retried
    × (pending_commands retried
        ≡ count_if is_used retried.command_dispatcher.pending + retried.command_request_queue.count)
Reachable-tracked_example = Reachable-tracked (
    next
      (next (next start (Step.command_posted new_manager runtime switch_on))
        (Step.requests_drained posted runtime))
      (Step.timeouts_processed submitted runtime 6000))
