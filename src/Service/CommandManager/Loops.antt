-- ===== src/Service/CommandManager/Loops.antt =====
-- components/service/command_manager.cpp: the loops that drain the queues, and `process_timeouts`.
use zigbee_gateway_v.Common.{
  ℕ, zero, suc, ◌+◌, ◌-◌, Bool, true, false, Option, none, some, List, [], ◌∷◌, ltb, if◌then◌else◌,
  get_or, set,
}
use zigbee_gateway_v.Core.Events.{CoreEvent}
use zigbee_gateway_v.Core.Commands.{CoreCommand, CoreCommandResult, no_command}
use zigbee_gateway_v.Core.Dispatcher.{max_pending, submit, expire_timeouts}
use zigbee_gateway_v.Service.Ring.{pop}
use zigbee_gateway_v.Service.Runtime.{
  ServiceRuntime, drop_event, count_retry, count_timeout, push_event, try_route_tuya_init_result,
}
use zigbee_gateway_v.Service.CommandManager.{
  CommandManager, no_tracked, no_result, queue_capacity, find_tracked_command,
  release_tracked_command, submit_command_internal, resolve_command_result, is_ok,
  refresh_pending_commands_cache,
}

abbrev pub pop_command_request : CommandManager → CommandManager × Option CoreCommand
pop_command_request m =
    let (queue, out) = pop queue_capacity no_command m.command_request_queue in
    (record m { command_request_queue = queue }, out)

abbrev pub pop_command_result : CommandManager → CommandManager × Option CoreCommandResult
pop_command_result m =
    let (queue, out) = pop queue_capacity no_result m.command_result_queue in
    (record m { command_result_queue = queue }, out)

-- The body of the loop of `drain_command_requests`: a command that is not taken counts as dropped.
unfoldable pub handle_request :
    CommandManager × ServiceRuntime → CoreCommand → CommandManager × ServiceRuntime
handle_request (m, rt) command =
    let (m', rt', err) = submit_command_internal m rt command in
    if is_ok err then (m', rt') else (m', drop_event rt')

-- The body of the loop of `drain_command_results`: a result that no start-up takes is resolved.
unfoldable pub handle_result :
    CommandManager × ServiceRuntime → CoreCommandResult → CommandManager × ServiceRuntime
handle_result (m, rt) result =
    let (rt_routed, routed) = try_route_tuya_init_result rt result in
    let (m', rt', err) = resolve_command_result m rt_routed result in
    if routed then (m, rt_routed) else if is_ok err then (m', rt') else (m', drop_event rt')

-- The loop of `drain_command_requests`, for the rounds of the fuel at most.
unfoldable pub request_rounds :
    ℕ → CommandManager → ServiceRuntime → CommandManager × ServiceRuntime × Bool
request_rounds zero m rt = (m, rt, false)
request_rounds (suc fuel) m rt = elim (pop_command_request m).1 [
  | none ↦ ((pop_command_request m).0, rt, false)
  | some command ↦
      let (m', rt') = handle_request ((pop_command_request m).0, rt) command in
      let (m'', rt'', drained) = request_rounds fuel m' rt' in (m'', rt'', true)
]

unfoldable pub result_rounds :
    ℕ → CommandManager → ServiceRuntime → CommandManager × ServiceRuntime × Bool
result_rounds zero m rt = (m, rt, false)
result_rounds (suc fuel) m rt = elim (pop_command_result m).1 [
  | none ↦ ((pop_command_result m).0, rt, false)
  | some result ↦
      let (m', rt') = handle_result ((pop_command_result m).0, rt) result in
      let (m'', rt'', drained) = result_rounds fuel m' rt' in (m'', rt'', true)
]

-- One round more than the queue has elements sees it empty.
unfoldable pub drain_command_requests :
    CommandManager → ServiceRuntime → CommandManager × ServiceRuntime × Bool
drain_command_requests m rt = request_rounds (suc m.command_request_queue.count) m rt

unfoldable pub drain_command_results :
    CommandManager → ServiceRuntime → CommandManager × ServiceRuntime × Bool
drain_command_results m rt = result_rounds (suc m.command_result_queue.count) m rt

-- What the body of the loop of `process_timeouts` does: the last part is whether it queued an event.
-- Giving up: no more tries, or the new try could not be announced.
unfoldable pub give_up :
    CommandManager → ServiceRuntime → CoreEvent → CommandManager × ServiceRuntime × Bool
give_up m rt timeout_event =
    let (rt', pushed) = push_event (count_timeout rt) timeout_event in
    (
      record m {
        tracked_commands = release_tracked_command m.tracked_commands timeout_event.correlation_id;
      },
      rt',
      pushed,
    )

-- A try more, for the tracked command at an index.
unfoldable pub try_again :
    CommandManager → ServiceRuntime → CoreEvent → ℕ → ℕ → CommandManager × ServiceRuntime × Bool
try_again m rt timeout_event now_ms i =
    let t = get_or m.tracked_commands i no_tracked in
    let c = t.command in
    let command = record c { issued_at_ms = now_ms } in
    let (d, err, retry_request) = submit m.command_dispatcher command in
    let m' = record m {
      tracked_commands =
          set m.tracked_commands i
            (record t { command = command; retries_left = t.retries_left - 1 });
      command_dispatcher = d;
    } in
    elim retry_request [
      | none ↦ give_up m' (count_retry rt) timeout_event
      | some event ↦
          let (rt', pushed) = push_event (count_retry rt) event in
          if pushed then (m', rt', true) else give_up m' rt' timeout_event
    ]

unfoldable pub on_timeout :
    CommandManager → ServiceRuntime → CoreEvent → ℕ → CommandManager × ServiceRuntime × Bool
on_timeout m rt timeout_event now_ms =
    elim (find_tracked_command m.tracked_commands timeout_event.correlation_id) [
      | none ↦ give_up m rt timeout_event
      | some i ↦
          if ltb 0 (get_or m.tracked_commands i no_tracked).retries_left
          then try_again m rt timeout_event now_ms i
          else give_up m rt timeout_event
    ]

-- The loop of `process_timeouts`, with the number of events it queued.
unfoldable pub timeout_loop :
    CommandManager → ServiceRuntime → ℕ → List CoreEvent → CommandManager × ServiceRuntime × ℕ
timeout_loop m rt now_ms [] = (m, rt, 0)
timeout_loop m rt now_ms (event ∷ events) =
    let (m', rt', queued) = on_timeout m rt event now_ms in
    let (m'', rt'', n) = timeout_loop m' rt' now_ms events in
    (m'', rt'', if queued then n + 1 else n)

unfoldable pub process_timeouts :
    CommandManager → ServiceRuntime → ℕ → CommandManager × ServiceRuntime × ℕ
process_timeouts m rt now_ms =
    let (d, events) =
      expire_timeouts m.command_dispatcher now_ms rt.command_timeout_ms max_pending in
    let (m', rt', queued) = timeout_loop (record m { command_dispatcher = d }) rt now_ms events in
    (refresh_pending_commands_cache m', rt', queued)

unfoldable pub pending_ingress_count : CommandManager → ℕ
pending_ingress_count m = m.command_request_queue.count + m.command_result_queue.count

unfoldable pub pending_commands : CommandManager → ℕ
pending_commands m = m.pending_dispatcher_commands_cache + m.command_request_queue.count
