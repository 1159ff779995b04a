-- ===== src/Service/CommandManager/States.antt =====
-- components/service/command_manager.cpp: every order of the manager's operations.
use zigbee_gateway_v.Common.{
  ℕ, zero, suc, ◌+◌, ◌≡◌, refl, true, ◌||◌, Option-cases, Bool-cases, inl, inr, arith, ◌==◌,
  count_if, get_or, get_or-replicate, replicate, ◌≢◌,
}
use zigbee_gateway_v.Core.Events.{no_correlation_id}
use zigbee_gateway_v.Core.Commands.{CoreCommand, CoreCommandResult}
use zigbee_gateway_v.Core.Dispatcher.{max_pending}
use zigbee_gateway_v.Core.Dispatcher.Table.{is_used}
use zigbee_gateway_v.Core.Dispatcher.Laws.{new_dispatcher-Inv}
use zigbee_gateway_v.Service.Ring.{push}
use zigbee_gateway_v.Service.Runtime.{ServiceRuntime, try_route_tuya_init_result}
use zigbee_gateway_v.Service.CommandManager.{
  CommandManager, new_manager, queue_capacity, is_unknown, post_command, handle_command_result,
  submit_command_internal, resolve_command_result, is_ok, no_tracked,
}
use zigbee_gateway_v.Service.CommandManager.Loops.{
  pop_command_request, pop_command_result, handle_request, handle_result, request_rounds,
  result_rounds, drain_command_requests, drain_command_results, process_timeouts, pending_commands,
}
use zigbee_gateway_v.Service.CommandManager.Invariant.{
  Inv, submit_command_internal-Inv, resolve_command_result-Inv,
}
use zigbee_gateway_v.Service.CommandManager.Timeouts.{process_timeouts-Inv}

-- Only the dispatcher, the count of its commands and the tracked commands matter.
requeued-Inv :
    (m m' : CommandManager)
    → m'.command_dispatcher ≡ m.command_dispatcher
    → m'.pending_dispatcher_commands_cache ≡ m.pending_dispatcher_commands_cache
    → m'.tracked_commands ≡ m.tracked_commands
    → Inv m
    → Inv m'
requeued-Inv m m' d c t inv = record {
  dispatcher = rw d inv.dispatcher;
  cache = rw (d, c) inv.cache;
  size = rw t inv.size;
  tracked = rw (d, t) inv.tracked;
}

post_command-Inv :
    (m : CommandManager) (rt : ServiceRuntime) (c : CoreCommand)
    → Inv m
    → Inv (post_command m rt c).0
unfolding post_command
post_command-Inv m rt c inv =
    elim (Bool-cases (c.correlation_id == no_correlation_id || is_unknown c.type)) [
      | inl h ↦ rw h inv
      | inr h ↦ rw h (elim (Bool-cases (push queue_capacity m.command_request_queue c).1) [
        | inl p ↦ rw p (requeued-Inv m _ refl refl refl inv)
        | inr p ↦ rw p inv
      ])
    ]

handle_command_result-Inv :
    (m : CommandManager) (rt : ServiceRuntime) (r : CoreCommandResult)
    → Inv m
    → Inv (handle_command_result m rt r).0
unfolding handle_command_result
handle_command_result-Inv m rt r inv = elim (Bool-cases (r.correlation_id == no_correlation_id)) [
  | inl h ↦ rw h inv
  | inr h ↦ rw h (elim (Bool-cases (push queue_capacity m.command_result_queue r).1) [
    | inl p ↦ rw p (requeued-Inv m _ refl refl refl inv)
    | inr p ↦ rw p inv
  ])
]

handle_request-Inv :
    (s : CommandManager × ServiceRuntime) (c : CoreCommand) → Inv s.0 → Inv (handle_request s c).0
unfolding handle_request
handle_request-Inv (m, rt) c inv = elim (Bool-cases (is_ok (submit_command_internal m rt c).2)) [
  | inl h ↦ rw h (submit_command_internal-Inv m rt c inv)
  | inr h ↦ rw h (submit_command_internal-Inv m rt c inv)
]

handle_result-Inv :
    (s : CommandManager × ServiceRuntime) (r : CoreCommandResult)
    → Inv s.0
    → Inv (handle_result s r).0
unfolding handle_result
handle_result-Inv (m, rt) r inv =
    let routed = try_route_tuya_init_result rt r in
    elim (Bool-cases routed.1) [
      | inl h ↦ rw h inv
      | inr h ↦ rw h (elim (Bool-cases (is_ok (resolve_command_result m routed.0 r).2)) [
        | inl k ↦ rw k (resolve_command_result-Inv m routed.0 r inv)
        | inr k ↦ rw k (resolve_command_result-Inv m routed.0 r inv)
      ])
    ]

request_rounds-Inv :
    (fuel : ℕ) (m : CommandManager) (rt : ServiceRuntime) → Inv m → Inv (request_rounds fuel m rt).0
unfolding request_rounds
request_rounds-Inv zero m rt inv = inv
request_rounds-Inv (suc fuel) m rt inv =
    let popped = pop_command_request m in
    let inv' = requeued-Inv m popped.0 refl refl refl inv in
    elim (Option-cases popped.1) [
      | inl h ↦ rw (h, request_rounds) inv'
      | inr (c, h) ↦
          let s = handle_request (popped.0, rt) c in
          rw (h, request_rounds)
            (request_rounds-Inv fuel s.0 s.1 (handle_request-Inv (popped.0, rt) c inv'))
    ]

result_rounds-Inv :
    (fuel : ℕ) (m : CommandManager) (rt : ServiceRuntime) → Inv m → Inv (result_rounds fuel m rt).0
unfolding result_rounds
result_rounds-Inv zero m rt inv = inv
result_rounds-Inv (suc fuel) m rt inv =
    let popped = pop_command_result m in
    let inv' = requeued-Inv m popped.0 refl refl refl inv in
    elim (Option-cases popped.1) [
      | inl h ↦ rw (h, result_rounds) inv'
      | inr (r, h) ↦
          let s = handle_result (popped.0, rt) r in
          rw (h, result_rounds)
            (result_rounds-Inv fuel s.0 s.1 (handle_result-Inv (popped.0, rt) r inv'))
    ]

-- One call of an operation, with whatever runtime it meets.
pub data Step : CommandManager → CommandManager → Type 0 where
  command_posted :
      (m : CommandManager) (rt : ServiceRuntime) (c : CoreCommand) → Step m (post_command m rt c).0
  result_posted :
      (m : CommandManager) (rt : ServiceRuntime) (r : CoreCommandResult)
      → Step m (handle_command_result m rt r).0
  requests_drained :
      (m : CommandManager) (rt : ServiceRuntime) → Step m (drain_command_requests m rt).0
  results_drained :
      (m : CommandManager) (rt : ServiceRuntime) → Step m (drain_command_results m rt).0
  timeouts_processed :
      (m : CommandManager) (rt : ServiceRuntime) (now_ms : ℕ)
      → Step m (process_timeouts m rt now_ms).0

pub data Reachable : CommandManager → Type 0 where
  start : Reachable new_manager
  next : {m m' : CommandManager} → Reachable m → Step m m' → Reachable m'

Step-Inv : {m m' : CommandManager} → Step m m' → Inv m → Inv m'
unfolding drain_command_requests drain_command_results
Step-Inv (command_posted m rt c) inv = post_command-Inv m rt c inv
Step-Inv (result_posted m rt r) inv = handle_command_result-Inv m rt r inv
Step-Inv (requests_drained m rt) inv = request_rounds-Inv _ m rt inv
Step-Inv (results_drained m rt) inv = result_rounds-Inv _ m rt inv
Step-Inv (timeouts_processed m rt now_ms) inv = process_timeouts-Inv m rt now_ms inv

none_tracked : (i : ℕ) → (get_or (replicate max_pending no_tracked) i no_tracked).in_use ≢ true
none_tracked i = rw (get_or-replicate max_pending no_tracked i) (λ u. cc)

new_manager-Inv : Inv new_manager
new_manager-Inv = record {
  dispatcher = new_dispatcher-Inv;
  cache = refl;
  size = refl;
  tracked = record {
    each = λ i u. absurd (none_tracked i u);
    unique = λ i j ne u. absurd (none_tracked i u);
  };
}

Reachable-Inv : {m : CommandManager} → Reachable m → Inv m
Reachable-Inv start = new_manager-Inv
Reachable-Inv (next r s) = Step-Inv s (Reachable-Inv r)

-- Whatever the order of the manager's operations and the state of the runtime they meet, each
-- tracked command waits in the dispatcher under its id, as it was last submitted, and no two
-- tracked commands have one id; the dispatcher's own invariant holds; and `pending_commands`
-- counts the commands in the dispatcher and those in the queue of requests.
pub Reachable-tracked :
    {m : CommandManager}
    → Reachable m
    → Inv m
      × (pending_commands m
          ≡ count_if is_used m.command_dispatcher.pending + m.command_request_queue.count)
unfolding pending_commands
Reachable-tracked {m} r =
    let inv = Reachable-Inv r in (inv, omega (arith, inv.cache, inv.dispatcher.counted))
