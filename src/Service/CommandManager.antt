-- ===== src/Service/CommandManager.antt =====
-- components/service/command_manager.cpp: the commands and their results on their way into the
-- dispatcher, and the tries of each command. An operation takes the manager and the runtime and
-- returns both; the lock makes each queue operation one step.
pub mod Loops
pub mod Errors
pub mod Drains
pub mod Tracking
pub mod Invariant
pub mod Retries
pub mod Timeouts
pub mod States
use zigbee_gateway_v.Common.{
  ℕ, zero, suc, ◌+◌, ◌-◌, Bool, true, false, not, ◌&&◌, ◌||◌, Option, none, some, List, [], ◌∷◌,
  ltb, leb, ◌==◌, if◌then◌else◌, length, get_or, set, replicate, find_index, u32,
}
use zigbee_gateway_v.Core.Events.{CoreEvent, CoreError, no_event, no_correlation_id}
use zigbee_gateway_v.Core.Commands.{
  CoreCommand, CoreCommandType, CoreCommandResult, CoreCommandResultType, no_command,
}
use zigbee_gateway_v.Core.Dispatcher.{
  CoreCommandDispatcher, new_dispatcher, max_pending, submit, resolve, expire_timeouts,
}
use zigbee_gateway_v.Service.Ring.{Ring, new_ring, push, pop}
use zigbee_gateway_v.Service.Runtime.{
  ServiceRuntime, drop_ingress, drop_event, count_retry, count_timeout, push_event,
  try_route_tuya_init_result,
}

-- `kCommandIngressQueueCapacity` and `kCommandResultQueueCapacity`.
abbrev pub queue_capacity : ℕ
queue_capacity = 16

abbrev pub no_result : CoreCommandResult
no_result = record {
  correlation_id = no_correlation_id;
  type = CoreCommandResultType.failed;
  completed_at_ms = 0;
}

pub record TrackedCommand : Type 0 where
  pub in_use : Bool
  pub command : CoreCommand
  pub retries_left : ℕ  -- uint8_t

abbrev pub no_tracked : TrackedCommand
no_tracked = record { in_use = false; command = no_command; retries_left = 0 }

-- An element of the request queue, a `CommandIngressNotification`, is its command.
pub record CommandManager : Type 0 where
  pub command_request_queue : Ring CoreCommand
  pub command_result_queue : Ring CoreCommandResult
  pub tracked_commands : List TrackedCommand
  pub command_dispatcher : CoreCommandDispatcher
  pub pending_dispatcher_commands_cache : ℕ  -- uint32_t

abbrev pub new_manager : CommandManager
new_manager = record {
  command_request_queue = new_ring queue_capacity no_command;
  command_result_queue = new_ring queue_capacity no_result;
  tracked_commands = replicate max_pending no_tracked;
  command_dispatcher = new_dispatcher;
  pending_dispatcher_commands_cache = 0;
}

abbrev pub is_unknown : CoreCommandType → Bool
is_unknown CoreCommandType.unknown = true
is_unknown _ = false

unfoldable pub post_command :
    CommandManager → ServiceRuntime → CoreCommand → CommandManager × ServiceRuntime × CoreError
post_command m rt command =
    if command.correlation_id == no_correlation_id || is_unknown command.type
    then (m, rt, CoreError.invalid_argument)
    else let (queue, done) = push queue_capacity m.command_request_queue command in
      if done
      then (record m { command_request_queue = queue }, rt, CoreError.ok)
      else (m, drop_ingress rt, CoreError.no_capacity)

unfoldable pub handle_command_result :
    CommandManager
    → ServiceRuntime
    → CoreCommandResult
    → CommandManager × ServiceRuntime × CoreError
handle_command_result m rt result =
    if result.correlation_id == no_correlation_id
    then (m, rt, CoreError.invalid_argument)
    else let (queue, done) = push queue_capacity m.command_result_queue result in
      if done
      then (record m { command_result_queue = queue }, rt, CoreError.ok)
      else (m, drop_ingress rt, CoreError.no_capacity)

-- The test of `find_tracked_command`.
abbrev pub tracks : ℕ → TrackedCommand → Bool
tracks correlation_id t = t.in_use && t.command.correlation_id == correlation_id

abbrev pub is_vacant : TrackedCommand → Bool
is_vacant t = not t.in_use

unfoldable pub find_tracked_command : List TrackedCommand → ℕ → Option ℕ
find_tracked_command tracked correlation_id =
    if correlation_id == no_correlation_id then none else find_index (tracks correlation_id) tracked

unfoldable pub release_tracked_command : List TrackedCommand → ℕ → List TrackedCommand
release_tracked_command tracked correlation_id =
    elim (find_tracked_command tracked correlation_id) [
      | none ↦ tracked
      | some i ↦ set tracked i no_tracked
    ]

abbrev pub refresh_pending_commands_cache : CommandManager → CommandManager
refresh_pending_commands_cache m = record m {
  pending_dispatcher_commands_cache = u32 m.command_dispatcher.pending_count;
}

-- `find_tracked_command`, or else `allocate_tracked_command`.
unfoldable pub find_or_allocate : List TrackedCommand → ℕ → Option ℕ
find_or_allocate tracked correlation_id = elim (find_tracked_command tracked correlation_id) [
  | some i ↦ some i
  | none ↦ find_index is_vacant tracked
]

-- `submit_command_internal` from where the dispatcher has taken the command.
unfoldable pub track :
    CommandManager
    → ServiceRuntime
    → CoreCommand
    → CoreEvent
    → CommandManager × ServiceRuntime × CoreError
track m rt command request_event =
    elim (find_or_allocate m.tracked_commands command.correlation_id) [
      | none ↦ (m, rt, CoreError.no_capacity)
      | some i ↦
          let t : TrackedCommand = record {
            in_use = true;
            command = command;
            retries_left = rt.max_command_retries;
          } in
          let (rt', pushed) = push_event rt request_event in
          (
            record m { tracked_commands = set m.tracked_commands i t },
            rt',
            if pushed then CoreError.ok else CoreError.no_capacity,
          )
    ]

unfoldable pub submit_command_internal :
    CommandManager → ServiceRuntime → CoreCommand → CommandManager × ServiceRuntime × CoreError
submit_command_internal m rt command =
    let (d, err, request_event) = submit m.command_dispatcher command in
    elim request_event [
      | none ↦ (record m { command_dispatcher = d }, rt, err)
      | some event ↦
          track (refresh_pending_commands_cache (record m { command_dispatcher = d })) rt command
            event
    ]

abbrev pub is_ok : CoreError → Bool
is_ok CoreError.ok = true
is_ok _ = false

unfoldable pub resolve_command_result :
    CommandManager
    → ServiceRuntime
    → CoreCommandResult
    → CommandManager × ServiceRuntime × CoreError
resolve_command_result m rt result =
    let (d, err, completion_event) = resolve m.command_dispatcher result no_event in
    let m' = record m { command_dispatcher = d } in
    let refreshed = refresh_pending_commands_cache m' in
    let released = record refreshed {
      tracked_commands = release_tracked_command m.tracked_commands result.correlation_id;
    } in
    let (rt', pushed) = push_event rt completion_event in
    if is_ok err
    then (released, rt', if pushed then CoreError.ok else CoreError.no_capacity)
    else (m', rt, err)
