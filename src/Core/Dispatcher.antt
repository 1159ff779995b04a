-- ===== src/Core/Dispatcher.antt =====
-- components/core/core_command_dispatcher.cpp: the table of commands that wait for a result. An
-- operation takes the dispatcher and returns the new one; an out parameter is a result, or an
-- argument and a result where the code writes only some of its fields.
pub mod Table
pub mod Laws
use zigbee_gateway_v.Common.{
  ℕ, zero, suc, ◌+◌, ◌-◌, ◌≡◌, Bool, true, false, not, ◌&&◌, ◌||◌, Option, none, some, List, [],
  ◌∷◌, ltb, leb, ◌==◌, if◌then◌else◌, length, get_or, set, replicate, find_index, sub_u32,
}
use zigbee_gateway_v.Core.Events.{CoreEvent, CoreEventType, CoreError, no_event, no_correlation_id}
use zigbee_gateway_v.Core.Commands.{
  CoreCommand, CoreCommandResult, no_command, is_supported_command, map_result_to_event, is_success,
  command_to_event,
}

abbrev pub max_pending : ℕ
max_pending = 16

pub record PendingEntry : Type 0 where
  pub in_use : Bool
  pub command : CoreCommand

abbrev pub no_entry : PendingEntry
no_entry = record { in_use = false; command = no_command }

pub record CoreCommandDispatcher : Type 0 where
  pub pending : List PendingEntry
  pub pending_count : ℕ  -- size_t

abbrev pub new_dispatcher : CoreCommandDispatcher
new_dispatcher = record { pending = replicate max_pending no_entry; pending_count = 0 }

-- The test of the loops that look for a command.
abbrev pub waits_for : ℕ → PendingEntry → Bool
waits_for correlation_id e = e.in_use && e.command.correlation_id == correlation_id

abbrev pub is_vacant : PendingEntry → Bool
is_vacant e = not e.in_use

-- `if (pending_count_ > 0) --pending_count_;`.
abbrev pub count_down : ℕ → ℕ
count_down n = if ltb 0 n then n - 1 else n

-- The loop of `submit` that takes a vacant entry.
store : CoreCommandDispatcher → CoreCommand → CoreCommandDispatcher × CoreError × Option CoreEvent
store d command = elim (find_index is_vacant d.pending) [
  | none ↦ (d, CoreError.internal, none)
  | some i ↦ (
    record d {
      pending = set d.pending i (record { in_use = true; command = command });
      pending_count = d.pending_count + 1;
    },
    CoreError.ok,
    some (command_to_event command),
  )
]

unfoldable pub submit :
    CoreCommandDispatcher → CoreCommand → CoreCommandDispatcher × CoreError × Option CoreEvent
unfolding store
submit d command =
    if command.correlation_id == no_correlation_id || not (is_supported_command command.type)
    then (d, CoreError.invalid_argument, none)
    else if leb max_pending d.pending_count
    then (d, CoreError.no_capacity, none)
    else elim (find_index (waits_for command.correlation_id) d.pending) [
      | some i ↦ (d, CoreError.busy, none)
      | none ↦ store d command
    ]

-- The fields of the completion event that `resolve` writes.
abbrev pub completion : CoreCommandResult → CoreCommand → CoreEvent → CoreEvent
completion result command event = record event {
  type = map_result_to_event result.type;
  correlation_id = result.correlation_id;
  device_id = command.device_id;
  device_short_addr = command.device_short_addr;
  value_u32 = result.completed_at_ms;
  value_bool = is_success result.type;
}

unfoldable pub resolve :
    CoreCommandDispatcher
    → CoreCommandResult
    → CoreEvent
    → CoreCommandDispatcher × CoreError × CoreEvent
resolve d result event =
    if result.correlation_id == no_correlation_id
    then (d, CoreError.invalid_argument, event)
    else elim (find_index (waits_for result.correlation_id) d.pending) [
      | none ↦ (d, CoreError.not_found, event)
      | some i ↦ (
        record d { pending = set d.pending i no_entry; pending_count = count_down d.pending_count },
        CoreError.ok,
        completion result (get_or d.pending i no_entry).command event,
      )
    ]

abbrev pub timeout_event : ℕ → CoreCommand → CoreEvent
timeout_event now_ms command = record no_event {
  type = CoreEventType.command_result_timeout;
  correlation_id = command.correlation_id;
  device_id = command.device_id;
  device_short_addr = command.device_short_addr;
  value_u32 = now_ms;
  value_bool = false;
}

-- Whether an entry waits, and has done so for `timeout_ms`; the age wraps at 2³².
abbrev pub is_expired : ℕ → ℕ → PendingEntry → Bool
is_expired now_ms timeout_ms e =
    e.in_use && not (ltb (sub_u32 now_ms e.command.issued_at_ms) timeout_ms)

-- What the loop of `expire_timeouts` leaves: the entries, the events in order, and the count.
pub record Expired : Type 0 where
  pub pending : List PendingEntry
  pub events : List CoreEvent
  pub count : ℕ

abbrev pub expired_first : ℕ → PendingEntry → Expired → Expired
expired_first now_ms e r = record r {
  pending = no_entry ∷ r.pending;
  events = timeout_event now_ms e.command ∷ r.events;
}

abbrev pub kept_first : PendingEntry → Expired → Expired
kept_first e r = record r { pending = e ∷ r.pending }

-- The loop of `expire_timeouts` over the entries that are left, with room for `room` events more.
unfoldable pub expire_loop : ℕ → ℕ → ℕ → ℕ → List PendingEntry → Expired
expire_loop now_ms timeout_ms room count [] = record { pending = []; events = []; count = count }
expire_loop now_ms timeout_ms zero count (e ∷ es) = record {
  pending = e ∷ es;
  events = [];
  count = count;
}
expire_loop now_ms timeout_ms (suc room) count (e ∷ es) =
    let gone = expired_first now_ms e (expire_loop now_ms timeout_ms room (count_down count) es) in
    let kept = kept_first e (expire_loop now_ms timeout_ms (suc room) count es) in
    if is_expired now_ms timeout_ms e then gone else kept

unfoldable pub expire_timeouts :
    CoreCommandDispatcher → ℕ → ℕ → ℕ → CoreCommandDispatcher × List CoreEvent
expire_timeouts d now_ms timeout_ms events_capacity =
    if events_capacity == 0 || timeout_ms == 0
    then (d, [])
    else (let r = expire_loop now_ms timeout_ms events_capacity d.pending_count d.pending in
        (record { pending = r.pending; pending_count = r.count }, r.events))
