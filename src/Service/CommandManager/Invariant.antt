-- ===== src/Service/CommandManager/Invariant.antt =====
-- components/service/command_manager.cpp: the queues, the dispatcher and the tracked commands in
-- every reachable state.
use zigbee_gateway_v.Common.{
  ℕ, ◌%◌, ◌≡◌, refl, sym, ap, ◌∙◌, ◌≢◌, false, Option, Option-cases, Bool-cases, inl, inr, none,
  some, List, arith, ◌==◌, ==→eq, if◌then◌else◌, length, length-set, count_if-le,
}
use zigbee_gateway_v.Core.Events.{CoreEvent, CoreError, no_event}
use zigbee_gateway_v.Core.Commands.{CoreCommand, CoreCommandResult}
use zigbee_gateway_v.Core.Dispatcher.{CoreCommandDispatcher, max_pending, submit, resolve}
use zigbee_gateway_v.Core.Dispatcher.Table.{lookup, is_used}
use zigbee_gateway_v.Core.Dispatcher.Laws.{
  Submitted, Resolved, submit-Submitted, resolve-Resolved, expire_timeouts_exact,
  expire_timeouts-Inv,
}
use zigbee_gateway_v.Core.Dispatcher.Laws
use zigbee_gateway_v.Service.Runtime.{ServiceRuntime}
use zigbee_gateway_v.Service.CommandManager.{
  CommandManager, TrackedCommand, no_tracked, find_tracked_command, find_or_allocate,
  release_tracked_command, track, submit_command_internal, resolve_command_result, is_ok,
  refresh_pending_commands_cache,
}
use zigbee_gateway_v.Service.CommandManager.Tracking.{
  AllTracked, AllTracked-mono, AllTracked-set, AllTracked-release, find_or_allocate-place,
}

-- The command waits in the dispatcher.
abbrev pub WaitsIn : CoreCommandDispatcher → CoreCommand → Type 0
WaitsIn d c = lookup c.correlation_id d.pending ≡ some c

pub record Inv (m : CommandManager) : Type 0 where
  pub dispatcher : Laws.Inv m.command_dispatcher
  pub cache : m.pending_dispatcher_commands_cache ≡ m.command_dispatcher.pending_count
  pub size : length m.tracked_commands ≡ max_pending
  pub tracked : AllTracked (WaitsIn m.command_dispatcher) m.tracked_commands

pub small_count :
    (d : CoreCommandDispatcher) → Laws.Inv d → d.pending_count % 0x100000000 ≡ d.pending_count
small_count d inv = omega (arith, inv.counted, inv.size, count_if-le is_used d.pending)

-- A command that comes in under a new id leaves those that wait.
module _ (d d' : CoreCommandDispatcher) (c : CoreCommand)
    (new : lookup c.correlation_id d.pending ≡ none)
    (all : (k : ℕ)
      → lookup k d'.pending ≡ (if c.correlation_id == k then some c else lookup k d.pending)) where
  pub waits-new : WaitsIn d' c
  waits-new = ground (arith, all c.correlation_id)

  pub waits-old : (x : CoreCommand) → WaitsIn d x → WaitsIn d' x
  waits-old x w = elim (Bool-cases (c.correlation_id == x.correlation_id)) [
    | inl e ↦ absurd (clash (sym new ∙ ap (λ k. lookup k d.pending) (==→eq _ _ e) ∙ w))
    | inr e ↦ all x.correlation_id ∙ rw e w
  ]
    where
      clash : none ≡ some x → ⊥
      clash h = cc

-- `submit_command_internal` after the dispatcher's answer.
after_submit :
    CommandManager
    → ServiceRuntime
    → CoreCommand
    → CoreCommandDispatcher × CoreError × Option CoreEvent
    → CommandManager
after_submit m rt c (d, err, none) = record m { command_dispatcher = d }
after_submit m rt c (d, err, some event) =
    (track (refresh_pending_commands_cache (record m { command_dispatcher = d })) rt c event).0

submit-after :
    (m : CommandManager) (rt : ServiceRuntime) (c : CoreCommand)
    → (submit_command_internal m rt c).0 ≡ after_submit m rt c (submit m.command_dispatcher c)
unfolding submit_command_internal after_submit
submit-after m rt c = elim (Option-cases (submit m.command_dispatcher c).2) [
  | inl h ↦ rw (h, submit_command_internal, after_submit) refl
  | inr (event, h) ↦ rw (h, submit_command_internal, after_submit) refl
]

-- The manager with the dispatcher's new state and the tracked commands.
with_state :
    (m : CommandManager) (d : CoreCommandDispatcher) (ts : List TrackedCommand)
    → Laws.Inv d
    → length ts ≡ max_pending
    → AllTracked (WaitsIn d) ts
    → Inv (
        refresh_pending_commands_cache (record m { command_dispatcher = d; tracked_commands = ts }))
with_state m d ts inv size all = record {
  dispatcher = inv;
  cache = small_count d inv;
  size = size;
  tracked = all;
}

after_submit-Inv :
    (m : CommandManager) (rt : ServiceRuntime) (c : CoreCommand)
    (r : CoreCommandDispatcher × CoreError × Option CoreEvent)
    → Submitted m.command_dispatcher c r
    → Inv m
    → Inv (after_submit m rt c r)
unfolding after_submit track
after_submit-Inv m rt c r (Submitted.refused e why) inv = inv
after_submit-Inv m rt c r (Submitted.accepted d' nonzero known new all inv') inv =
    let old : (x : CoreCommand) → WaitsIn m.command_dispatcher x → WaitsIn d' x =
      waits-old m.command_dispatcher d' c new all in
    elim (Option-cases (find_or_allocate m.tracked_commands c.correlation_id)) [
      | inl h ↦
          rw (h, after_submit, track)
            (with_state m d' m.tracked_commands inv' inv.size
              (AllTracked-mono _ _ m.tracked_commands inv.tracked old))
      | inr (i, h) ↦
          let (lt, others) =
            find_or_allocate-place m.tracked_commands c.correlation_id i h nonzero
              inv.tracked.unique in
          rw (h, after_submit, track)
            (with_state m d' _ inv' (length-set m.tracked_commands i _ ∙ inv.size) (
              AllTracked-set _ _ m.tracked_commands inv.tracked i _ lt
                (λ u. (nonzero, waits-new m.command_dispatcher d' c new all, others))
                (λ j ne u w. old _ w)))
    ]

pub submit_command_internal-Inv :
    (m : CommandManager) (rt : ServiceRuntime) (c : CoreCommand)
    → Inv m
    → Inv (submit_command_internal m rt c).0
submit_command_internal-Inv m rt c inv =
    rw (submit-after m rt c)
      (after_submit-Inv m rt c _ (submit-Submitted m.command_dispatcher inv.dispatcher c) inv)

-- `resolve_command_result` after the dispatcher's answer.
after_resolve :
    CommandManager
    → CoreCommandResult
    → CoreCommandDispatcher × CoreError × CoreEvent
    → CommandManager
after_resolve m result (d, err, event) =
    let m' = record m { command_dispatcher = d } in
    if is_ok err
    then record (refresh_pending_commands_cache m') {
      tracked_commands = release_tracked_command m.tracked_commands result.correlation_id;
    }
    else m'

resolve-after :
    (m : CommandManager) (rt : ServiceRuntime) (result : CoreCommandResult)
    → (resolve_command_result m rt result).0
      ≡ after_resolve m result (resolve m.command_dispatcher result no_event)
unfolding resolve_command_result after_resolve
resolve-after m rt result =
    elim (Bool-cases (is_ok (resolve m.command_dispatcher result no_event).1)) [
      | inl h ↦ rw h refl
      | inr h ↦ rw h refl
    ]

pub length-release :
    (ts : List TrackedCommand) (id : ℕ) → length (release_tracked_command ts id) ≡ length ts
unfolding release_tracked_command
length-release ts id = elim (Option-cases (find_tracked_command ts id)) [
  | inl h ↦ rw (h, release_tracked_command) refl
  | inr (i, h) ↦ rw (h, release_tracked_command) (length-set ts i no_tracked)
]

after_resolve-Inv :
    (m : CommandManager) (result : CoreCommandResult)
    (r : CoreCommandDispatcher × CoreError × CoreEvent)
    → Resolved m.command_dispatcher result no_event r
    → Inv m
    → Inv (after_resolve m result r)
unfolding after_resolve
after_resolve-Inv m result r (Resolved.refused h) inv = inv
after_resolve-Inv m result r (Resolved.missing h n) inv = inv
after_resolve-Inv m result r (Resolved.done d' c found all inv') inv =
    let id = result.correlation_id in
    let others : (x : CoreCommand)
        → x.correlation_id ≢ id
        → WaitsIn m.command_dispatcher x
        → WaitsIn d' x =
      λ x ne w. all x.correlation_id ∙ rw (different id x.correlation_id ne) w in
    with_state m d' _ inv' (length-release m.tracked_commands id ∙ inv.size)
      (AllTracked-release _ _ m.tracked_commands inv.tracked id others)
  where
    different : (a b : ℕ) → b ≢ a → (a == b) ≡ false
    different a b ne = ground (arith, ne)

pub resolve_command_result-Inv :
    (m : CommandManager) (rt : ServiceRuntime) (result : CoreCommandResult)
    → Inv m
    → Inv (resolve_command_result m rt result).0
resolve_command_result-Inv m rt result inv = rw (resolve-after m rt result) (
    after_resolve-Inv m result _
      (resolve-Resolved m.command_dispatcher inv.dispatcher result no_event) inv)
