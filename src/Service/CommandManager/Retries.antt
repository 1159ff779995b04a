-- ===== src/Service/CommandManager/Retries.antt =====
-- components/service/command_manager.cpp: what the loop of `process_timeouts` does to the tracked commands.
use zigbee_gateway_v.Common.{
  ℕ, ◌-◌, ◌<◌, ◌≡◌, refl, sym, ◌∙◌, ◌≢◌, ◌⊎◌, true, Option, Option-cases, Bool-cases, inl, inr,
  none, some, List, [], ◌∷◌, ltb, ◌==◌, if◌then◌else◌, length, length-set, get_or, set,
}
use zigbee_gateway_v.Core.Events.{CoreEvent, CoreError}
use zigbee_gateway_v.Core.Commands.{CoreCommand, command_to_event}
use zigbee_gateway_v.Core.Dispatcher.{CoreCommandDispatcher, max_pending, submit}
use zigbee_gateway_v.Core.Dispatcher.Table.{lookup}
use zigbee_gateway_v.Core.Dispatcher.Laws.{
  Submitted, Resolved, submit-Submitted, resolve-Resolved, expire_timeouts_exact,
  expire_timeouts-Inv,
}
use zigbee_gateway_v.Core.Dispatcher.Laws
use zigbee_gateway_v.Service.Runtime.{ServiceRuntime, push_event, count_retry}
use zigbee_gateway_v.Service.CommandManager.{
  CommandManager, TrackedCommand, no_tracked, find_tracked_command,
}
use zigbee_gateway_v.Service.CommandManager.Loops.{give_up, try_again, on_timeout, timeout_loop}
use zigbee_gateway_v.Service.CommandManager.Tracking.{
  AllTracked, AllTracked-mono, AllTracked-set, AllTracked-release, find_tracked-found,
}
use zigbee_gateway_v.Service.CommandManager.Invariant.{
  WaitsIn, waits-new, waits-old, length-release,
}

-- Whether one of the events is for the id.
unfoldable pub Announced : ℕ → List CoreEvent → Type 0
Announced k [] = ⊥
Announced k (e ∷ es) = (e.correlation_id ≡ k) ⊎ Announced k es

-- While timeouts are announced: a tracked command waits, or one of the events to come is for it.
abbrev pub WaitsOrEnds : CoreCommandDispatcher → List CoreEvent → CoreCommand → Type 0
WaitsOrEnds d events c = WaitsIn d c ⊎ Announced c.correlation_id events

pub record LoopInv (events : List CoreEvent) (m : CommandManager) : Type 0 where
  pub dispatcher : Laws.Inv m.command_dispatcher
  pub size : length m.tracked_commands ≡ max_pending
  pub tracked : AllTracked (WaitsOrEnds m.command_dispatcher events) m.tracked_commands

later :
    (d : CoreCommandDispatcher) (e : CoreEvent) (events : List CoreEvent) (c : CoreCommand)
    → c.correlation_id ≢ e.correlation_id
    → WaitsOrEnds d (e ∷ events) c
    → WaitsOrEnds d events c
unfolding Announced
later d e events c ne (inl w) = inl w
later d e events c ne (inr (inl same)) = absurd (ne (sym same))
later d e events c ne (inr (inr h)) = inr h

-- Giving up takes the event's command off.
give_up-LoopInv :
    (m : CommandManager) (rt : ServiceRuntime) (e : CoreEvent) (events : List CoreEvent)
    → Laws.Inv m.command_dispatcher
    → length m.tracked_commands ≡ max_pending
    → AllTracked (WaitsOrEnds m.command_dispatcher (e ∷ events)) m.tracked_commands
    → LoopInv events (give_up m rt e).0
unfolding give_up
give_up-LoopInv m rt e events inv size all = record {
  dispatcher = inv;
  size = length-release m.tracked_commands e.correlation_id ∙ size;
  tracked =
      AllTracked-release _ _ m.tracked_commands all e.correlation_id
        (λ c ne w. later m.command_dispatcher e events c ne w);
}

-- `try_again` after the dispatcher's answer, for the command as it is submitted.
after_retry :
    CommandManager
    → ServiceRuntime
    → CoreEvent
    → List TrackedCommand
    → CoreCommandDispatcher × CoreError × Option CoreEvent
    → CommandManager
after_retry m rt e ts (d, err, none) =
    (give_up (record m { tracked_commands = ts; command_dispatcher = d }) (count_retry rt) e).0
after_retry m rt e ts (d, err, some event) =
    let m' = record m { tracked_commands = ts; command_dispatcher = d } in
    let (rt', pushed) = push_event (count_retry rt) event in
    if pushed then m' else (give_up m' rt' e).0

abbrev again : TrackedCommand → ℕ → TrackedCommand
again t now_ms =
    let c = t.command in
    record t { command = record c { issued_at_ms = now_ms }; retries_left = t.retries_left - 1 }

try_again-after :
    (m : CommandManager) (rt : ServiceRuntime) (e : CoreEvent) (now_ms i : ℕ)
    → let t = again (get_or m.tracked_commands i no_tracked) now_ms in
      (try_again m rt e now_ms i).0
      ≡ after_retry m rt e (set m.tracked_commands i t) (submit m.command_dispatcher t.command)
unfolding try_again after_retry
try_again-after m rt e now_ms i =
    let t = again (get_or m.tracked_commands i no_tracked) now_ms in
    elim (Option-cases (submit m.command_dispatcher t.command).2) [
      | inl h ↦ rw (h, try_again, after_retry) refl
      | inr (event, h) ↦
          rw (h, try_again, after_retry)
            (elim (Bool-cases (push_event (count_retry rt) event).1) [
              | inl p ↦ rw p refl
              | inr p ↦ rw p refl
            ])
    ]

module _ (m : CommandManager) (rt : ServiceRuntime) (e : CoreEvent) (events : List CoreEvent)
    (inv : LoopInv (e ∷ events) m) (now_ms i : ℕ)
    (found : find_tracked_command m.tracked_commands e.correlation_id ≡ some i) where
  -- The tracked command of the event, as it is tried again.
  abbrev t : TrackedCommand
  t = again (get_or m.tracked_commands i no_tracked) now_ms

  abbrev ts : List TrackedCommand
  ts = set m.tracked_commands i t

  abbrev own :
      (i < length m.tracked_commands)
      × ((get_or m.tracked_commands i no_tracked).in_use ≡ true)
      × ((get_or m.tracked_commands i no_tracked).command.correlation_id ≡ e.correlation_id)
  own = find_tracked-found m.tracked_commands e.correlation_id i found

  others :
      (j : ℕ)
      → j ≢ i
      → (get_or m.tracked_commands j no_tracked).in_use ≡ true
      → (get_or m.tracked_commands j no_tracked).command.correlation_id ≢ t.command.correlation_id
  others j ne u = inv.tracked.unique j i ne u own.1

  size_ts : length ts ≡ max_pending
  size_ts = length-set m.tracked_commands i t ∙ inv.size

  -- Whatever the dispatcher takes, the tracked commands are right for the events to come.
  tracked-set :
      (d : CoreCommandDispatcher) (later_events : List CoreEvent)
      → WaitsOrEnds d later_events t.command
      → ((c : CoreCommand)
          → c.correlation_id ≢ e.correlation_id
          → WaitsOrEnds m.command_dispatcher (e ∷ events) c
          → WaitsOrEnds d later_events c)
      → AllTracked (WaitsOrEnds d later_events) ts
  tracked-set d later_events mine rest =
      AllTracked-set _ _ m.tracked_commands inv.tracked i t own.0
        (λ u. ((inv.tracked.each i own.1).0, mine, others))
        (λ j ne u w. rest _ (λ same. others j ne u (same ∙ sym own.2)) w)

  after_retry-LoopInv :
      (r : CoreCommandDispatcher × CoreError × Option CoreEvent)
      → Submitted m.command_dispatcher t.command r
      → LoopInv events (after_retry m rt e ts r)
  unfolding after_retry Announced
  after_retry-LoopInv r (Submitted.refused err why) =
      give_up-LoopInv _ (count_retry rt) e events inv.dispatcher size_ts
        (tracked-set m.command_dispatcher (e ∷ events) (inr (inl (sym own.2))) (λ c ne w. w))
  after_retry-LoopInv r (Submitted.accepted d' nonzero known new all inv') =
      let waits : AllTracked (WaitsOrEnds d' events) ts =
        tracked-set d' events (inl (waits-new m.command_dispatcher d' t.command new all))
          (λ c ne w. moved d' all new c (later m.command_dispatcher e events c ne w)) in
      elim (Bool-cases (push_event (count_retry rt) (command_to_event t.command)).1) [
        | inl p ↦
            rw (after_retry, p) (record { dispatcher = inv'; size = size_ts; tracked = waits })
        | inr p ↦
            rw (after_retry, p)
              (give_up-LoopInv _ _ e events inv' size_ts
                (AllTracked-mono _ _ ts waits (λ c w. earlier d' c w)))
      ]
    where
      moved :
          (d' : CoreCommandDispatcher)
          → ((k : ℕ)
              → lookup k d'.pending ≡ (
                  if t.command.correlation_id == k
                  then some t.command
                  else lookup k m.command_dispatcher.pending))
          → lookup t.command.correlation_id m.command_dispatcher.pending ≡ none
          → (c : CoreCommand) → WaitsOrEnds m.command_dispatcher events c
          → WaitsOrEnds d' events c
      moved d' all new c (inl w) = inl (waits-old m.command_dispatcher d' t.command new all c w)
      moved d' all new c (inr h) = inr h

      earlier :
          (d' : CoreCommandDispatcher) (c : CoreCommand)
          → WaitsOrEnds d' events c
          → WaitsOrEnds d' (e ∷ events) c
      earlier d' c (inl w) = inl w
      earlier d' c (inr h) = inr (inr h)

  try_again-LoopInv : LoopInv events (try_again m rt e now_ms i).0
  try_again-LoopInv =
      rw (try_again-after m rt e now_ms i)
        (after_retry-LoopInv _ (submit-Submitted m.command_dispatcher inv.dispatcher t.command))

on_timeout-LoopInv :
    (m : CommandManager) (rt : ServiceRuntime) (e : CoreEvent) (events : List CoreEvent)
    (now_ms : ℕ)
    → LoopInv (e ∷ events) m
    → LoopInv events (on_timeout m rt e now_ms).0
unfolding on_timeout
on_timeout-LoopInv m rt e events now_ms inv =
    elim (Option-cases (find_tracked_command m.tracked_commands e.correlation_id)) [
      | inl h ↦
          rw (h, on_timeout) (give_up-LoopInv m rt e events inv.dispatcher inv.size inv.tracked)
      | inr (i, h) ↦
          rw (h, on_timeout)
            (elim (Bool-cases (ltb 0 (get_or m.tracked_commands i no_tracked).retries_left)) [
              | inl p ↦ rw p (try_again-LoopInv m rt e events inv now_ms i h)
              | inr p ↦ rw p (give_up-LoopInv m rt e events inv.dispatcher inv.size inv.tracked)
            ])
    ]

pub timeout_loop-LoopInv :
    (m : CommandManager) (rt : ServiceRuntime) (now_ms : ℕ) (events : List CoreEvent)
    → LoopInv events m
    → LoopInv [] (timeout_loop m rt now_ms events).0
unfolding timeout_loop
timeout_loop-LoopInv m rt now_ms [] inv = inv
timeout_loop-LoopInv m rt now_ms (e ∷ events) inv =
    let r = on_timeout m rt e now_ms in
    timeout_loop-LoopInv r.0 r.1 now_ms events (on_timeout-LoopInv m rt e events now_ms inv)
