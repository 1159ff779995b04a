-- ===== src/Service/CommandManager/Drains.antt =====
-- components/service/command_manager.cpp: draining a queue handles each of its elements, in order.
use zigbee_gateway_v.Common.{
  ℕ, zero, suc, ◌<◌, ◌≡◌, refl, sym, ap, ◌∙◌, Bool, true, false, not, Option, Option-cases,
  Bool-cases, inl, inr, none, some, List, [], ◌∷◌, arith, ◌==◌, length,
}
use zigbee_gateway_v.Core.Events.{CoreEvent}
use zigbee_gateway_v.Core.Commands.{CoreCommand, no_command}
use zigbee_gateway_v.Core.Dispatcher.{submit}
use zigbee_gateway_v.Service.Ring.{Ring}
use zigbee_gateway_v.Service.Ring.Refine.{
  contents, dequeue, contents-pop, pop-Inv, Inv, length-contents,
}
use zigbee_gateway_v.Service.Runtime.{ServiceRuntime}
use zigbee_gateway_v.Service.CommandManager.{
  CommandManager, queue_capacity, find_or_allocate, track, submit_command_internal, is_ok,
}
use zigbee_gateway_v.Service.CommandManager.Loops.{
  pop_command_request, handle_request, request_rounds, drain_command_requests,
}

-- The elements of a list, handled one after the other.
unfoldable pub fold_left : {A S : Type 0} → (S → A → S) → S → List A → S
fold_left step s [] = s
fold_left step s (x ∷ xs) = fold_left step (step s x) xs

-- The manager with another queue of requests.
abbrev pub with_requests :
    Ring CoreCommand → CommandManager × ServiceRuntime → CommandManager × ServiceRuntime
with_requests q (m, rt) = (record m { command_request_queue = q }, rt)

module _ (q : Ring CoreCommand) where
  track-frame :
      (m : CommandManager) (rt : ServiceRuntime) (c : CoreCommand) (event : CoreEvent)
      → let r = track m rt c event in
        track (record m { command_request_queue = q }) rt c event
        ≡ (record (r.0) { command_request_queue = q }, r.1, r.2)
  unfolding track
  track-frame m rt c event =
      elim (Option-cases (find_or_allocate m.tracked_commands c.correlation_id)) [
        | inl h ↦ rw (h, track) refl
        | inr (i, h) ↦ rw (h, track) refl
      ]

  submit-frame :
      (m : CommandManager) (rt : ServiceRuntime) (c : CoreCommand)
      → let r = submit_command_internal m rt c in
        submit_command_internal (record m { command_request_queue = q }) rt c
        ≡ (record (r.0) { command_request_queue = q }, r.1, r.2)
  unfolding submit_command_internal
  submit-frame m rt c = elim (Option-cases (submit m.command_dispatcher c).2) [
    | inl h ↦ rw (h, submit_command_internal) refl
    | inr (event, h) ↦ rw (h, submit_command_internal) (track-frame _ rt c event)
  ]

  -- Handling a request does not read or change the queue of requests.
  handle_request-frame :
      (s : CommandManager × ServiceRuntime) (c : CoreCommand)
      → handle_request (with_requests q s) c ≡ with_requests q (handle_request s c)
  unfolding handle_request
  handle_request-frame (m, rt) c =
      rw (submit-frame m rt c) (elim (Bool-cases (is_ok (submit_command_internal m rt c).2)) [
        | inl h ↦ rw h refl
        | inr h ↦ rw h refl
      ])

  fold-frame :
      (s : CommandManager × ServiceRuntime) (cs : List CoreCommand)
      → fold_left handle_request (with_requests q s) cs
        ≡ with_requests q (fold_left handle_request s cs)
  unfolding fold_left
  fold-frame s [] = refl
  fold-frame s (c ∷ cs) =
      ap (λ t. fold_left handle_request t cs) (handle_request-frame s c)
      ∙ fold-frame (handle_request s c) cs

handle_request-queue :
    (s : CommandManager × ServiceRuntime) (c : CoreCommand)
    → (handle_request s c).0.command_request_queue ≡ s.0.command_request_queue
handle_request-queue s c =
    ap (λ (t : CommandManager × ServiceRuntime). t.0.command_request_queue)
      (handle_request-frame s.0.command_request_queue s c)

-- The commands that wait in the queue of requests.
abbrev pub requests : CommandManager → List CoreCommand
requests m = contents queue_capacity no_command m.command_request_queue

-- What draining promises.
abbrev pub Drained :
    CommandManager → ServiceRuntime → CommandManager × ServiceRuntime × Bool → Type 0
Drained m rt (m', rt', drained) =
    (requests m' ≡ [])
    × Inv queue_capacity no_command m'.command_request_queue
    × (drained ≡ not (length (requests m) == 0))
    × ((q : Ring CoreCommand)
        → with_requests q (m', rt')
          ≡ fold_left handle_request (with_requests q (m, rt)) (requests m))

module _ (m : CommandManager) (rt : ServiceRuntime) (fuel : ℕ) where
  rounds_none :
      (pop_command_request m).1 ≡ none
      → request_rounds (suc fuel) m rt ≡ ((pop_command_request m).0, rt, false)
  unfolding request_rounds
  rounds_none h = rw (h, request_rounds) refl

  rounds_some :
      (c : CoreCommand)
      → (pop_command_request m).1 ≡ some c
      → let s = handle_request ((pop_command_request m).0, rt) c in
        let r = request_rounds fuel s.0 s.1 in request_rounds (suc fuel) m rt ≡ (r.0, r.1, true)
  unfolding request_rounds
  rounds_some c h = rw (h, request_rounds) refl

request_rounds-Drained :
    (fuel : ℕ) (m : CommandManager) (rt : ServiceRuntime)
    → Inv queue_capacity no_command m.command_request_queue
    → length (requests m) < fuel
    → Drained m rt (request_rounds fuel m rt)
unfolding fold_left dequeue
request_rounds-Drained zero m rt inv enough = absurd (omega arith)
request_rounds-Drained (suc fuel) m rt inv enough =
    by_contents (request_rounds-Drained fuel) (requests m) refl
  where
    popped : CommandManager × Option CoreCommand
    popped = pop_command_request m

    popped-Inv : Inv queue_capacity no_command popped.0.command_request_queue
    popped-Inv = pop-Inv queue_capacity no_command m.command_request_queue inv

    by_dequeue : (requests popped.0, popped.1) ≡ dequeue (requests m)
    by_dequeue = contents-pop queue_capacity no_command m.command_request_queue inv

    by_contents :
        ((m : CommandManager) (rt : ServiceRuntime)
          → Inv queue_capacity no_command m.command_request_queue
          → length (requests m) < fuel
          → Drained m rt (request_rounds fuel m rt))
        → (l : List CoreCommand) → requests m ≡ l
        → Drained m rt (request_rounds (suc fuel) m rt)
    by_contents later [] e =
        let both = by_dequeue ∙ ap dequeue e in
        rw (rounds_none m rt fuel (ap (λ (r : List CoreCommand × Option CoreCommand). r.1) both), e)
          (
            ap (λ (r : List CoreCommand × Option CoreCommand). r.0) both,
            popped-Inv,
            refl,
            λ q. refl,
          )
    by_contents later (c ∷ cs) e =
        let both = by_dequeue ∙ ap dequeue e in
        let s = handle_request (popped.0, rt) c in
        let queue : s.0.command_request_queue ≡ popped.0.command_request_queue =
          handle_request-queue (popped.0, rt) c in
        let rest : requests s.0 ≡ cs =
          ap (contents queue_capacity no_command) queue
          ∙ ap (λ (r : List CoreCommand × Option CoreCommand). r.0) both in
        let done =
          later s.0 s.1 (rw queue popped-Inv) (omega (arith, ap length rest, ap length e)) in
        rw
          (
            rounds_some m rt fuel c (ap (λ (r : List CoreCommand × Option CoreCommand). r.1) both),
            e,
          )
          (
            done.0,
            done.1,
            ground arith,
            λ q.
                done.3 q
                ∙ ap (fold_left handle_request (with_requests q s)) rest
                ∙ ap (λ t. fold_left handle_request t cs)
                    (sym (handle_request-frame q (popped.0, rt) c)),
          )

-- Under the invariant of the queue of requests, `drain_command_requests` ends after a round for
-- each command that waits: it leaves the queue empty, handles exactly the commands that waited,
-- each once and the oldest first, and says whether there was one.
pub drain_command_requests-Drained :
    (m : CommandManager) (rt : ServiceRuntime)
    → Inv queue_capacity no_command m.command_request_queue
    → Drained m rt (drain_command_requests m rt)
unfolding drain_command_requests
drain_command_requests-Drained m rt inv =
    request_rounds-Drained (suc m.command_request_queue.count) m rt inv
      (omega (arith, length-contents queue_capacity no_command m.command_request_queue))
