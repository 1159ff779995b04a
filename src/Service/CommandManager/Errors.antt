-- ===== src/Service/CommandManager/Errors.antt =====
-- components/service/command_manager.cpp: what a client of the two queues is told.
use zigbee_gateway_v.Common.{
  ◌≡◌, refl, ap, ◌∙◌, ◌⊎◌, Bool, true, false, ◌||◌, List, [], ◌∷◌, ◌++◌, leb, ◌==◌, length,
  Bool-cases, inl, inr,
}
use zigbee_gateway_v.Core.Events.{CoreError, no_correlation_id}
use zigbee_gateway_v.Core.Commands.{CoreCommand, CoreCommandResult, no_command}
use zigbee_gateway_v.Service.Ring.{Ring, push}
use zigbee_gateway_v.Service.Ring.Refine.{contents, enqueue, contents-push, Inv, length-contents}
use zigbee_gateway_v.Service.Runtime.{ServiceRuntime, drop_ingress}
use zigbee_gateway_v.Service.CommandManager.{
  CommandManager, post_command, handle_command_result, queue_capacity, no_result, is_unknown,
}

-- A full queue refuses, and is left alone; any other takes the element behind all others.
push-room :
    {A : Type 0} (blank : A) (q : Ring A) (x : A)
    → Inv queue_capacity blank q
    → leb queue_capacity q.count ≡ false
    → let (q', done) = push queue_capacity q x in
      (done ≡ true)
      × (contents queue_capacity blank q' ≡ contents queue_capacity blank q ++ (x ∷ []))
unfolding enqueue
push-room {A} blank q x inv room =
    let same = contents-push queue_capacity blank q inv x in
    let taken : enqueue queue_capacity (contents queue_capacity blank q) x
        ≡ (contents queue_capacity blank q ++ (x ∷ []), true) =
      rw (length-contents queue_capacity blank q, room) refl in
    (ap (λ (r : List A × Bool). r.1) (same ∙ taken), ap (λ (r : List A × Bool). r.0) (same ∙ taken))

push-full :
    {A : Type 0} (q : Ring A) (x : A)
    → leb queue_capacity q.count ≡ true
    → push queue_capacity q x ≡ (q, false)
unfolding push
push-full q x full = rw full refl

-- Under the invariant of the queue of requests, `post_command` refuses a command without an id or
-- without a type as an invalid argument, with no change; it refuses any other where the queue of
-- requests is full, with no change but that of the counter of lost notifications; and else the
-- command waits behind all others, and the runtime and the rest of the manager stay.
pub post_command-outcome :
    (m : CommandManager) (rt : ServiceRuntime) (c : CoreCommand)
    → Inv queue_capacity no_command m.command_request_queue
    → let (m', rt', e) = post_command m rt c in
      let waiting = contents queue_capacity no_command m.command_request_queue in
      ((e ≡ CoreError.invalid_argument)
        × ((c.correlation_id == no_correlation_id || is_unknown c.type) ≡ true)
        × (m' ≡ m)
        × (rt' ≡ rt))
      ⊎ ((e ≡ CoreError.no_capacity)
          × ((c.correlation_id == no_correlation_id || is_unknown c.type) ≡ false)
          × (leb queue_capacity (length waiting) ≡ true)
          × (m' ≡ m)
          × (rt' ≡ drop_ingress rt))
      ⊎ ((e ≡ CoreError.ok)
          × ((c.correlation_id == no_correlation_id || is_unknown c.type) ≡ false)
          × (leb queue_capacity (length waiting) ≡ false)
          × (contents queue_capacity no_command m'.command_request_queue ≡ waiting ++ (c ∷ []))
          × (m' ≡ record m { command_request_queue = m'.command_request_queue })
          × (rt' ≡ rt))
unfolding post_command
post_command-outcome m rt c inv =
    let q = m.command_request_queue in
    elim (Bool-cases (c.correlation_id == no_correlation_id || is_unknown c.type)) [
      | inl bad ↦ rw bad (inl (refl, refl, refl, refl))
      | inr good ↦
          rw (good, length-contents queue_capacity no_command q)
            (elim (Bool-cases (leb queue_capacity q.count)) [
              | inl full ↦ rw (push-full q c full, full) (inr (inl (refl, refl, refl, refl, refl)))
              | inr room ↦
                  let (done, behind) = push-room no_command q c inv room in
                  rw (done, room) (inr (inr (refl, refl, refl, behind, refl, refl)))
            ])
    ]

-- `handle_command_result` refuses a result without an id as an invalid argument, with no change; it
-- refuses any other where the queue of results is full, with no change but that of the counter of
-- lost notifications; and else the result waits behind all others, and the runtime and the rest
-- of the manager stay.
pub handle_command_result-outcome :
    (m : CommandManager) (rt : ServiceRuntime) (r : CoreCommandResult)
    → Inv queue_capacity no_result m.command_result_queue
    → let (m', rt', e) = handle_command_result m rt r in
      let waiting = contents queue_capacity no_result m.command_result_queue in
      ((e ≡ CoreError.invalid_argument)
        × (r.correlation_id == no_correlation_id ≡ true)
        × (m' ≡ m)
        × (rt' ≡ rt))
      ⊎ ((e ≡ CoreError.no_capacity)
          × ((r.correlation_id == no_correlation_id) ≡ false)
          × (leb queue_capacity (length waiting) ≡ true)
          × (m' ≡ m)
          × (rt' ≡ drop_ingress rt))
      ⊎ ((e ≡ CoreError.ok)
          × ((r.correlation_id == no_correlation_id) ≡ false)
          × (leb queue_capacity (length waiting) ≡ false)
          × (contents queue_capacity no_result m'.command_result_queue ≡ waiting ++ (r ∷ []))
          × (m' ≡ record m { command_result_queue = m'.command_result_queue })
          × (rt' ≡ rt))
unfolding handle_command_result
handle_command_result-outcome m rt r inv =
    let q = m.command_result_queue in
    elim (Bool-cases (r.correlation_id == no_correlation_id)) [
      | inl bad ↦ rw bad (inl (refl, refl, refl, refl))
      | inr good ↦
          rw (good, length-contents queue_capacity no_result q)
            (elim (Bool-cases (leb queue_capacity q.count)) [
              | inl full ↦ rw (push-full q r full, full) (inr (inl (refl, refl, refl, refl, refl)))
              | inr room ↦
                  let (done, behind) = push-room no_result q r inv room in
                  rw (done, room) (inr (inr (refl, refl, refl, behind, refl, refl)))
            ])
    ]
