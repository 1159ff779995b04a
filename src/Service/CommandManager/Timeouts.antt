-- ===== src/Service/CommandManager/Timeouts.antt =====
-- components/service/command_manager.cpp: `process_timeouts` keeps the tracked commands waiting.
use zigbee_gateway_v.Common.{
  ℕ, ◌≡◌, refl, ap, ◌∙◌, true, false, Bool-cases, inl, inr, some, List, [], ◌∷◌, map, arith, ltb,
  ◌==◌, sub_u32,
}
use zigbee_gateway_v.Core.Commands.{CoreCommand}
use zigbee_gateway_v.Core.Dispatcher.{
  CoreCommandDispatcher, PendingEntry, max_pending, expire_timeouts, timeout_event, waits_for,
  is_expired,
}
use zigbee_gateway_v.Core.Dispatcher.Table.{lookup, expired_commands, unless_expired}
use zigbee_gateway_v.Core.Dispatcher.Laws.{
  Submitted, Resolved, submit-Submitted, resolve-Resolved, expire_timeouts_exact,
  expire_timeouts-Inv,
}
use zigbee_gateway_v.Core.Dispatcher.Laws
use zigbee_gateway_v.Service.Runtime.{ServiceRuntime}
use zigbee_gateway_v.Service.CommandManager.{CommandManager}
use zigbee_gateway_v.Service.CommandManager.Loops.{timeout_loop, process_timeouts}
use zigbee_gateway_v.Service.CommandManager.Tracking.{AllTracked-mono}
use zigbee_gateway_v.Service.CommandManager.Invariant.{Inv, WaitsIn, small_count}
use zigbee_gateway_v.Service.CommandManager.Retries.{
  Announced, WaitsOrEnds, LoopInv, timeout_loop-LoopInv,
}

-- A waiting command that has reached the timeout is announced.
expired-Announced :
    (now_ms timeout_ms : ℕ) (es : List PendingEntry) (c : CoreCommand)
    → lookup c.correlation_id es ≡ some c
    → ltb (sub_u32 now_ms c.issued_at_ms) timeout_ms ≡ false
    → Announced c.correlation_id
        (map (timeout_event now_ms) (expired_commands now_ms timeout_ms es))
unfolding lookup expired_commands Announced
expired-Announced now_ms timeout_ms [] c = λ w late. cc
expired-Announced now_ms timeout_ms (e ∷ es) c = elim (Bool-cases (waits_for c.correlation_id e)) [
  | inl h ↦ rw h (λ w late. here h w late)
  | inr h ↦ rw h (λ w late. there (expired-Announced now_ms timeout_ms es c w late))
]
  where
    here :
        waits_for c.correlation_id e ≡ true
        → some e.command ≡ some c
        → ltb (sub_u32 now_ms c.issued_at_ms) timeout_ms ≡ false
        → Announced c.correlation_id
            (map (timeout_event now_ms) (expired_commands now_ms timeout_ms (e ∷ es)))
    here h w late =
        let same : e.command ≡ c = cc in
        let old : ltb (sub_u32 now_ms e.command.issued_at_ms) timeout_ms ≡ false =
          ap (λ (x : CoreCommand). ltb (sub_u32 now_ms x.issued_at_ms) timeout_ms) same ∙ late in
        let due : is_expired now_ms timeout_ms e ≡ true = ground (arith, h, old) in
        rw due (inl (ap (λ (x : CoreCommand). x.correlation_id) same))

    there :
        Announced c.correlation_id
          (map (timeout_event now_ms) (expired_commands now_ms timeout_ms es))
        → Announced c.correlation_id
            (map (timeout_event now_ms) (expired_commands now_ms timeout_ms (e ∷ es)))
    there w = elim (Bool-cases (is_expired now_ms timeout_ms e)) [
      | inl x ↦ rw x (inr w)
      | inr x ↦ rw x w
    ]

expire_never :
    (d : CoreCommandDispatcher) (now_ms timeout_ms : ℕ)
    → (timeout_ms == 0) ≡ true
    → expire_timeouts d now_ms timeout_ms max_pending ≡ (d, [])
unfolding expire_timeouts
expire_never d now_ms timeout_ms h = rw h refl

expire-WaitsOrEnds :
    (d : CoreCommandDispatcher) (now_ms timeout_ms : ℕ) (c : CoreCommand)
    → Laws.Inv d
    → WaitsIn d c
    → let (d', events) = expire_timeouts d now_ms timeout_ms max_pending in WaitsOrEnds d' events c
expire-WaitsOrEnds d now_ms timeout_ms c inv w = elim (Bool-cases (timeout_ms == 0)) [
  | inl h ↦ rw (expire_never d now_ms timeout_ms h) (inl w)
  | inr h ↦
      let (events, stays) =
        expire_timeouts_exact d now_ms timeout_ms max_pending c.correlation_id inv
          (ground (arith, h)) (omega arith) in
      let left = stays ∙ ap (unless_expired now_ms timeout_ms) w in
      elim (Bool-cases (ltb (sub_u32 now_ms c.issued_at_ms) timeout_ms)) [
        | inl early ↦ inl (left ∙ rw early refl)
        | inr late ↦ inr (rw events (expired-Announced now_ms timeout_ms d.pending c w late))
      ]
]

-- After `expire_timeouts` a tracked command waits, or an event is for it.
expire-LoopInv :
    (m : CommandManager) (now_ms timeout_ms : ℕ)
    → Inv m
    → let (d, events) = expire_timeouts m.command_dispatcher now_ms timeout_ms max_pending in
      LoopInv events (record m { command_dispatcher = d })
expire-LoopInv m now_ms timeout_ms inv = record {
  dispatcher =
      (expire_timeouts-Inv m.command_dispatcher now_ms timeout_ms max_pending inv.dispatcher).0;
  size = inv.size;
  tracked =
      AllTracked-mono _ _ m.tracked_commands inv.tracked
        (λ c w. expire-WaitsOrEnds m.command_dispatcher now_ms timeout_ms c inv.dispatcher w);
}

pub process_timeouts-Inv :
    (m : CommandManager) (rt : ServiceRuntime) (now_ms : ℕ)
    → Inv m
    → Inv (process_timeouts m rt now_ms).0
unfolding process_timeouts Announced
process_timeouts-Inv m rt now_ms inv =
    let expired = expire_timeouts m.command_dispatcher now_ms rt.command_timeout_ms max_pending in
    let m' = record m { command_dispatcher = expired.0 } in
    let done =
      timeout_loop-LoopInv m' rt now_ms expired.1
        (expire-LoopInv m now_ms rt.command_timeout_ms inv) in
    let r = (timeout_loop m' rt now_ms expired.1).0 in
    record {
      dispatcher = done.dispatcher;
      cache = small_count r.command_dispatcher done.dispatcher;
      size = done.size;
      tracked =
          AllTracked-mono _ _ r.tracked_commands done.tracked
            (λ c w. settled r.command_dispatcher c w);
    }
  where
    settled : (d : CoreCommandDispatcher) (c : CoreCommand) → WaitsOrEnds d [] c → WaitsIn d c
    settled d c (inl w) = w
    settled d c (inr h) = absurd h
