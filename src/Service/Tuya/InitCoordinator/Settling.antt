-- ===== src/Service/Tuya/InitCoordinator/Settling.antt =====
-- components/service/tuya_init_coordinator.cpp: without an answer the start-up of every device ends.
use zigbee_gateway_v.Common.{
  ℕ, zero, suc, ◌+◌, ◌≤◌, ◌≡◌, refl, true, false, ◌&&◌, Option-cases, Bool-cases, inl, inr, none,
  List, [], ◌∷◌, map, arith, leb, get_or, u32, ◌*◌, ◌<◌, find_index, find_index-some, and_true,
}
use zigbee_gateway_v.Service.Tuya.InitCoordinator.{
  TuyaInitStatus, TuyaInitEntry, TuyaInitCoordinator, no_entry, step_timeout_ms, is_pending,
  is_waiting, has_addr, check_deadline, next_action, tick, status,
}
use zigbee_gateway_v.Service.Tuya.InitCoordinator.Table.{
  EntryOk, AllOk, AllOk-get_or, Inv, Step, Step-Inv,
}
use zigbee_gateway_v.Service.Tuya.InitCoordinator.Budget.{weight, total, total-tick, total_le}

-- No command waits for an acknowledgement past `t`.
unfoldable pub AllDueBy : ℕ → List TuyaInitEntry → Type 0
AllDueBy t [] = Unit {0}
AllDueBy t (e ∷ es) = ((e.in_use && is_waiting e.status) ≡ true → e.deadline_ms ≤ t) × AllDueBy t es

-- No command waits.
unfoldable AllIdle : List TuyaInitEntry → Type 0
AllIdle [] = Unit {0}
AllIdle (e ∷ es) = ((e.in_use && is_waiting e.status) ≡ false) × AllIdle es

check-AllIdle :
    (now_ms : ℕ) (es : List TuyaInitEntry)
    → AllDueBy now_ms es
    → AllIdle (map (check_deadline now_ms) es)
unfolding AllDueBy AllIdle
check-AllIdle now_ms [] due = tt
check-AllIdle now_ms (e ∷ es) due = (ground (arith, due.0), check-AllIdle now_ms es due.1)

weight_none : weight no_entry ≡ 0
unfolding weight
weight_none = refl

AllIdle-AllDueBy : (t : ℕ) (es : List TuyaInitEntry) → AllIdle es → AllDueBy t es
unfolding AllDueBy AllIdle
AllIdle-AllDueBy t [] idle = tt
AllIdle-AllDueBy t (e ∷ es) idle = (λ w. cc, AllIdle-AllDueBy t es idle.1)

-- Only the command that a tick sends waits after it.
next_action-AllDueBy :
    (now_ms id : ℕ) (es : List TuyaInitEntry)
    → AllIdle es
    → AllDueBy (now_ms + step_timeout_ms) (next_action now_ms id es).0
unfolding AllDueBy AllIdle next_action
next_action-AllDueBy now_ms id [] idle = tt
next_action-AllDueBy now_ms id (e ∷ es) idle =
    let rest = next_action-AllDueBy now_ms id es idle.1 in
    elim (Bool-cases (e.in_use && is_pending e.status)) [
      | inr p ↦ rw p (λ w. cc, rest)
      | inl p ↦ rw p (elim (Bool-cases (leb e.plan.step_count e.current_step)) [
        | inl over ↦ rw over (λ w. ground (arith, p), rest)
        | inr more ↦ rw more (λ w. omega arith, AllIdle-AllDueBy _ es idle.1)
      ])
    ]

weight-idle :
    (e : TuyaInitEntry)
    → (e.in_use && is_pending e.status) ≡ false
    → (e.in_use && is_waiting e.status) ≡ false
    → weight e ≡ 0
unfolding weight
weight-idle e p w = rw (p, w) refl

weight-ready_idle : (e : TuyaInitEntry) → weight (record e { status = TuyaInitStatus.ready }) ≡ 0
unfolding weight
weight-ready_idle e = ground arith

-- Where a tick finds nothing to send, nothing is left to do.
next_action-total :
    (now_ms id : ℕ) (es : List TuyaInitEntry)
    → AllIdle es
    → (next_action now_ms id es).1 ≡ none
    → total (next_action now_ms id es).0 ≡ 0
unfolding total AllIdle next_action
next_action-total now_ms id [] idle = λ h. refl
next_action-total now_ms id (e ∷ es) idle = elim (Bool-cases (e.in_use && is_pending e.status)) [
  | inr p ↦
      rw p (λ h. omega (arith, weight-idle e p idle.0, next_action-total now_ms id es idle.1 h))
  | inl p ↦ rw p (elim (Bool-cases (leb e.plan.step_count e.current_step)) [
    | inl over ↦
        rw over (λ h. omega (arith, weight-ready_idle e, next_action-total now_ms id es idle.1 h))
    | inr more ↦ rw more (λ h. cc)
  ])
]

-- `count` ticks, the first at `now_ms`, and each 5 seconds after the one before, on the clock of the
-- caller, a uint32_t.
unfoldable pub ticks : TuyaInitCoordinator → ℕ → ℕ → TuyaInitCoordinator
ticks c now_ms zero = c
ticks c now_ms (suc count) = ticks (tick c now_ms).0 (u32 (now_ms + step_timeout_ms)) count

tick-AllDueBy :
    (c : TuyaInitCoordinator) (now_ms : ℕ)
    → AllDueBy now_ms c.entries
    → AllDueBy (now_ms + step_timeout_ms) (tick c now_ms).0.entries
unfolding tick
tick-AllDueBy c now_ms due =
    next_action-AllDueBy now_ms c.correlation_id_counter _ (check-AllIdle now_ms c.entries due)

-- A tick sends an action, or nothing is left to do after it.
tick-total :
    (c : TuyaInitCoordinator) (now_ms : ℕ)
    → AllDueBy now_ms c.entries
    → (tick c now_ms).1 ≡ none
    → total (tick c now_ms).0.entries ≡ 0
unfolding tick
tick-total c now_ms due h =
    next_action-total now_ms c.correlation_id_counter _ (check-AllIdle now_ms c.entries due) h

ticks_stay :
    (n : ℕ) (c : TuyaInitCoordinator) (t : ℕ)
    → total c.entries ≡ 0
    → total (ticks c t n).entries ≡ 0
unfolding ticks
ticks_stay zero c t h = h
ticks_stay (suc n) c t h =
    ticks_stay n (tick c t).0 (u32 (t + step_timeout_ms)) (omega (arith, total-tick c t))

-- Before the clock wraps around, the next tick comes at the time that `tick` puts into a deadline.
next_due :
    (t : ℕ) (es : List TuyaInitEntry)
    → t + step_timeout_ms < 0x100000000
    → AllDueBy (t + step_timeout_ms) es
    → AllDueBy (u32 (t + step_timeout_ms)) es
next_due t es below due =
    let same : u32 (t + step_timeout_ms) ≡ t + step_timeout_ms = omega (arith, below) in rw same due

ticks_end :
    (n : ℕ) (c : TuyaInitCoordinator) (t : ℕ)
    → t + suc n * step_timeout_ms < 0x100000000
    → AllDueBy t c.entries
    → total c.entries ≤ n
    → total (ticks c t (suc n)).entries ≡ 0
unfolding ticks
ticks_end zero c t below due small =
    ticks_stay 0 (tick c t).0 (u32 (t + step_timeout_ms)) (omega (arith, total-tick c t))
ticks_end (suc n) c t below due small = elim (Option-cases (tick c t).1) [
  | inl h ↦ ticks_stay (suc n) (tick c t).0 (u32 (t + step_timeout_ms)) (tick-total c t due h)
  | inr (a, h) ↦
      ticks_end n (tick c t).0 (u32 (t + step_timeout_ms)) (omega (arith, below))
        (next_due t (tick c t).0.entries (omega (arith, below)) (tick-AllDueBy c t due))
        (ground (arith, total-tick c t))
]

ticks-Inv : (n : ℕ) (c : TuyaInitCoordinator) (t : ℕ) → Inv c → Inv (ticks c t n)
unfolding ticks
ticks-Inv zero c t inv = inv
ticks-Inv (suc n) c t inv =
    ticks-Inv n (tick c t).0 (u32 (t + step_timeout_ms)) (Step-Inv (Step.ticked c t) inv)

weight-get_or : (es : List TuyaInitEntry) (i : ℕ) → total es ≡ 0 → weight (get_or es i no_entry) ≡ 0
unfolding total
weight-get_or [] i h = weight_none
weight-get_or (e ∷ es) zero h = omega arith
weight-get_or (e ∷ es) (suc i) h = weight-get_or es i (omega arith)

weight_zero :
    (e : TuyaInitEntry)
    → EntryOk e
    → weight e ≡ 0
    → e.in_use ≡ true
    → (is_pending e.status ≡ false) × (is_waiting e.status ≡ false)
unfolding weight
weight_zero e ok h u = let lt = ok.within in ground arith

-- A table without work has no device in the middle of its start-up.
status-total :
    (c : TuyaInitCoordinator) (a : ℕ)
    → total c.entries ≡ 0
    → AllOk c.entries
    → let s = status c a in (is_pending s ≡ false) × (is_waiting s ≡ false)
unfolding status
status-total c a h ok = elim (Option-cases (find_index (has_addr a) c.entries)) [
  | inl e ↦ rw (e, status) (refl, refl)
  | inr (i, e) ↦
      rw (e, status)
        (weight_zero (get_or c.entries i no_entry) (AllOk-get_or c.entries i ok)
          (weight-get_or c.entries i h)
          (and_true _ _ (find_index-some (has_addr a) c.entries i no_entry e).1).0)
]

-- Under the invariant of the table, if the deadline of every command that waits for an
-- acknowledgement is reached at the first tick, and 625 ticks 5 seconds apart end before the
-- uint32_t clock wraps around, then these ticks, without any answer and without a device that
-- appears or leaves, end the start-up of every device: after them, none has a command to send or
-- waits for an acknowledgement.
pub ticks_settle :
    (c : TuyaInitCoordinator) (now_ms a : ℕ)
    → Inv c
    → now_ms + 625 * step_timeout_ms < 0x100000000
    → AllDueBy now_ms c.entries
    → let s = status (ticks c now_ms 625) a in (is_pending s ≡ false) × (is_waiting s ≡ false)
ticks_settle c now_ms a inv below due =
    status-total (ticks c now_ms 625) a
      (ticks_end 624 c now_ms below due (omega (arith, total_le c.entries inv.all, inv.size)))
      (ticks-Inv 625 c now_ms inv).all
