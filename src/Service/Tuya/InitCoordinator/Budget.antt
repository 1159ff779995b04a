-- ===== src/Service/Tuya/InitCoordinator/Budget.antt =====
-- components/service/tuya_init_coordinator.cpp: how much work the start-up of the devices can
-- still ask for, and that it ends.
use zigbee_gateway_v.Common.{
  ℕ, zero, suc, ◌+◌, ◌-◌, ◌*◌, ◌≤◌, ◌<◌, ◌≡◌, Bool, true, false, ◌&&◌, Option, Option-cases,
  Bool-cases, inl, inr, none, some, List, [], ◌∷◌, map, arith, and_true, leb, if◌then◌else◌, length,
  get_or, set, find_index, find_index-some, weigh,
}
use zigbee_gateway_v.Service.Tuya.InitCoordinator.{
  TuyaInitStatus, TuyaInitEntry, TuyaInitAction, TuyaInitCoordinator, no_entry, is_pending,
  is_waiting, has_correlation_id, check_deadline, next_action, sent, acknowledge, tick, notify_ack,
}
use zigbee_gateway_v.Service.Tuya.InitCoordinator.Table.{
  EntryOk, AllOk, AllOk-get_or, Inv, Step, Step-Inv,
}

-- The work left for an entry: eight units for each step of its plan that is not done, two for each
-- try that is left, and one for a command that is not sent.
unfoldable pub weight : TuyaInitEntry → ℕ
weight e =
    let rest = 8 * (e.plan.step_count - e.current_step) + 2 * e.retries_left in
    if e.in_use && is_pending e.status
    then rest + 1
    else if e.in_use && is_waiting e.status
    then rest
    else 0

unfoldable pub total : List TuyaInitEntry → ℕ
total [] = 0
total (e ∷ es) = weight e + total es

-- 1 for an action that is sent.
abbrev pub sent_count : Option TuyaInitAction → ℕ
sent_count none = 0
sent_count (some a) = 1

weight-check : (now_ms : ℕ) (e : TuyaInitEntry) → weight (check_deadline now_ms e) ≤ weight e
unfolding weight
weight-check now_ms e = ground arith

weight-acknowledge :
    (success : Bool) (e : TuyaInitEntry)
    → EntryOk e
    → e.in_use ≡ true
    → is_waiting e.status ≡ true
    → weight (acknowledge success e) < weight e
unfolding weight acknowledge
weight-acknowledge true e ok u w = let lt = ok.within w in let plan = ok.plan in ground arith
weight-acknowledge false e ok u w = let lt = ok.within w in ground arith

weight-sent :
    (now_ms id : ℕ) (e : TuyaInitEntry)
    → (e.in_use && is_pending e.status) ≡ true
    → weight (sent now_ms id e) < weight e
unfolding weight
weight-sent now_ms id e h = ground arith

weight-ready : (e : TuyaInitEntry) → weight (record e { status = TuyaInitStatus.ready }) ≤ weight e
unfolding weight
weight-ready e = ground arith

total-set :
    (es : List TuyaInitEntry) (i : ℕ) (e : TuyaInitEntry)
    → i < length es
    → total (set es i e) + weight (get_or es i no_entry) ≡ total es + weight e
unfolding total
total-set [] i e lt = absurd (omega arith)
total-set (x ∷ es) zero e lt = omega arith
total-set (x ∷ es) (suc i) e lt = omega (arith, total-set es i e (omega arith))

pub total-check :
    (now_ms : ℕ) (es : List TuyaInitEntry) → total (map (check_deadline now_ms) es) ≤ total es
unfolding total
total-check now_ms [] = omega arith
total-check now_ms (e ∷ es) = omega (arith, weight-check now_ms e, total-check now_ms es)

total-next_action :
    (now_ms id : ℕ) (es : List TuyaInitEntry)
    → let (es', action) = next_action now_ms id es in total es' + sent_count action ≤ total es
unfolding total next_action
total-next_action now_ms id [] = omega arith
total-next_action now_ms id (e ∷ es) = elim (Bool-cases (e.in_use && is_pending e.status)) [
  | inr h ↦ rw h (omega (arith, total-next_action now_ms id es))
  | inl h ↦ rw h (elim (Bool-cases (leb e.plan.step_count e.current_step)) [
    | inl over ↦ rw over (omega (arith, total-next_action now_ms id es, weight-ready e))
    | inr more ↦ rw more (omega (arith, weight-sent now_ms id e h))
  ])
]

-- A tick takes a unit off for the action that it sends.
pub total-tick :
    (c : TuyaInitCoordinator) (now_ms : ℕ)
    → let (c', action) = tick c now_ms in total c'.entries + sent_count action ≤ total c.entries
unfolding tick
total-tick c now_ms = omega (
  arith,
  total-next_action now_ms c.correlation_id_counter (map (check_deadline now_ms) c.entries),
  total-check now_ms c.entries,
)

-- So does an acknowledgement that is accepted.
total-notify_ack :
    (c : TuyaInitCoordinator) (id : ℕ) (success : Bool)
    → Inv c
    → let (c', done) = notify_ack c id success in total c'.entries + weigh done ≤ total c.entries
unfolding notify_ack
total-notify_ack c id success inv =
    elim (Option-cases (find_index (has_correlation_id id) c.entries)) [
      | inl h ↦ rw (h, notify_ack) (omega arith)
      | inr (i, h) ↦
          let hit = find_index-some (has_correlation_id id) c.entries i no_entry h in
          let e = get_or c.entries i no_entry in
          let ok = AllOk-get_or c.entries i inv.all in
          rw (h, notify_ack)
            (elim (Bool-cases (is_waiting e.status)) [
              | inr idle ↦ rw idle (omega arith)
              | inl w ↦ rw w (
                  omega (
                    arith,
                    total-set c.entries i (acknowledge success e) hit.0,
                    weight-acknowledge success e ok (and_true e.in_use _ hit.1).0 w,
                  ))
            ])
    ]

-- What the runtime tells the coordinator while no device appears or leaves.
pub data Event : Type 0 where
  at : (now_ms : ℕ) → Event
  ack : (correlation_id : ℕ) (success : Bool) → Event

-- The state after a sequence of events, with the number of actions sent and of acknowledgements
-- accepted.
unfoldable pub run : TuyaInitCoordinator → List Event → TuyaInitCoordinator × ℕ
run c [] = (c, 0)
run c (at now_ms ∷ events) =
    let (c', action) = tick c now_ms in
    let (d, work) = run c' events in (d, sent_count action + work)
run c (ack id success ∷ events) =
    let (c', done) = notify_ack c id success in
    let (d, work) = run c' events in (d, weigh done + work)

run-total :
    (c : TuyaInitCoordinator) (events : List Event)
    → Inv c
    → let (d, work) = run c events in total d.entries + work ≤ total c.entries
unfolding run
run-total c [] inv = omega arith
run-total c (at now_ms ∷ events) inv = omega (
  arith,
  total-tick c now_ms,
  run-total (tick c now_ms).0 events (Step-Inv (Step.ticked c now_ms) inv),
)
run-total c (ack id success ∷ events) inv = omega (
  arith,
  total-notify_ack c id success inv,
  run-total (notify_ack c id success).0 events (Step-Inv (Step.acked c id success) inv),
)

weight_le : (e : TuyaInitEntry) → EntryOk e → weight e ≤ 39
unfolding weight
weight_le e ok = let plan = ok.plan in let retries = ok.retries in ground arith

pub total_le : (es : List TuyaInitEntry) → AllOk es → total es ≤ 39 * length es
unfolding total AllOk
total_le [] all = omega arith
total_le (e ∷ es) all = omega (arith, weight_le e all.0, total_le es all.1)

-- Under the invariant of the table and while no device appears or leaves, the coordinator sends
-- commands and accepts acknowledgements 624 times at most, 39 times for each place of its table,
-- whatever ticks and acknowledgements come, failures and timeouts included.
pub run_bounded : (c : TuyaInitCoordinator) (events : List Event) → Inv c → (run c events).1 ≤ 624
run_bounded c events inv =
    omega (arith, run-total c events inv, total_le c.entries inv.all, inv.size)
