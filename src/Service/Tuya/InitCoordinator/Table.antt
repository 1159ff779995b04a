-- ===== src/Service/Tuya/InitCoordinator/Table.antt =====
-- components/service/tuya_init_coordinator.cpp: the table of devices in every reachable state.
use zigbee_gateway_v.Common.{
  ℕ, zero, suc, ◌≤◌, ◌<◌, ◌≡◌, refl, ap, ◌∙◌, Bool, true, false, ◌&&◌, Option-cases, Bool-cases,
  inl, inr, List, [], ◌∷◌, map, arith, ltb, leb, length, length-set, length-replicate, get_or, set,
  replicate, find_index,
}
use zigbee_gateway_v.Service.Tuya.InitCoordinator.{
  TuyaInitPlan, TuyaInitEntry, TuyaInitCoordinator, no_entry, new_coordinator, max_devices,
  max_retries, is_pending, is_waiting, has_addr, started, check_deadline, next_action, acknowledge,
  retry, notify_device_resolved, notify_device_removed, tick, notify_ack, find_or_allocate,
  has_correlation_id,
}

-- What holds of an entry: few tries are left, and its step is one of the plan's while its command
-- waits for an acknowledgement.
pub record EntryOk (e : TuyaInitEntry) : Type 0 where
  pub retries : e.retries_left ≤ max_retries
  pub plan : e.plan.step_count ≤ 4
  pub step : e.current_step ≤ e.plan.step_count
  pub within : is_waiting e.status ≡ true → e.current_step < e.plan.step_count

-- Every entry is well-formed.
unfoldable pub AllOk : List TuyaInitEntry → Type 0
AllOk [] = Unit {0}
AllOk (e ∷ es) = EntryOk e × AllOk es

no_entry-EntryOk : EntryOk no_entry
no_entry-EntryOk = record {
  retries = omega arith;
  plan = omega arith;
  step = omega arith;
  within = λ h. cc;
}

started-EntryOk : (a : ℕ) (plan : TuyaInitPlan) → plan.step_count ≤ 4 → EntryOk (started a plan)
started-EntryOk a plan h = record {
  retries = omega arith;
  plan = h;
  step = omega arith;
  within = λ w. ground arith;
}

retry-EntryOk : (e : TuyaInitEntry) → EntryOk e → EntryOk (retry e)
retry-EntryOk e ok = elim (Bool-cases (ltb 0 e.retries_left)) [
  | inl h ↦ rw h (record {
    retries = omega (arith, ok.retries);
    plan = ok.plan;
    step = ok.step;
    within = λ w. cc;
  })
  | inr h ↦ rw h (record { retries = ok.retries; plan = ok.plan; step = ok.step; within = λ w. cc })
]

pub acknowledge-EntryOk :
    (success : Bool) (e : TuyaInitEntry)
    → EntryOk e
    → is_waiting e.status ≡ true
    → EntryOk (acknowledge success e)
unfolding acknowledge
acknowledge-EntryOk false e ok w = retry-EntryOk e ok
acknowledge-EntryOk true e ok w =
    let lt = ok.within w in
    record {
      retries = omega arith;
      plan = ok.plan;
      step = omega (arith, lt);
      within = λ w. ground (arith, lt);
    }

AllOk-set :
    (es : List TuyaInitEntry) (i : ℕ) (e : TuyaInitEntry)
    → EntryOk e
    → AllOk es
    → AllOk (set es i e)
unfolding AllOk
AllOk-set [] i e ok all = tt
AllOk-set (x ∷ es) zero e ok all = (ok, all.1)
AllOk-set (x ∷ es) (suc i) e ok all = (all.0, AllOk-set es i e ok all.1)

pub AllOk-get_or : (es : List TuyaInitEntry) (i : ℕ) → AllOk es → EntryOk (get_or es i no_entry)
unfolding AllOk
AllOk-get_or [] i all = no_entry-EntryOk
AllOk-get_or (x ∷ es) zero all = all.0
AllOk-get_or (x ∷ es) (suc i) all = AllOk-get_or es i all.1

AllOk-replicate : (n : ℕ) → AllOk (replicate n no_entry)
unfolding AllOk
AllOk-replicate zero = tt
AllOk-replicate (suc n) = (no_entry-EntryOk, AllOk-replicate n)

check_deadline-EntryOk :
    (now_ms : ℕ) (e : TuyaInitEntry) → EntryOk e → EntryOk (check_deadline now_ms e)
check_deadline-EntryOk now_ms e ok = elim (Bool-cases (e.in_use && is_waiting e.status)) [
  | inr h ↦ rw h ok
  | inl h ↦ rw h (elim (Bool-cases (leb e.deadline_ms now_ms)) [
    | inl late ↦ rw late (retry-EntryOk e ok)
    | inr early ↦ rw early ok
  ])
]

AllOk-check :
    (now_ms : ℕ) (es : List TuyaInitEntry) → AllOk es → AllOk (map (check_deadline now_ms) es)
unfolding AllOk
AllOk-check now_ms [] all = tt
AllOk-check now_ms (e ∷ es) all =
    (check_deadline-EntryOk now_ms e all.0, AllOk-check now_ms es all.1)

AllOk-next_action :
    (now_ms id : ℕ) (es : List TuyaInitEntry) → AllOk es → AllOk (next_action now_ms id es).0
unfolding AllOk next_action
AllOk-next_action now_ms id [] all = tt
AllOk-next_action now_ms id (e ∷ es) all = elim (Bool-cases (e.in_use && is_pending e.status)) [
  | inr h ↦ rw h (all.0, AllOk-next_action now_ms id es all.1)
  | inl h ↦ rw h (elim (Bool-cases (leb e.plan.step_count e.current_step)) [
    | inl over ↦ rw over (
      record { retries = all.0.retries; plan = all.0.plan; step = all.0.step; within = λ w. cc },
      AllOk-next_action now_ms id es all.1,
    )
    | inr more ↦ rw more (
      record {
        retries = all.0.retries;
        plan = all.0.plan;
        step = all.0.step;
        within = λ w. ground (arith, more);
      },
      all.1,
    )
  ])
]

length-next_action :
    (now_ms id : ℕ) (es : List TuyaInitEntry) → length (next_action now_ms id es).0 ≡ length es
unfolding next_action
length-next_action now_ms id [] = refl
length-next_action now_ms id (e ∷ es) = ground (arith, length-next_action now_ms id es)

length-check :
    (now_ms : ℕ) (es : List TuyaInitEntry) → length (map (check_deadline now_ms) es) ≡ length es
length-check now_ms [] = refl
length-check now_ms (e ∷ es) = ap suc (length-check now_ms es)

pub record Inv (c : TuyaInitCoordinator) : Type 0 where
  pub size : length c.entries ≡ max_devices
  pub all : AllOk c.entries

-- One call of an operation that changes the coordinator. A plan has as many steps as its array
-- holds, or fewer.
pub data Step : TuyaInitCoordinator → TuyaInitCoordinator → Type 0 where
  resolved :
      (c : TuyaInitCoordinator) (a : ℕ) (plan : TuyaInitPlan)
      → plan.step_count ≤ 4
      → Step c (notify_device_resolved c a plan)
  removed : (c : TuyaInitCoordinator) (a : ℕ) → Step c (notify_device_removed c a)
  ticked : (c : TuyaInitCoordinator) (now_ms : ℕ) → Step c (tick c now_ms).0
  acked : (c : TuyaInitCoordinator) (id : ℕ) (success : Bool) → Step c (notify_ack c id success).0
  cleared : (c : TuyaInitCoordinator) → Step c new_coordinator

pub data Reachable : TuyaInitCoordinator → Type 0 where
  start : Reachable new_coordinator
  next : {c d : TuyaInitCoordinator} → Reachable c → Step c d → Reachable d

new_coordinator-Inv : Inv new_coordinator
new_coordinator-Inv = record {
  size = length-replicate max_devices no_entry;
  all = AllOk-replicate max_devices;
}

set-Inv :
    (c : TuyaInitCoordinator) (i : ℕ) (e : TuyaInitEntry)
    → EntryOk e
    → Inv c
    → Inv (record c { entries = set c.entries i e })
set-Inv c i e ok inv = record {
  size = length-set c.entries i e ∙ inv.size;
  all = AllOk-set c.entries i e ok inv.all;
}

notify_ack-Inv :
    (c : TuyaInitCoordinator) (id : ℕ) (success : Bool) → Inv c → Inv (notify_ack c id success).0
unfolding notify_ack
notify_ack-Inv c id success inv =
    elim (Option-cases (find_index (has_correlation_id id) c.entries)) [
      | inl h ↦ rw (h, notify_ack) inv
      | inr (i, h) ↦
          rw (h, notify_ack)
            (elim (Bool-cases (is_waiting (get_or c.entries i no_entry).status)) [
              | inr idle ↦ rw idle inv
              | inl w ↦ rw w (
                  set-Inv c i _ (acknowledge-EntryOk success _ (AllOk-get_or c.entries i inv.all) w)
                    inv)
            ])
    ]

pub Step-Inv : {c d : TuyaInitCoordinator} → Step c d → Inv c → Inv d
unfolding notify_device_resolved notify_device_removed tick
Step-Inv (resolved c a plan h) inv = elim (Option-cases (find_or_allocate c.entries a)) [
  | inl e ↦ rw (e, notify_device_resolved) inv
  | inr (i, e) ↦ rw (e, notify_device_resolved) (set-Inv c i _ (started-EntryOk a plan h) inv)
]
Step-Inv (removed c a) inv = elim (Option-cases (find_index (has_addr a) c.entries)) [
  | inl e ↦ rw (e, notify_device_removed) inv
  | inr (i, e) ↦ rw (e, notify_device_removed) (set-Inv c i _ no_entry-EntryOk inv)
]
Step-Inv (ticked c now_ms) inv = record {
  size =
      length-next_action now_ms c.correlation_id_counter (map (check_deadline now_ms) c.entries)
      ∙ length-check now_ms c.entries
      ∙ inv.size;
  all = AllOk-next_action now_ms c.correlation_id_counter _ (AllOk-check now_ms c.entries inv.all);
}
Step-Inv (acked c id success) inv = notify_ack-Inv c id success inv
Step-Inv (cleared c) inv = new_coordinator-Inv

-- In every reachable state the table has its 16 entries, and each has at most three tries left, a
-- step that is not past its plan, and, while its command waits for an acknowledgement, a step
-- that is one of the plan's, if no plan that was handed in is longer than its array.
pub Reachable-coordinator : {c : TuyaInitCoordinator} → Reachable c → Inv c
Reachable-coordinator start = new_coordinator-Inv
Reachable-coordinator (next r s) = Step-Inv s (Reachable-coordinator r)
