-- ===== src/Service/Tuya/InitCoordinator/Acks.antt =====
-- components/service/tuya_init_coordinator.cpp: the answer to a command finds the device that the
-- command was sent to, and counts once.
use zigbee_gateway_v.Common.{
  ℕ, suc, ◌+◌, ◌<◌, ◌≡◌, refl, ◌∙◌, Bool, true, false, ◌&&◌, Option-cases, Bool-cases, inl, inr,
  some, List, [], ◌∷◌, map, arith, leb, ◌==◌, length-set, get_or, get_or-set, get_or-set_self,
  ==_refl, set, find_index, find_index-some, find_index-cong, u32,
}
use zigbee_gateway_v.Service.Tuya.InitCoordinator.{
  TuyaInitEntry, TuyaInitAction, TuyaInitCoordinator, no_entry, is_pending, is_waiting,
  has_correlation_id, check_deadline, next_action, acknowledge, tick, notify_ack,
}

acknowledge-kind :
    (id : ℕ) (success : Bool) (e : TuyaInitEntry)
    → (has_correlation_id id (acknowledge success e) ≡ has_correlation_id id e)
      × (is_waiting (acknowledge success e).status ≡ false)
unfolding acknowledge
acknowledge-kind id true e = ground arith
acknowledge-kind id false e = ground arith

module _ (c : TuyaInitCoordinator) (id : ℕ) (success : Bool) where
  refused :
      ((i : ℕ)
        → find_index (has_correlation_id id) c.entries ≡ some i
        → is_waiting (get_or c.entries i no_entry).status ≡ false)
      → notify_ack c id success ≡ (c, false)
  unfolding notify_ack
  refused idle = elim (Option-cases (find_index (has_correlation_id id) c.entries)) [
    | inl h ↦ rw (h, notify_ack) refl
    | inr (i, h) ↦ rw (h, notify_ack) (rw (idle i h) refl)
  ]

  accepted :
      (i : ℕ)
      → find_index (has_correlation_id id) c.entries ≡ some i
      → is_waiting (get_or c.entries i no_entry).status ≡ true
      → let e = acknowledge success (get_or c.entries i no_entry) in
        notify_ack c id success ≡ (record c { entries = set c.entries i e }, true)
  unfolding notify_ack
  accepted i h w = rw (h, notify_ack) (rw w refl)

-- The answered entry is still the one that the id finds, and it does not wait.
find_index-acknowledge :
    (es : List TuyaInitEntry) (id i : ℕ) (success : Bool)
    → find_index (has_correlation_id id) es ≡ some i
    → let es' = set es i (acknowledge success (get_or es i no_entry)) in
      (find_index (has_correlation_id id) es' ≡ some i)
      × (is_waiting (get_or es' i no_entry).status ≡ false)
find_index-acknowledge es id i success h =
    let hit = find_index-some (has_correlation_id id) es i no_entry h in
    let kind = acknowledge-kind id success (get_or es i no_entry) in
    let new = acknowledge success (get_or es i no_entry) in
    let same =
      find_index-cong (has_correlation_id id) (set es i new) es no_entry (length-set es i new)
        (λ j lt. ground (arith, get_or-set es i new j no_entry, kind.0)) in
    (same ∙ h, rw (get_or-set_self es i new no_entry hit.0) kind.1)

-- A second answer to the same command is refused and changes nothing, whatever the answers say.
pub notify_ack_once :
    (c : TuyaInitCoordinator) (id : ℕ) (first second : Bool)
    → let c' = (notify_ack c id first).0 in notify_ack c' id second ≡ (c', false)
notify_ack_once c id first second =
    elim (Option-cases (find_index (has_correlation_id id) c.entries)) [
      | inl h ↦ rw (refused c id first (λ i e. cc)) (refused c id second (λ i e. cc))
      | inr (i, h) ↦ elim (Bool-cases (is_waiting (get_or c.entries i no_entry).status)) [
        | inr idle ↦
            rw (refused c id first (λ j e. ground (arith, h)))
              (refused c id second (λ j e. ground (arith, h)))
        | inl w ↦
            let after = find_index-acknowledge c.entries id i first h in
            rw (accepted c id first i h w)
              (refused _ id second (λ j e. ground (arith, after.0, after.1)))
      ]
    ]

-- Every id of an entry is below the next one.
unfoldable pub AllBelow : ℕ → List TuyaInitEntry → Type 0
AllBelow counter [] = Unit {0}
AllBelow counter (e ∷ es) = (e.correlation_id < counter) × AllBelow counter es

check-AllBelow :
    (now_ms counter : ℕ) (es : List TuyaInitEntry)
    → AllBelow counter es
    → AllBelow counter (map (check_deadline now_ms) es)
unfolding AllBelow
check-AllBelow now_ms counter [] below = tt
check-AllBelow now_ms counter (e ∷ es) below =
    (ground (arith, below.0), check-AllBelow now_ms counter es below.1)

AllBelow-suc :
    (counter : ℕ) (es : List TuyaInitEntry) → AllBelow counter es → AllBelow (counter + 1) es
unfolding AllBelow
AllBelow-suc counter [] below = tt
AllBelow-suc counter (e ∷ es) below = (omega (arith, below.0), AllBelow-suc counter es below.1)

next_action-AllBelow :
    (now_ms id : ℕ) (es : List TuyaInitEntry)
    → AllBelow id es
    → AllBelow (id + 1) (next_action now_ms id es).0
unfolding AllBelow next_action
next_action-AllBelow now_ms id [] below = tt
next_action-AllBelow now_ms id (e ∷ es) below =
    let old : e.correlation_id < id + 1 = omega (arith, below.0) in
    let rest = next_action-AllBelow now_ms id es below.1 in
    elim (Bool-cases (e.in_use && is_pending e.status)) [
      | inr h ↦ rw h (old, rest)
      | inl h ↦ rw h (elim (Bool-cases (leb e.plan.step_count e.current_step)) [
        | inl over ↦ rw over (old, rest)
        | inr more ↦ rw more (omega arith, AllBelow-suc id es below.1)
      ])
    ]

-- The entry that an action was sent for is the one that its id finds, and it waits.
next_action-found :
    (now_ms id : ℕ) (es : List TuyaInitEntry) (a : TuyaInitAction)
    → AllBelow id es
    → let (es', action) = next_action now_ms id es in
      action ≡ some a
      → (a.correlation_id ≡ id)
        × ((i : ℕ) × (find_index (has_correlation_id id) es' ≡ some i)
            × (is_waiting (get_or es' i no_entry).status ≡ true)
            × ((get_or es' i no_entry).short_addr ≡ a.short_addr))
unfolding AllBelow next_action find_index
next_action-found now_ms id [] a below = λ h. cc
next_action-found now_ms id (e ∷ es) a below =
    let rest = next_action-found now_ms id es a below.1 in
    let old : (e.correlation_id == id) ≡ false = ground (arith, below.0) in
    elim (Bool-cases (e.in_use && is_pending e.status)) [
      | inr p ↦
          rw p (λ h. let r = rest h in (r.0, (suc r.1.0, ground (arith, old, r.1.1), r.1.2, r.1.3)))
      | inl p ↦ rw p (elim (Bool-cases (leb e.plan.step_count e.current_step)) [
        | inl over ↦
            rw over
              (λ h. let r = rest h in (r.0, (suc r.1.0, ground (arith, old, r.1.1), r.1.2, r.1.3)))
        | inr more ↦ rw more (λ h. (cc, (0, ground (arith, p, ==_refl id), refl, cc)))
      ])
    ]

tick_action :
    (c : TuyaInitCoordinator) (now_ms : ℕ) (a : TuyaInitAction)
    → (tick c now_ms).1 ≡ some a
    → (next_action now_ms c.correlation_id_counter (map (check_deadline now_ms) c.entries)).1
      ≡ some a
unfolding tick
tick_action c now_ms a h = h

-- The state after a tick that sends an action, where the counter does not wrap.
tick_sent :
    (c : TuyaInitCoordinator) (now_ms : ℕ) (a : TuyaInitAction)
    → c.correlation_id_counter + 1 < 0x100000000
    → (tick c now_ms).1 ≡ some a
    → let id = c.correlation_id_counter in
      (tick c now_ms).0 ≡ record {
        entries = (next_action now_ms id (map (check_deadline now_ms) c.entries)).0;
        correlation_id_counter = id + 1;
      }
unfolding tick
tick_sent c now_ms a small h =
    let wrap : u32 (c.correlation_id_counter + 1) ≡ c.correlation_id_counter + 1 = omega arith in
    rw (h, wrap) refl

-- While the ids handed out are new, the answer to an action that a tick has just sent is accepted,
-- a failure as well as a success, for the device that the action names; and the ids stay new
-- until the counter wraps.
pub tick-notify_ack :
    (c : TuyaInitCoordinator) (now_ms : ℕ) (a : TuyaInitAction) (success : Bool)
    → AllBelow c.correlation_id_counter c.entries
    → c.correlation_id_counter + 1 < 0x100000000
    → (tick c now_ms).1 ≡ some a
    → let c' = (tick c now_ms).0 in
      AllBelow c'.correlation_id_counter c'.entries
      × ((i : ℕ) × ((get_or c'.entries i no_entry).short_addr ≡ a.short_addr)
          × (is_waiting (get_or c'.entries i no_entry).status ≡ true)
          × (notify_ack c' a.correlation_id success ≡ (
            record c' {
              entries = set c'.entries i (acknowledge success (get_or c'.entries i no_entry));
            },
            true,
          )))
tick-notify_ack c now_ms a success below small h =
    let id = c.correlation_id_counter in
    let es = map (check_deadline now_ms) c.entries in
    let checked = check-AllBelow now_ms id c.entries below in
    let hit = next_action-found now_ms id es a checked (tick_action c now_ms a h) in
    rw (tick_sent c now_ms a small h, hit.0)
      (
        next_action-AllBelow now_ms id es checked,
        (hit.1.0, hit.1.3, hit.1.2, accepted _ id success hit.1.0 hit.1.1 hit.1.2),
      )
