-- ===== src/Core/Dispatcher/Laws.antt =====
-- components/core/core_command_dispatcher.cpp: the invariant of the dispatcher, and what each
-- operation does to the map from correlation ids to waiting commands.
use zigbee_gateway_v.Common.{
  ℕ, zero, suc, ◌+◌, ◌≤◌, ◌<◌, ◌≡◌, ◌≢◌, ◌⊎◌, ◌∙◌, refl, ap, inl, inr, true, false, not, ◌||◌,
  Option, none, some, map, arith, leb, ◌==◌, if◌then◌else◌, length, set, length-set, replicate,
  find_index, find_index-some, find_index-room, count_if, count_if-set, count_if-le, count_if-pos,
  Bool-cases, Option-cases,
}
use zigbee_gateway_v.Core.Events.{CoreEvent, CoreError, no_correlation_id}
use zigbee_gateway_v.Core.Commands.{
  CoreCommand, CoreCommandResult, is_supported_command, command_to_event,
}
use zigbee_gateway_v.Core.Dispatcher.Table.{
  is_used, lookup, Distinct, lookup-vacant, lookup-found, entry_of, lookup-store, Distinct-store,
  lookup-clear, Distinct-clear, Distinct-expire, length-expire, expire_counts, unless_expired,
  lookup-expire, expired_commands, expire_events,
}
use zigbee_gateway_v.Core.Dispatcher.{
  CoreCommandDispatcher, no_entry, max_pending, waits_for, is_vacant, count_down, store, submit,
  resolve, completion, timeout_event, expire_loop, expire_timeouts, new_dispatcher,
}

-- The table has its 16 entries, no two of which wait for the same result, and `pending_count_`
-- counts those in use.
pub record Inv (d : CoreCommandDispatcher) : Type 0 where
  pub size : length d.pending ≡ max_pending
  pub distinct : Distinct d.pending
  pub counted : d.pending_count ≡ count_if is_used d.pending

pub Distinct-replicate : (n : ℕ) → Distinct (replicate n no_entry)
Distinct-replicate zero = tt
Distinct-replicate (suc n) = (λ h. cc, Distinct-replicate n)

pub new_dispatcher-Inv : Inv new_dispatcher
unfolding count_if
new_dispatcher-Inv = record {
  size = refl;
  distinct = Distinct-replicate max_pending;
  counted = refl;
}

-- Why `submit` refuses a command; an id in use is refused only while there is room.
abbrev pub Refused : CoreCommandDispatcher → CoreCommand → CoreError → Type 0
Refused d c e =
    ((e ≡ CoreError.invalid_argument)
      × ((c.correlation_id ≡ no_correlation_id) ⊎ (is_supported_command c.type ≡ false)))
    ⊎ ((e ≡ CoreError.no_capacity) × (count_if is_used d.pending ≡ max_pending))
    ⊎ ((e ≡ CoreError.busy) × (lookup c.correlation_id d.pending ≢ none))

-- What `submit` promises.
pub data Submitted (d : CoreCommandDispatcher) (c : CoreCommand)
    : CoreCommandDispatcher × CoreError × Option CoreEvent → Type 0 where
  refused : (e : CoreError) → Refused d c e → Submitted d c (d, e, none)
  accepted :
      (d' : CoreCommandDispatcher)
      → c.correlation_id ≢ no_correlation_id
      → is_supported_command c.type ≡ true
      → lookup c.correlation_id d.pending ≡ none
      → ((k : ℕ)
          → lookup k d'.pending ≡ (if c.correlation_id == k then some c else lookup k d.pending))
      → Inv d'
      → Submitted d c (d', CoreError.ok, some (command_to_event c))

module _ (d : CoreCommandDispatcher) (inv : Inv d) where
  full : leb max_pending d.pending_count ≡ true → count_if is_used d.pending ≡ max_pending
  full h = ground (arith, inv.counted, inv.size, count_if-le is_used d.pending)

  vacancy : leb max_pending d.pending_count ≡ false → find_index is_vacant d.pending ≢ none
  vacancy h =
      find_index-room is_used is_vacant d.pending (λ e u. ap not u)
        (ground (arith, inv.counted, inv.size))

  store-Inv :
      (c : CoreCommand) (i : ℕ)
      → find_index is_vacant d.pending ≡ some i
      → lookup c.correlation_id d.pending ≡ none
      → Inv (record { pending = set d.pending i (entry_of c); pending_count = d.pending_count + 1 })
  store-Inv c i h n =
      let (lt, free) = find_index-some is_vacant d.pending i no_entry h in
      record {
        size = length-set d.pending i (entry_of c) ∙ inv.size;
        distinct = Distinct-store c d.pending i h n inv.distinct;
        counted =
            ground (arith, inv.counted, count_if-set is_used d.pending i (entry_of c) no_entry lt);
      }

  store-Submitted :
      (c : CoreCommand)
      → c.correlation_id ≢ no_correlation_id
      → is_supported_command c.type ≡ true
      → leb max_pending d.pending_count ≡ false
      → lookup c.correlation_id d.pending ≡ none
      → Submitted d c (store d c)
  unfolding store
  store-Submitted c id known room new = elim (Option-cases (find_index is_vacant d.pending)) [
    | inl none_left ↦ absurd (vacancy room none_left)
    | inr (i, h) ↦
        rw (h, store)
          (accepted _ id known new (λ k. lookup-store c d.pending i k h new) (store-Inv c i h new))
  ]

  -- Under the invariant a command is refused for a reason that its sender can see, with no change,
  -- or it waits from now on and is announced; there is no internal error.
  pub submit-Submitted : (c : CoreCommand) → Submitted d c (submit d c)
  unfolding submit
  submit-Submitted c =
      elim (Bool-cases
        (c.correlation_id == no_correlation_id || not (is_supported_command c.type))) [
          | inl bad ↦ rw bad (refused _ (inl (refl, ground arith)))
          | inr good ↦ rw good (elim (Bool-cases (leb max_pending d.pending_count)) [
            | inl h ↦ rw h (refused _ (inr (inl (refl, full h))))
            | inr room ↦
                rw room (elim (Option-cases (find_index (waits_for c.correlation_id) d.pending)) [
                  | inr (i, h) ↦
                      rw (h, submit)
                        (refused _
                          (inr (inr (refl, λ e. cc (lookup-found c.correlation_id d.pending i h)))))
                  | inl h ↦
                      rw (h, submit)
                        (store-Submitted c (ground arith) (ground arith) room
                          (lookup-vacant c.correlation_id d.pending h))
                ])
          ])
        ]

  resolve-Inv :
      (id i : ℕ)
      → find_index (waits_for id) d.pending ≡ some i
      → Inv (record {
        pending = set d.pending i no_entry;
        pending_count = count_down d.pending_count;
      })
  resolve-Inv id i h =
      let (lt, hit) = find_index-some (waits_for id) d.pending i no_entry h in
      record {
        size = length-set d.pending i no_entry ∙ inv.size;
        distinct = Distinct-clear id d.pending i h inv.distinct;
        counted = ground (
          arith,
          inv.counted,
          hit,
          count_if-set is_used d.pending i no_entry no_entry lt,
          count_if-pos is_used d.pending i no_entry lt,
        );
      }

-- What `resolve` promises: the result of a waiting command is announced with the device of the
-- command, and the command waits no longer, so a second result for it is not found.
pub data Resolved (d : CoreCommandDispatcher) (r : CoreCommandResult) (event : CoreEvent)
    : CoreCommandDispatcher × CoreError × CoreEvent → Type 0 where
  refused :
      r.correlation_id ≡ no_correlation_id
      → Resolved d r event (d, CoreError.invalid_argument, event)
  missing :
      r.correlation_id ≢ no_correlation_id
      → lookup r.correlation_id d.pending ≡ none
      → Resolved d r event (d, CoreError.not_found, event)
  done :
      (d' : CoreCommandDispatcher) (c : CoreCommand)
      → lookup r.correlation_id d.pending ≡ some c
      → ((k : ℕ)
          → lookup k d'.pending ≡ (if r.correlation_id == k then none else lookup k d.pending))
      → Inv d'
      → Resolved d r event (d', CoreError.ok, completion r c event)

pub resolve-Resolved :
    (d : CoreCommandDispatcher)
    → Inv d
    → (r : CoreCommandResult) (event : CoreEvent) → Resolved d r event (resolve d r event)
unfolding resolve
resolve-Resolved d inv r event = elim (Bool-cases (r.correlation_id == no_correlation_id)) [
  | inl bad ↦ rw bad (refused (ground arith))
  | inr good ↦ rw good (elim (Option-cases (find_index (waits_for r.correlation_id) d.pending)) [
    | inl h ↦ rw (h, resolve) (missing (ground arith) (lookup-vacant r.correlation_id d.pending h))
    | inr (i, h) ↦
        rw (h, resolve)
          (done _ _ (lookup-found r.correlation_id d.pending i h)
            (λ k. lookup-clear r.correlation_id d.pending i k h inv.distinct)
            (resolve-Inv d inv r.correlation_id i h))
  ])
]

-- Whatever the room for events, `expire_timeouts` keeps the invariant, fills the room at most, and
-- takes one command off the table for each event.
pub expire_timeouts-Inv :
    (d : CoreCommandDispatcher) (now_ms timeout_ms capacity : ℕ)
    → Inv d
    → let (d', events) = expire_timeouts d now_ms timeout_ms capacity in
      Inv d' × (length events ≤ capacity) × (d'.pending_count + length events ≡ d.pending_count)
unfolding expire_timeouts
expire_timeouts-Inv d now_ms timeout_ms capacity inv =
    elim (Bool-cases (capacity == 0 || timeout_ms == 0)) [
      | inl skip ↦ rw skip (inv, omega arith, omega arith)
      | inr run ↦ rw run (
        record {
          size = length-expire now_ms timeout_ms capacity d.pending_count d.pending ∙ inv.size;
          distinct =
              Distinct-expire now_ms timeout_ms capacity d.pending_count d.pending inv.distinct;
          counted = omega (arith, counts, inv.counted);
        },
        counts.0,
        counts.2,
      )
    ]
  where
    counts :
        let r = expire_loop now_ms timeout_ms capacity d.pending_count d.pending in
        (length r.events ≤ capacity)
        × (length r.events + count_if is_used r.pending ≡ count_if is_used d.pending)
        × (r.count + length r.events ≡ d.pending_count)
    counts =
        expire_counts now_ms timeout_ms capacity d.pending_count d.pending
          (omega (arith, inv.counted))

-- With room for every entry, `expire_timeouts` announces exactly the commands whose age, in
-- uint32_t, has reached the timeout, in the order of the table; these wait no longer, and all
-- others still do.
pub expire_timeouts_exact :
    (d : CoreCommandDispatcher) (now_ms timeout_ms capacity k : ℕ)
    → Inv d
    → 0 < timeout_ms
    → max_pending ≤ capacity
    → let (d', events) = expire_timeouts d now_ms timeout_ms capacity in
      (events ≡ map (timeout_event now_ms) (expired_commands now_ms timeout_ms d.pending))
      × (lookup k d'.pending ≡ unless_expired now_ms timeout_ms (lookup k d.pending))
unfolding expire_timeouts
expire_timeouts_exact d now_ms timeout_ms capacity k inv ht hc = rw run (
  expire_events now_ms timeout_ms capacity d.pending_count d.pending (omega (arith, inv.size)),
  lookup-expire now_ms timeout_ms capacity d.pending_count k d.pending (omega (arith, inv.size))
      inv.distinct,
)
  where
    run : (capacity == 0 || timeout_ms == 0) ≡ false
    run = ground arith
