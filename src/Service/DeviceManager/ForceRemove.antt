-- ===== src/Service/DeviceManager/ForceRemove.antt =====
-- components/service/device_manager.cpp: the operations on the map from addresses to deadlines.
use zigbee_gateway_v.Common.{
  ℕ, ◌+◌, ◌≤◌, ◌≡◌, refl, ◌∙◌, Bool, true, false, ◌&&◌, Option, none, some, List, [], ◌∷◌, arith,
  ◌==◌, Bool-cases, Option-cases, inl, inr, if◌then◌else◌, length, length-set, find_index, count_if,
  find_index-room, count_if-le,
}
use mathlib.Core.Option
use zigbee_gateway_v.Service.DeviceManager.{
  PendingForceRemove, DeviceManager, max_pending_force_remove, no_device_addr, is_deadline_reached,
  is_pending_for, is_vacant, schedule_force_remove, get_force_remove_remaining_ms, time_left,
  collect_loop, collect_expired_force_remove,
}
use zigbee_gateway_v.Service.DeviceManager.Deadlines.{
  is_used, deadline_of, Distinct, Inv, deadline_of-vacant, deadline_of-found, deadline_of-store,
  Distinct-store, deadline_of-postpone, Distinct-postpone,
}

-- What `schedule_force_remove` promises.
pub data Scheduled (m : DeviceManager) (a deadline_ms : ℕ) : DeviceManager × Bool → Type 0 where
  refused : no_device_addr a ≡ true → Scheduled m a deadline_ms (m, false)
  full :
      no_device_addr a ≡ false
      → deadline_of a m.pending_force_remove ≡ none
      → count_if is_used m.pending_force_remove ≡ max_pending_force_remove
      → Scheduled m a deadline_ms (m, false)
  done :
      (m' : DeviceManager)
      → no_device_addr a ≡ false
      → ((k : ℕ)
          → deadline_of k m'.pending_force_remove
            ≡ (if a == k then some deadline_ms else deadline_of k m.pending_force_remove))
      → m'.join_candidate_history ≡ m.join_candidate_history
      → Inv m'
      → Scheduled m a deadline_ms (m', true)

-- Under the invariant of the pending removals, `schedule_force_remove` refuses, with no change, an
-- address that no device has, and an address that does not wait while all slots are taken; else the
-- address waits for the new deadline, whether it waited before or not, no other address is
-- concerned, and the invariant is kept.
pub schedule_force_remove-Scheduled :
    (m : DeviceManager) (a deadline_ms : ℕ)
    → Inv m
    → Scheduled m a deadline_ms (schedule_force_remove m a deadline_ms)
unfolding schedule_force_remove
schedule_force_remove-Scheduled m a deadline_ms inv = elim (Bool-cases (no_device_addr a)) [
  | inl bad ↦ rw bad (refused bad)
  | inr good ↦ rw good (elim (Option-cases (find_index (is_pending_for a) m.pending_force_remove)) [
    | inr (i, h) ↦ rw h (
        done _ good (λ k. deadline_of-postpone a deadline_ms m.pending_force_remove i k h) refl
          (record {
            size = length-set m.pending_force_remove i _ ∙ inv.size;
            distinct = Distinct-postpone a deadline_ms m.pending_force_remove i h inv.distinct;
          }))
    | inl h ↦ elim (Option-cases (find_index is_vacant m.pending_force_remove)) [
      | inr (i, h') ↦
          let n = deadline_of-vacant a m.pending_force_remove h in
          rw (h, h')
            (done _ good (λ k. deadline_of-store a deadline_ms m.pending_force_remove i k h' n) refl
              (record {
                size = length-set m.pending_force_remove i _ ∙ inv.size;
                distinct = Distinct-store a deadline_ms m.pending_force_remove i h' n inv.distinct;
              }))
      | inl h' ↦
          rw (h, h') (full good (deadline_of-vacant a m.pending_force_remove h) (all_used h'))
    ]
  ])
]
  where
    all_used :
        find_index is_vacant m.pending_force_remove ≡ none
        → count_if is_used m.pending_force_remove ≡ max_pending_force_remove
    all_used h = ground (
      arith,
      inv.size,
      count_if-le is_used m.pending_force_remove,
      find_index-room is_used is_vacant m.pending_force_remove (λ s e. ground (arith, e)),
    )

-- The addresses whose deadline is reached, in the order of the table.
unfoldable pub reached_addrs : ℕ → List PendingForceRemove → List ℕ
reached_addrs now_ms [] = []
reached_addrs now_ms (p ∷ ps) =
    let rest = reached_addrs now_ms ps in
    if p.in_use && is_deadline_reached now_ms p.deadline_ms then p.short_addr ∷ rest else rest

-- A deadline that is not reached.
abbrev pub unless_reached : ℕ → Option ℕ → Option ℕ
unless_reached now_ms none = none
unless_reached now_ms (some d) = if is_deadline_reached now_ms d then none else some d

module _ (now_ms : ℕ) where
  collect-addrs :
      (ps : List PendingForceRemove) (written : ℕ)
      → written + length ps ≤ max_pending_force_remove
      → (collect_loop now_ms ps written).1 ≡ reached_addrs now_ms ps
  unfolding collect_loop reached_addrs
  collect-addrs [] written h = refl
  collect-addrs (p ∷ ps) written h =
      ground (arith, collect-addrs ps written, collect-addrs ps (written + 1))

  length-collect :
      (ps : List PendingForceRemove) (written : ℕ)
      → length (collect_loop now_ms ps written).0 ≡ length ps
  unfolding collect_loop
  length-collect [] written = refl
  length-collect (p ∷ ps) written =
      ground (arith, length-collect ps written, length-collect ps (written + 1))

  deadline_of-collect :
      (ps : List PendingForceRemove) (written k : ℕ)
      → Distinct ps
      → deadline_of k (collect_loop now_ms ps written).0 ≡ unless_reached now_ms (deadline_of k ps)
  unfolding collect_loop deadline_of
  deadline_of-collect [] written k d = refl
  deadline_of-collect (p ∷ ps) written k d =
      ground (arith, deadline_of-collect ps written k, deadline_of-collect ps (written + 1) k, d)

  Distinct-collect :
      (ps : List PendingForceRemove) (written : ℕ)
      → Distinct ps
      → Distinct (collect_loop now_ms ps written).0
  unfolding collect_loop deadline_of
  Distinct-collect [] written d = tt
  Distinct-collect (p ∷ ps) written d =
      elim (Bool-cases (p.in_use && is_deadline_reached now_ms p.deadline_ms)) [
        | inl e ↦ rw e ((λ u. ground (arith, u)), Distinct-collect ps _ d.1)
        | inr e ↦ rw e (
          (λ u. ground (arith, deadline_of-collect ps written p.short_addr d.1, d.0 u)),
          Distinct-collect ps written d.1,
        )
      ]

-- Under the invariant of the pending removals, `collect_expired_force_remove` returns exactly the
-- addresses whose deadline is reached, in the order of the table; these wait no longer, all others
-- wait for the same deadline, and the invariant is kept.
pub collect_expired_exact :
    (m : DeviceManager) (now_ms : ℕ)
    → Inv m
    → let (m', expired) = collect_expired_force_remove m now_ms in
      (expired ≡ reached_addrs now_ms m.pending_force_remove)
      × ((k : ℕ)
          → deadline_of k m'.pending_force_remove
            ≡ unless_reached now_ms (deadline_of k m.pending_force_remove))
      × Inv m'
unfolding collect_expired_force_remove
collect_expired_exact m now_ms inv = (
  collect-addrs now_ms m.pending_force_remove 0 (omega (arith, inv.size)),
  (λ k. deadline_of-collect now_ms m.pending_force_remove 0 k inv.distinct),
  record {
    size = length-collect now_ms m.pending_force_remove 0 ∙ inv.size;
    distinct = Distinct-collect now_ms m.pending_force_remove 0 inv.distinct;
  },
)

-- For an address of a device, `get_force_remove_remaining_ms` reports the time to its deadline, 0
-- if this is reached, and fails for an address that does not wait.
get_remaining-deadline_of :
    (m : DeviceManager) (a now_ms : ℕ)
    → no_device_addr a ≡ false
    → get_force_remove_remaining_ms m a now_ms
      ≡ Option.map (time_left now_ms) (deadline_of a m.pending_force_remove)
unfolding get_force_remove_remaining_ms
get_remaining-deadline_of m a now_ms h =
    elim (Option-cases (find_index (is_pending_for a) m.pending_force_remove)) [
      | inl e ↦ rw (h, e, deadline_of-vacant a m.pending_force_remove e) refl
      | inr (i, e) ↦ rw (h, e, deadline_of-found a m.pending_force_remove i e) refl
    ]
