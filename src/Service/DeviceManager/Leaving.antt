-- ===== src/Service/DeviceManager/Leaving.antt =====
-- components/service/device_manager.cpp: a device that left is forgotten in both tables.
use zigbee_gateway_v.Common.{
  ℕ, ◌≡◌, refl, ◌∙◌, Bool, true, false, Option, none, some, List, [], ◌∷◌, map, arith, ◌==◌,
  Bool-cases, inl, inr, if◌then◌else◌, length,
}
use zigbee_gateway_v.Core.Events.{CoreEvent, CoreEventType}
use zigbee_gateway_v.Service.DeviceManager.{
  PendingForceRemove, JoinCandidateEntry, DeviceManager, is_pending_for, drop_pending,
  cleared_candidate, no_device_addr, handle_event,
}
use zigbee_gateway_v.Service.DeviceManager.Deadlines.{deadline_of, Distinct, Inv}
use zigbee_gateway_v.Service.DeviceManager.JoinCandidates.{seen_of}

-- Whether an address waits for its removal.
abbrev pub is_waiting : Option ℕ → Bool
is_waiting none = false
is_waiting (some d) = true

module _ (a : ℕ) where
  deadline_of-drop :
      (ps : List PendingForceRemove) (k : ℕ)
      → deadline_of k (drop_pending a ps).0 ≡ (if a == k then none else deadline_of k ps)
  unfolding deadline_of drop_pending
  deadline_of-drop [] k = ground arith
  deadline_of-drop (p ∷ ps) k = ground (arith, deadline_of-drop ps k)

  drop-changed :
      (ps : List PendingForceRemove) → (drop_pending a ps).1 ≡ is_waiting (deadline_of a ps)
  unfolding deadline_of drop_pending
  drop-changed [] = refl
  drop-changed (p ∷ ps) = ground (arith, drop-changed ps)

  length-drop : (ps : List PendingForceRemove) → length (drop_pending a ps).0 ≡ length ps
  unfolding drop_pending
  length-drop [] = refl
  length-drop (p ∷ ps) = ground (arith, length-drop ps)

  Distinct-drop : (ps : List PendingForceRemove) → Distinct ps → Distinct (drop_pending a ps).0
  unfolding deadline_of drop_pending
  Distinct-drop [] d = tt
  Distinct-drop (p ∷ ps) d = elim (Bool-cases (is_pending_for a p)) [
    | inl e ↦ rw e ((λ u. ground (arith, u)), Distinct-drop ps d.1)
    | inr e ↦
        rw e ((λ u. ground (arith, d.0 u, deadline_of-drop ps p.short_addr)), Distinct-drop ps d.1)
  ]

  seen_of-clear :
      (es : List JoinCandidateEntry) (k : ℕ)
      → no_device_addr k ≡ false
      → seen_of k (map (cleared_candidate a) es) ≡ (if a == k then none else seen_of k es)
  unfolding seen_of
  seen_of-clear [] k known = ground arith
  seen_of-clear (e ∷ es) k known = ground (arith, known, seen_of-clear es k known)

-- Under the invariant of the pending removals, the event that a device left makes its address wait
-- no longer and forgets its request to join; no other address of a device is concerned; the result
-- says whether it waited; and the invariant is kept.
pub handle_event-left :
    (m : DeviceManager) (event : CoreEvent) (k : ℕ)
    → Inv m
    → event.type ≡ CoreEventType.device_left
    → no_device_addr event.device_short_addr ≡ false
    → no_device_addr k ≡ false
    → let (m', changed) = handle_event m event in
      let a = event.device_short_addr in
      (deadline_of k m'.pending_force_remove
        ≡ (if a == k then none else deadline_of k m.pending_force_remove))
      × (seen_of k m'.join_candidate_history
          ≡ (if a == k then none else seen_of k m.join_candidate_history))
      × (changed ≡ is_waiting (deadline_of a m.pending_force_remove))
      × Inv m'
unfolding handle_event
handle_event-left m event k inv left known known' =
    let a = event.device_short_addr in
    rw (left, known)
      (
        deadline_of-drop a m.pending_force_remove k,
        seen_of-clear a m.join_candidate_history k known',
        drop-changed a m.pending_force_remove,
        record {
          size = length-drop a m.pending_force_remove ∙ inv.size;
          distinct = Distinct-drop a m.pending_force_remove inv.distinct;
        },
      )
