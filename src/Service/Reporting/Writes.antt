-- ===== src/Service/Reporting/Writes.antt =====
-- components/service/reporting_manager.cpp: the operations on one device keep the entries well-formed.
use zigbee_gateway_v.Common.{
  ℕ, ◌≡◌, refl, ◌∙◌, ◌⊎◌, Bool, true, false, not, ◌&&◌, ◌||◌, Option-cases, Bool-cases, inl, inr,
  some, List, arith, get_or, set, set-get_or, find_index, find_index-some, ==→eq,
}
use zigbee_gateway_v.Core.Events.{CoreEvent, CoreEventType}
use zigbee_gateway_v.Service.Reporting.Entry.{
  Entry, no_entry, RetryTarget, FailureReason, no_actions, has_addr, valid_short_addr, advance,
  is_joined, is_unknown,
}
use zigbee_gateway_v.Service.Reporting.Manager.{
  index_for, claim, handle_event, is_no_target, is_no_reason, fail, report_operation_failure,
  lookup_index, set_stale_pending,
}
use zigbee_gateway_v.Service.Reporting.Occupancy.{
  OccupancyPolicy, filter, normalize_occupancy_report, index_or_free,
}
use zigbee_gateway_v.Service.Reporting.Table.{
  Inv, index_for-IsPlace, index_or_free-IsPlace, store-Inv, claim-EntryOk, advance-addr,
  advance-EntryOk, fail-EntryOk, readdressed-EntryOk,
}

advance-is_unknown :
    (type : CoreEventType) (value : ℕ) (e : Entry)
    → is_unknown type ≡ true
    → (advance type value e ≡ (e, no_actions)) × (is_joined type ≡ false)
unfolding advance
advance-is_unknown type value e h = ground arith

-- An event of no known type finds the entry of its address or none.
claim-is_unknown :
    (type : CoreEventType) (es : List Entry) (a i : ℕ)
    → is_unknown type ≡ true
    → index_for type a es ≡ some i
    → claim a (get_or es i no_entry) ≡ get_or es i no_entry
unfolding index_for
claim-is_unknown type es a i u = elim (Option-cases (find_index (has_addr a) es)) [
  | inr (k, h) ↦
      rw (h, index_for) (λ e. rw ((find_index-some (has_addr a) es i no_entry (h ∙ e)).1) refl)
  | inl h ↦ rw (h, index_for) (rw (advance-is_unknown type 0 no_entry u).1 (λ e. cc))
]

valid_or :
    (a : ℕ) (type : CoreEventType)
    → (not (valid_short_addr a) && not (is_unknown type)) ≡ false
    → (valid_short_addr a ≡ true) ⊎ (is_unknown type ≡ true)
valid_or a type h = elim (Bool-cases (is_unknown type)) [
  | inl u ↦ inr u
  | inr u ↦ inl (ground (arith, u))
]

fail-addr :
    (target : RetryTarget) (reason : FailureReason) (now_ms : ℕ) (e : Entry)
    → (fail target reason now_ms e).0.short_addr ≡ e.short_addr
unfolding fail
fail-addr target reason now_ms e = ground arith

lookup_index-valid :
    (es : List Entry) (a i : ℕ)
    → lookup_index es a ≡ some i
    → (valid_short_addr a ≡ true) × (find_index (has_addr a) es ≡ some i)
unfolding lookup_index
lookup_index-valid es a i = elim (Bool-cases (valid_short_addr a)) [
  | inl h ↦ rw h (λ e. (refl, e))
  | inr h ↦ rw h (λ e. cc)
]

pub filter-same :
    (raw : Bool) (now_ms : ℕ) (policy : OccupancyPolicy) (e : Entry)
    → let e' = (filter raw now_ms policy e).0 in
      (e'.short_addr ≡ e.short_addr)
      × (e'.retry_attempt ≡ e.retry_attempt)
      × (e'.retry_pending ≡ e.retry_pending)
      × (e'.retry_target ≡ e.retry_target)
unfolding filter
filter-same raw now_ms policy e = (ground arith, ground arith, ground arith, ground arith)

module _ (es : List Entry) (inv : Inv es) where
  advance-Inv :
      (type : CoreEventType) (value a i : ℕ)
      → index_for type a es ≡ some i
      → (valid_short_addr a ≡ true) ⊎ (is_unknown type ≡ true)
      → Inv (set es i (advance type value (claim a (get_or es i no_entry))).0)
  advance-Inv type value a i h (inr u) =
      let e = claim a (get_or es i no_entry) in
      rw
        (
          (advance-is_unknown type value e u).0,
          claim-is_unknown type es a i u h,
          set-get_or es i no_entry,
        )
        inv
  advance-Inv type value a i h (inl valid) =
      let e = claim a (get_or es i no_entry) in
      let same : e.short_addr ≡ a = ground arith in
      store-Inv es a i (advance type value e).0 inv (index_for-IsPlace type es a i h)
        (advance-EntryOk type value e (ground (arith, valid, same))
          (claim-EntryOk es a i inv valid))
        (elim (advance-addr type value e) [ inl k ↦ inl (k ∙ same) | inr k ↦ inr k ])

  pub handle_event-Inv : (event : CoreEvent) → Inv (handle_event es event).0
  unfolding handle_event
  handle_event-Inv event =
      elim (Bool-cases
        (not (valid_short_addr event.device_short_addr) && not (is_unknown event.type))) [
          | inl h ↦ rw h inv
          | inr h ↦ rw h (elim (Option-cases (index_for event.type event.device_short_addr es)) [
            | inl e ↦ rw (e, handle_event) inv
            | inr (i, e) ↦
                rw (e, handle_event)
                  (advance-Inv event.type event.value_u32 event.device_short_addr i e
                    (valid_or event.device_short_addr event.type h))
          ])
        ]

  pub report_operation_failure-Inv :
      (a : ℕ) (target : RetryTarget) (reason : FailureReason) (now_ms : ℕ)
      → Inv (report_operation_failure es a target reason now_ms).0
  unfolding report_operation_failure
  report_operation_failure-Inv a target reason now_ms =
      elim (Bool-cases (not (valid_short_addr a) || is_no_target target || is_no_reason reason)) [
        | inl h ↦ rw h inv
        | inr h ↦ rw h (elim (Option-cases (find_index (has_addr a) es)) [
          | inl e ↦ rw (e, report_operation_failure) inv
          | inr (i, e) ↦
              let hit = ==→eq _ _ (find_index-some (has_addr a) es i no_entry e).1 in
              rw (e, report_operation_failure)
                (store-Inv es a i _ inv (inl e)
                  (fail-EntryOk target reason now_ms (get_or es i no_entry) (ground arith)
                    (ground (arith, hit)) (inv.each i))
                  (inl (fail-addr target reason now_ms (get_or es i no_entry) ∙ hit)))
        ])
      ]

  pub set_stale_pending-Inv : (a : ℕ) (pending : Bool) → Inv (set_stale_pending es a pending).0
  unfolding set_stale_pending
  set_stale_pending-Inv a pending = elim (Option-cases (lookup_index es a)) [
    | inl e ↦ rw (e, set_stale_pending) inv
    | inr (i, e) ↦
        let (valid, h) = lookup_index-valid es a i e in
        let same = ==→eq _ _ (find_index-some (has_addr a) es i no_entry h).1 in
        rw (e, set_stale_pending)
          (store-Inv es a i _ inv (inl h)
            (readdressed-EntryOk (get_or es i no_entry) _ (ground (arith, same, valid)) refl refl
              refl (inv.each i))
            (inl same))
  ]

  pub normalize-Inv :
      (a : ℕ) (raw : Bool) (now_ms : ℕ) (policy : OccupancyPolicy)
      → Inv (normalize_occupancy_report es a raw now_ms policy).0
  unfolding normalize_occupancy_report
  normalize-Inv a raw now_ms policy = elim (Bool-cases (valid_short_addr a)) [
    | inr h ↦ rw h inv
    | inl h ↦ rw h (elim (Option-cases (index_or_free es a)) [
      | inl e ↦ rw (e, normalize_occupancy_report) inv
      | inr (i, e) ↦
          let x = record (get_or es i no_entry) { short_addr = a } in
          let same = filter-same raw now_ms policy x in
          rw (e, normalize_occupancy_report)
            (store-Inv es a i _ inv (index_or_free-IsPlace es a i e)
              (readdressed-EntryOk (get_or es i no_entry) _ (rw same.0 h) same.1 same.2 same.3
                (inv.each i))
              (inl same.0))
    ])
  ]
