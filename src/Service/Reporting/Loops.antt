-- ===== src/Service/Reporting/Loops.antt =====
-- components/service/reporting_manager.cpp: what the loops over all entries do, and the entries in
-- every reachable state.
use zigbee_gateway_v.Common.{
  ℕ, zero, suc, ◌≤◌, ◌≡◌, refl, sym, ap, Bool, true, Bool-cases, inl, inr, List, [], ◌∷◌, map,
  arith, ◌==◌, if◌then◌else◌, length, length-replicate, get_or, get_or-replicate,
}
use zigbee_gateway_v.Core.Events.{CoreEvent}
use zigbee_gateway_v.Core.State.{max_devices}
use zigbee_gateway_v.Service.Reporting.Entry.{
  Entry, no_entry, new_entries, RetryTarget, FailureReason, RuntimeActions, no_actions,
}
use zigbee_gateway_v.Service.Reporting.Manager.{
  handle_event, report_operation_failure, retry, is_retry_due, retry_loop, process_timeouts,
  is_silent, stale_loop, collect_stale_candidates, set_stale_pending,
}
use zigbee_gateway_v.Service.Reporting.Occupancy.{OccupancyPolicy, normalize_occupancy_report}
use zigbee_gateway_v.Service.Reporting.Table.{EntryOk, Inv, no_entry-EntryOk, pointwise-Inv}
use zigbee_gateway_v.Service.Reporting.Writes.{
  handle_event-Inv, report_operation_failure-Inv, set_stale_pending-Inv, normalize-Inv,
}

-- What a due retry does to its entry.
abbrev pub retried : ℕ → Entry → Entry
retried now_ms e = if is_retry_due now_ms e then (retry e no_actions).0 else e

retry-entry : (e : Entry) (first second : RuntimeActions) → (retry e first).0 ≡ (retry e second).0
unfolding retry
retry-entry e first second = ground arith

pub retry_loop-map :
    (now_ms : ℕ) (es : List Entry) (actions : RuntimeActions)
    → (retry_loop now_ms es actions).0 ≡ map (retried now_ms) es
unfolding retry_loop
retry_loop-map now_ms [] actions = refl
retry_loop-map now_ms (e ∷ es) actions = elim (Bool-cases (is_retry_due now_ms e)) [
  | inl h ↦
      rw (h, retry_loop-map now_ms es (retry e actions).1, retry-entry e actions no_actions) refl
  | inr h ↦ rw (h, retry_loop-map now_ms es actions) refl
]

-- What the collection of stale devices does to an entry.
abbrev pub marked : ℕ → ℕ → Entry → Entry
marked now_ms window e = if is_silent now_ms window e then record e { stale_pending = true } else e

-- The addresses of the silent devices.
unfoldable pub silent_addrs : ℕ → ℕ → List Entry → List ℕ
silent_addrs now_ms window [] = []
silent_addrs now_ms window (e ∷ es) =
    let rest = silent_addrs now_ms window es in
    if is_silent now_ms window e then e.short_addr ∷ rest else rest

pub stale_loop-map :
    (now_ms window room : ℕ) (es : List Entry)
    → length es ≤ room
    → stale_loop now_ms window room es
      ≡ (map (marked now_ms window) es, silent_addrs now_ms window es)
unfolding stale_loop silent_addrs
stale_loop-map now_ms window room [] h = refl
stale_loop-map now_ms window zero (e ∷ es) h = absurd (omega arith)
stale_loop-map now_ms window (suc room) (e ∷ es) h = elim (Bool-cases (is_silent now_ms window e)) [
  | inl s ↦ rw (s, stale_loop-map now_ms window room es (omega arith)) refl
  | inr s ↦ rw (s, stale_loop-map now_ms window (suc room) es (omega arith)) refl
]

-- A change of every entry that keeps addresses and well-formed entries.
get_or-map :
    (f : Entry → Entry) (es : List Entry) (i : ℕ)
    → f no_entry ≡ no_entry
    → get_or (map f es) i no_entry ≡ f (get_or es i no_entry)
get_or-map f [] i h = sym h
get_or-map f (e ∷ es) zero h = refl
get_or-map f (e ∷ es) (suc i) h = get_or-map f es i h

pub length-map : (f : Entry → Entry) (es : List Entry) → length (map f es) ≡ length es
length-map f [] = refl
length-map f (e ∷ es) = ap suc (length-map f es)

map-Inv :
    (f : Entry → Entry) (es : List Entry)
    → f no_entry ≡ no_entry
    → ((e : Entry) → (f e).short_addr ≡ e.short_addr)
    → ((e : Entry) → EntryOk e → EntryOk (f e))
    → Inv es
    → Inv (map f es)
map-Inv f es h same ok inv =
    pointwise-Inv es (map f es) (length-map f es)
      (λ i. rw (get_or-map f es i h) (same (get_or es i no_entry)))
      (λ i k. rw (get_or-map f es i h) (ok (get_or es i no_entry) k)) inv

retried-addr : (now_ms : ℕ) (e : Entry) → (retried now_ms e).short_addr ≡ e.short_addr
unfolding retry
retried-addr now_ms e = ground arith

retried-EntryOk : (now_ms : ℕ) (e : Entry) → EntryOk e → EntryOk (retried now_ms e)
unfolding retry
retried-EntryOk now_ms e ok = elim (Bool-cases (is_retry_due now_ms e)) [
  | inr h ↦ rw h ok
  | inl h ↦
      let device = ok.device in
      let attempts = ok.attempts in
      rw h (record {
        blank = λ u. ground arith;
        device = ground arith;
        attempts = ground arith;
        counted = λ p. ground arith;
        aimed = λ p. ground arith;
      })
]

marked-EntryOk : (now_ms window : ℕ) (e : Entry) → EntryOk e → EntryOk (marked now_ms window e)
marked-EntryOk now_ms window e ok = elim (Bool-cases (is_silent now_ms window e)) [
  | inr h ↦ rw h ok
  | inl h ↦ rw h (record {
    blank = λ u. absurd (ground arith);
    device = ok.device;
    attempts = ok.attempts;
    counted = ok.counted;
    aimed = ok.aimed;
  })
]

process_timeouts-Inv : (es : List Entry) (now_ms : ℕ) → Inv es → Inv (process_timeouts es now_ms).0
unfolding process_timeouts
process_timeouts-Inv es now_ms inv =
    rw (retry_loop-map now_ms es no_actions)
      (map-Inv (retried now_ms) es refl (retried-addr now_ms) (retried-EntryOk now_ms) inv)

collect-Inv :
    (es : List Entry) (now_ms window : ℕ)
    → Inv es
    → Inv (collect_stale_candidates es now_ms window).0
unfolding collect_stale_candidates
collect-Inv es now_ms window inv = elim (Bool-cases (window == 0)) [
  | inl h ↦ rw h inv
  | inr h ↦
      rw (h, stale_loop-map now_ms window max_devices es (omega (arith, inv.size)))
        (map-Inv (marked now_ms window) es refl (λ e. ground arith) (marked-EntryOk now_ms window)
          inv)
]

-- One call of an operation.
pub data Step : List Entry → List Entry → Type 0 where
  event : (es : List Entry) (e : CoreEvent) → Step es (handle_event es e).0
  failure :
      (es : List Entry) (a : ℕ) (target : RetryTarget) (reason : FailureReason) (now_ms : ℕ)
      → Step es (report_operation_failure es a target reason now_ms).0
  timeouts : (es : List Entry) (now_ms : ℕ) → Step es (process_timeouts es now_ms).0
  stale :
      (es : List Entry) (now_ms window : ℕ) → Step es (collect_stale_candidates es now_ms window).0
  stale_pending :
      (es : List Entry) (a : ℕ) (pending : Bool) → Step es (set_stale_pending es a pending).0
  report :
      (es : List Entry) (a : ℕ) (raw : Bool) (now_ms : ℕ) (policy : OccupancyPolicy)
      → Step es (normalize_occupancy_report es a raw now_ms policy).0

pub data Reachable : List Entry → Type 0 where
  start : Reachable new_entries
  next : {es es' : List Entry} → Reachable es → Step es es' → Reachable es'

Step-Inv : {es es' : List Entry} → Step es es' → Inv es → Inv es'
Step-Inv (event es e) inv = handle_event-Inv es inv e
Step-Inv (failure es a target reason now_ms) inv =
    report_operation_failure-Inv es inv a target reason now_ms
Step-Inv (timeouts es now_ms) inv = process_timeouts-Inv es now_ms inv
Step-Inv (stale es now_ms window) inv = collect-Inv es now_ms window inv
Step-Inv (stale_pending es a pending) inv = set_stale_pending-Inv es inv a pending
Step-Inv (report es a raw now_ms policy) inv = normalize-Inv es inv a raw now_ms policy

new_entries-Inv : Inv new_entries
new_entries-Inv = record {
  size = length-replicate max_devices no_entry;
  each = λ i. rw (get_or-replicate max_devices no_entry i) no_entry-EntryOk;
  unique = λ i j ne. rw (get_or-replicate max_devices no_entry i) (λ e. refl);
}

-- Whatever the order of the manager's operations, from its start on: the table has 64 entries, no
-- two of them are of one device, none has address 0, a free one is blank, and a retry that waits
-- is for an operation and is one of the first three.
pub Reachable-entries : {es : List Entry} → Reachable es → Inv es
Reachable-entries start = new_entries-Inv
Reachable-entries (next r s) = Step-Inv s (Reachable-entries r)
