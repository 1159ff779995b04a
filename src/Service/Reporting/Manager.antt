-- ===== src/Service/Reporting/Manager.antt =====
-- components/service/reporting_manager.cpp: the manager's operations on its entries. Its state is
-- `entries_`; a result that is not written is `none`.
use zigbee_gateway_v.Common.{
  ℕ, zero, suc, ◌+◌, Bool, true, false, not, ◌&&◌, ◌||◌, Option, some, List, [], ◌∷◌, leb, ◌==◌,
  if◌then◌else◌, get_or, set, find_index, count_if, u32,
}
use zigbee_gateway_v.Core.Events.{CoreEvent, CoreEventType, unknown_short_addr}
use zigbee_gateway_v.Core.State.{max_devices}
use zigbee_gateway_v.Service.Reporting.Entry.{
  max_retry_attempts, no_actions, no_entry, is_reporting_active, is_degraded, valid_short_addr,
  has_addr, is_free, is_retryable_reason, compute_backoff_ms, is_due, advance, State, RetryTarget,
  FailureReason, RuntimeActions, Entry, is_joined, is_unknown,
}

-- The index of the device, with a free entry taken for one that joins.
unfoldable pub index_for : CoreEventType → ℕ → List Entry → Option ℕ
index_for type a es = elim (find_index (has_addr a) es) [
  | some i ↦ some i
  | Option.none ↦ if is_joined type then find_index is_free es else Option.none
]

-- The entry at the index that `index_for` finds: the address is written in an entry taken.
abbrev pub claim : ℕ → Entry → Entry
claim a e = if e.short_addr == a then e else record e { short_addr = a; state = State.unknown }

unfoldable pub handle_event : List Entry → CoreEvent → List Entry × RuntimeActions
handle_event es event =
    if not (valid_short_addr event.device_short_addr) && not (is_unknown event.type)
    then (es, no_actions)
    else elim (index_for event.type event.device_short_addr es) [
      | Option.none ↦ (es, no_actions)
      | some i ↦
          let entry = claim event.device_short_addr (get_or es i no_entry) in
          let (entry', actions) = advance event.type event.value_u32 entry in
          (set es i entry', actions)
    ]

abbrev pub is_no_target : RetryTarget → Bool
is_no_target RetryTarget.none = true
is_no_target _ = false

abbrev pub is_no_reason : FailureReason → Bool
is_no_reason FailureReason.none = true
is_no_reason _ = false

-- What a failed operation does to the entry of its device.
unfoldable pub fail : RetryTarget → FailureReason → ℕ → Entry → Entry × RuntimeActions
fail target reason now_ms e =
    let e' = record e { retry_target = target; last_failure_reason = reason } in
    if not (is_retryable_reason reason) || leb max_retry_attempts e.retry_attempt
    then (
      record e' { state = State.degraded; retry_pending = false },
      record no_actions { mark_degraded = true },
    )
    else (
      record e' {
        retry_attempt = e.retry_attempt + 1;
        retry_pending = true;
        next_retry_at_ms = u32 (now_ms + compute_backoff_ms (e.retry_attempt + 1));
      },
      no_actions,
    )

unfoldable pub report_operation_failure :
    List Entry → ℕ → RetryTarget → FailureReason → ℕ → List Entry × RuntimeActions
report_operation_failure es a target reason now_ms =
    if not (valid_short_addr a) || is_no_target target || is_no_reason reason
    then (es, no_actions)
    else elim (find_index (has_addr a) es) [
      | Option.none ↦ (es, no_actions)
      | some i ↦
          let (e, actions) = fail target reason now_ms (get_or es i no_entry) in
          (set es i e, actions)
    ]

-- The switch of `process_timeouts` on the entry, and the actions so far.
unfoldable pub retry : Entry → RuntimeActions → Entry × RuntimeActions
retry e actions = go e.retry_target
  where
    go : RetryTarget → Entry × RuntimeActions
    go RetryTarget.bind = (
      record e { retry_pending = false; state = State.pending_bind },
      record actions { request_bind = true },
    )
    go RetryTarget.configure_reporting = (
      record e { retry_pending = false; state = State.pending_configure_reporting },
      record actions { request_configure_reporting = true },
    )
    go RetryTarget.none = (record e { retry_pending = false }, actions)

abbrev pub is_retry_due : ℕ → Entry → Bool
is_retry_due now_ms e =
    not (e.short_addr == unknown_short_addr) && e.retry_pending && is_due now_ms e.next_retry_at_ms

-- The loop of `process_timeouts`, with the actions so far.
unfoldable pub retry_loop : ℕ → List Entry → RuntimeActions → List Entry × RuntimeActions
retry_loop now_ms [] actions = ([], actions)
retry_loop now_ms (e ∷ es) actions =
    let (e', actions') = if is_retry_due now_ms e then retry e actions else (e, actions) in
    let (es', out) = retry_loop now_ms es actions' in (e' ∷ es', out)

unfoldable pub process_timeouts : List Entry → ℕ → List Entry × RuntimeActions
process_timeouts es now_ms = retry_loop now_ms es no_actions

-- The tests of the loop of `collect_stale_candidates`.
abbrev pub is_silent : ℕ → ℕ → Entry → Bool
is_silent now_ms max_silence_window_ms e =
    not (e.short_addr == unknown_short_addr)
    && (is_reporting_active e.state && not (e.last_report_at_ms == 0) && not e.stale_pending)
    && is_due now_ms (u32 (e.last_report_at_ms + max_silence_window_ms))

-- The loop of `collect_stale_candidates`, with the room in the array of addresses.
unfoldable pub stale_loop : ℕ → ℕ → ℕ → List Entry → List Entry × List ℕ
stale_loop now_ms window room [] = ([], [])
stale_loop now_ms window zero (e ∷ es) =
    let (es', out) = stale_loop now_ms window 0 es in
    if is_silent now_ms window e then (e ∷ es, []) else (e ∷ es', out)
stale_loop now_ms window (suc room) (e ∷ es) =
    let (es_full, out_full) = stale_loop now_ms window room es in
    let (es', out) = stale_loop now_ms window (suc room) es in
    if is_silent now_ms window e
    then (record e { stale_pending = true } ∷ es_full, e.short_addr ∷ out_full)
    else (e ∷ es', out)

unfoldable pub collect_stale_candidates : List Entry → ℕ → ℕ → List Entry × List ℕ
collect_stale_candidates es now_ms max_silence_window_ms =
    if max_silence_window_ms == 0
    then (es, [])
    else stale_loop now_ms max_silence_window_ms max_devices es

-- `find_index`, after the test that the address is valid.
unfoldable pub lookup_index : List Entry → ℕ → Option ℕ
lookup_index es a = if not (valid_short_addr a) then Option.none else find_index (has_addr a) es

unfoldable pub set_stale_pending : List Entry → ℕ → Bool → List Entry × Bool
set_stale_pending es a pending = elim (lookup_index es a) [
  | Option.none ↦ (es, false)
  | some i ↦ (set es i (record (get_or es i no_entry) { stale_pending = pending }), true)
]

unfoldable pub get_state : List Entry → ℕ → Option State
get_state es a = elim (lookup_index es a) [
  | Option.none ↦ Option.none
  | some i ↦ some (get_or es i no_entry).state
]

pub record RetryStatus : Type 0 where
  pub target : RetryTarget
  pub reason : FailureReason
  pub attempt : ℕ  -- uint8_t
  pub next_retry_at_ms : ℕ  -- uint32_t
  pub pending : Bool

abbrev pub retry_status_of : Entry → RetryStatus
retry_status_of e = record {
  target = e.retry_target;
  reason = e.last_failure_reason;
  attempt = e.retry_attempt;
  next_retry_at_ms = e.next_retry_at_ms;
  pending = e.retry_pending;
}

unfoldable pub get_retry_status : List Entry → ℕ → Option RetryStatus
get_retry_status es a = elim (lookup_index es a) [
  | Option.none ↦ Option.none
  | some i ↦ some (retry_status_of (get_or es i no_entry))
]

unfoldable pub degraded_count : List Entry → ℕ
degraded_count es = count_if (λ e. is_degraded e.state) es
