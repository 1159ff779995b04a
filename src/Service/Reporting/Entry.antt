-- ===== src/Service/Reporting/Entry.antt =====
-- components/service/reporting_manager.cpp and its header: the entry of a device, and what an event
-- does to it.
use zigbee_gateway_v.Common.{
  ℕ, zero, suc, ◌-◌, ◌*◌, ◌/◌, Bool, true, false, not, ◌&&◌, List, ltb, leb, ◌==◌, if◌then◌else◌,
  replicate, u32, sub_u32,
}
use zigbee_gateway_v.Core.Events.{CoreEventType, unknown_short_addr}
use zigbee_gateway_v.Core.State.{max_devices}

abbrev pub max_retry_attempts : ℕ
max_retry_attempts = 3

abbrev pub base_backoff_ms : ℕ
base_backoff_ms = 1000

abbrev pub max_backoff_ms : ℕ
max_backoff_ms = 8000

pub data State : Type 0 where
  unknown pending_interview pending_bind pending_configure_reporting : State
  reporting_active degraded : State

pub data RetryTarget : Type 0 where
  none bind configure_reporting : RetryTarget

pub data FailureReason : Type 0 where
  none timeout not_supported network_error unsupported_attr : FailureReason

pub record RuntimeActions : Type 0 where
  pub request_interview : Bool
  pub request_bind : Bool
  pub request_configure_reporting : Bool
  pub mark_degraded : Bool

abbrev pub no_actions : RuntimeActions
no_actions = record {
  request_interview = false;
  request_bind = false;
  request_configure_reporting = false;
  mark_degraded = false;
}

pub record Entry : Type 0 where
  pub short_addr : ℕ  -- uint16_t
  pub state : State
  pub retry_target : RetryTarget
  pub last_failure_reason : FailureReason
  pub retry_attempt : ℕ  -- uint8_t
  pub next_retry_at_ms : ℕ  -- uint32_t
  pub retry_pending : Bool
  pub last_report_at_ms : ℕ  -- uint32_t
  pub stale_pending : Bool
  pub occupancy_valid : Bool
  pub occupancy_stable : Bool
  pub occupancy_pending_valid : Bool
  pub occupancy_pending_target : Bool
  pub occupancy_pending_since_ms : ℕ  -- uint32_t
  pub occupancy_hold_until_ms : ℕ  -- uint32_t

abbrev pub no_entry : Entry
no_entry = record {
  short_addr = unknown_short_addr;
  state = State.unknown;
  retry_target = RetryTarget.none;
  last_failure_reason = FailureReason.none;
  retry_attempt = 0;
  next_retry_at_ms = 0;
  retry_pending = false;
  last_report_at_ms = 0;
  stale_pending = false;
  occupancy_valid = false;
  occupancy_stable = false;
  occupancy_pending_valid = false;
  occupancy_pending_target = false;
  occupancy_pending_since_ms = 0;
  occupancy_hold_until_ms = 0;
}

abbrev pub new_entries : List Entry
new_entries = replicate max_devices no_entry

abbrev pub is_pending_interview : State → Bool
is_pending_interview State.pending_interview = true
is_pending_interview _ = false

abbrev pub is_pending_bind : State → Bool
is_pending_bind State.pending_bind = true
is_pending_bind _ = false

abbrev pub is_pending_configure_reporting : State → Bool
is_pending_configure_reporting State.pending_configure_reporting = true
is_pending_configure_reporting _ = false

abbrev pub is_reporting_active : State → Bool
is_reporting_active State.reporting_active = true
is_reporting_active _ = false

abbrev pub is_degraded : State → Bool
is_degraded State.degraded = true
is_degraded _ = false

abbrev pub valid_short_addr : ℕ → Bool
valid_short_addr a = not (a == unknown_short_addr) && not (a == 0)

-- The tests of `find_index` and `find_free_index`.
abbrev pub has_addr : ℕ → Entry → Bool
has_addr a e = e.short_addr == a

abbrev pub is_free : Entry → Bool
is_free e = e.short_addr == unknown_short_addr

abbrev pub is_retryable_reason : FailureReason → Bool
is_retryable_reason FailureReason.timeout = true
is_retryable_reason FailureReason.network_error = true
is_retryable_reason _ = false

-- The loop of `compute_backoff_ms` with `rounds` rounds left.
unfoldable pub double_delay : ℕ → ℕ → ℕ
double_delay zero delay = delay
double_delay (suc rounds) delay =
    if leb (max_backoff_ms / 2) delay then max_backoff_ms else double_delay rounds (u32 (delay * 2))

unfoldable pub compute_backoff_ms : ℕ → ℕ
compute_backoff_ms attempt =
    if attempt == 0
    then base_backoff_ms
    else let delay = double_delay (attempt - 1) base_backoff_ms in
      if ltb max_backoff_ms delay then max_backoff_ms else delay

abbrev pub is_due : ℕ → ℕ → Bool
is_due now_ms deadline_ms = ltb (sub_u32 now_ms deadline_ms) 0x80000000

abbrev pub clear_retry_state : Entry → Entry
clear_retry_state e = record e {
  retry_target = RetryTarget.none;
  last_failure_reason = FailureReason.none;
  retry_attempt = 0;
  next_retry_at_ms = 0;
  retry_pending = false;
}

abbrev pub is_joined : CoreEventType → Bool
is_joined CoreEventType.device_joined = true
is_joined _ = false

abbrev pub is_unknown : CoreEventType → Bool
is_unknown CoreEventType.unknown = true
is_unknown _ = false

-- The switch of `handle_event` on the entry of the device; the second argument is `value_u32`.
unfoldable pub advance : CoreEventType → ℕ → Entry → Entry × RuntimeActions
advance CoreEventType.device_joined value e =
    if is_pending_interview e.state then (record e { stale_pending = false }, no_actions) else (
      record e { state = State.pending_interview; stale_pending = false },
      record no_actions { request_interview = true },
    )
advance CoreEventType.device_interview_completed value e =
    if is_pending_bind e.state then (clear_retry_state e, no_actions) else (
      record (clear_retry_state e) { state = State.pending_bind },
      record no_actions { request_bind = true },
    )
advance CoreEventType.device_binding_ready value e =
    if is_pending_configure_reporting e.state then (clear_retry_state e, no_actions) else (
      record (clear_retry_state e) { state = State.pending_configure_reporting },
      record no_actions { request_configure_reporting = true },
    )
advance CoreEventType.device_reporting_configured value e = (
  record (clear_retry_state e) { state = State.reporting_active; stale_pending = false },
  no_actions,
)
advance CoreEventType.device_telemetry_updated value e = (
  record (clear_retry_state e) {
    state = State.reporting_active;
    stale_pending = false;
    last_report_at_ms = if not (value == 0) then value else e.last_report_at_ms;
  },
  no_actions,
)
advance CoreEventType.device_stale value e =
    if is_degraded e.state
    then (record (clear_retry_state e) { stale_pending = false }, no_actions)
    else (
      record (clear_retry_state e) { state = State.degraded; stale_pending = false },
      record no_actions { mark_degraded = true },
    )
advance CoreEventType.device_left value e = (no_entry, no_actions)
advance _ value e = (e, no_actions)
