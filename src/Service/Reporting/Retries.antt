-- ===== src/Service/Reporting/Retries.antt =====
-- components/service/reporting_manager.cpp: the delay between tries, the limit on them, and what a
-- second pass over the entries finds.
use zigbee_gateway_v.Common.{
  ℕ, zero, suc, ◌+◌, ◌-◌, ◌*◌, ◌^◌, ◌≤◌, ◌<◌, ◌≡◌, refl, sym, subst, ap, ◌∙◌, ◌≢◌, true, false,
  Bool-cases, inl, inr, Option, some, List, [], ◌∷◌, map, ◌%◌, sub_u32, arith, ltb, leb, ◌==◌,
  if◌then◌else◌, length, u32,
}
use zigbee_gateway_v.Core.State.{max_devices}
use zigbee_gateway_v.Service.Reporting.Entry.{
  Entry, State, RetryTarget, FailureReason, RuntimeActions, no_actions, max_retry_attempts,
  is_retryable_reason, is_reporting_active, double_delay, compute_backoff_ms,
}
use zigbee_gateway_v.Service.Reporting.Manager.{
  fail, retry, is_retry_due, retry_loop, process_timeouts, is_silent, collect_stale_candidates,
}
use zigbee_gateway_v.Service.Reporting.Loops.{
  retried, retry_loop-map, marked, silent_addrs, stale_loop-map, length-map,
}

double_delay_max : (rounds : ℕ) → 0 < rounds → double_delay rounds 4000 ≡ 8000
unfolding double_delay
double_delay_max zero h = absurd (omega arith)
double_delay_max (suc rounds) h = refl

delay_later : (n : ℕ) → double_delay (suc (suc (suc (suc n))) - 1) 1000 ≡ 8000
unfolding double_delay
delay_later n = ap (λ k. double_delay k 1000) pred
  where
    pred : suc (suc (suc (suc n))) - 1 ≡ suc (suc (suc n))
    pred = omega arith

backoff_later : (n : ℕ) → compute_backoff_ms (suc (suc (suc (suc n)))) ≡ 8000
unfolding compute_backoff_ms
backoff_later n = rw (delay_later n) (ground arith)

-- The delay before try `attempt` is one second, doubled for each try after the first, and eight
-- seconds at most.
pub compute_backoff_ms_lem :
    (attempt : ℕ)
    → 0 < attempt
    → compute_backoff_ms attempt ≡ (if ltb attempt 4 then 1000 * 2 ^ (attempt - 1) else 8000)
unfolding compute_backoff_ms double_delay
compute_backoff_ms_lem zero h = absurd (omega arith)
compute_backoff_ms_lem (suc zero) h = refl
compute_backoff_ms_lem (suc (suc zero)) h = refl
compute_backoff_ms_lem (suc (suc (suc zero))) h = refl
compute_backoff_ms_lem (suc (suc (suc (suc n)))) h = ground (arith, backoff_later n)

backoff-early : (n : ℕ) → n < 3 → compute_backoff_ms (n + 1) ≡ 1000 * 2 ^ n
backoff-early n h =
    let e : n + 1 - 1 ≡ n = omega arith in
    compute_backoff_ms_lem (n + 1) (omega arith) ∙ ground arith ∙ ap (λ k. 1000 * 2 ^ k) e

-- `count` failures one after the other, the k-th at the k-th time.
pub failures : RetryTarget → FailureReason → (ℕ → ℕ) → ℕ → Entry → Entry
failures target reason times zero e = e
failures target reason times (suc count) e =
    (fail target reason (times count) (failures target reason times count e)).0

-- The time of the try that waits.
abbrev pub next_try : Entry → Option ℕ
next_try e = if e.retry_pending then some e.next_retry_at_ms else Option.none

fail-again :
    (target : RetryTarget) (reason : FailureReason) (now_ms : ℕ) (e : Entry)
    → is_retryable_reason reason ≡ true
    → let e' = (fail target reason now_ms e).0 in
      (e'.state ≡ (if leb max_retry_attempts e.retry_attempt then State.degraded else e.state))
      × (e'.retry_attempt ≡ (
          if leb max_retry_attempts e.retry_attempt then e.retry_attempt else e.retry_attempt + 1))
      × (next_try e' ≡ (
          if leb max_retry_attempts e.retry_attempt
          then Option.none
          else some (u32 (now_ms + compute_backoff_ms (e.retry_attempt + 1)))))
unfolding fail
fail-again target reason now_ms e r = (ground arith, ground arith, ground arith)

module _ (target : RetryTarget) (reason : FailureReason) (times : ℕ → ℕ) (e : Entry)
    (again : is_retryable_reason reason ≡ true) (small : e.retry_attempt ≤ max_retry_attempts) where
  failures-attempt :
      (count : ℕ)
      → (failures target reason times count e).retry_attempt
        ≡ (if leb (e.retry_attempt + count) 3 then e.retry_attempt + count else 3)
  unfolding failures
  failures-attempt zero = ground arith
  failures-attempt (suc count) = ground (
    arith,
    failures-attempt count,
    (fail-again target reason (times count) (failures target reason times count e) again).1,
  )

  failures-state :
      (count : ℕ)
      → (failures target reason times count e).state
        ≡ (if leb (e.retry_attempt + count) 3 then e.state else State.degraded)
  unfolding failures
  failures-state zero = ground arith
  failures-state (suc count) = ground (
    arith,
    failures-attempt count,
    failures-state count,
    (fail-again target reason (times count) (failures target reason times count e) again).0,
  )

  -- After failures that can be tried again, in a row and without an event in between, of an
  -- entry with three tries or fewer: as long as they and the tries before are three at most,
  -- one more try waits for the time of the last failure and the delay, and the state is as
  -- before; after one failure more, no try waits and the device is degraded.
  pub failures_degrade :
      (count : ℕ)
      → let e' = failures target reason times (suc count) e in
        let tries = e.retry_attempt + count + 1 in
        (e'.state ≡ (if leb tries 3 then e.state else State.degraded))
        × (e'.retry_attempt ≡ (if leb tries 3 then tries else 3))
        × (next_try e' ≡ (
            if leb tries 3
            then some (u32 (times count + 1000 * 2 ^ (e.retry_attempt + count)))
            else Option.none))
  unfolding failures
  failures_degrade count = (
    ground (arith, failures-state (suc count)),
    ground (arith, failures-attempt (suc count)),
    last_try,
  )
    where
      e' : Entry
      e' = failures target reason times count e

      last_try : next_try (failures target reason times (suc count) e) ≡ (
          if leb (e.retry_attempt + count + 1) 3
          then some (u32 (times count + 1000 * 2 ^ (e.retry_attempt + count)))
          else Option.none)
      last_try = elim (Bool-cases (leb (e.retry_attempt + count + 1) 3)) [
        | inl h ↦
            let n = e.retry_attempt + count in
            let tried : e'.retry_attempt ≡ n = ground (arith, h, failures-attempt count) in
            rw h (
              (fail-again target reason (times count) e' again).2
              ∙ rw tried (
                  ground (
                    arith,
                    h,
                    ap (λ d. u32 (times count + d)) (backoff-early n (ground (arith, h))),
                  )))
        | inr h ↦ rw h (
            ground
              (arith, (fail-again target reason (times count) e' again).2, failures-attempt count))
      ]

retried-due : (now_ms : ℕ) (e : Entry) → is_retry_due now_ms (retried now_ms e) ≡ false
unfolding retry
retried-due now_ms e = ground arith

retry_loop-retried :
    (now_ms : ℕ) (es : List Entry) (actions : RuntimeActions)
    → retry_loop now_ms (map (retried now_ms) es) actions ≡ (map (retried now_ms) es, actions)
unfolding retry_loop
retry_loop-retried now_ms [] actions = refl
retry_loop-retried now_ms (e ∷ es) actions =
    rw (retried-due now_ms e, retry_loop-retried now_ms es actions) refl

-- `process_timeouts` changes each entry by itself: a retry that is due is taken off and brings the
-- device back to the step it is for, any other entry stays; and a second call at the same time
-- asks for nothing and changes nothing.
pub process_timeouts_again :
    (es : List Entry) (now_ms : ℕ)
    → let es' = (process_timeouts es now_ms).0 in
      (es' ≡ map (retried now_ms) es) × (process_timeouts es' now_ms ≡ (es', no_actions))
unfolding process_timeouts
process_timeouts_again es now_ms =
    rw (retry_loop-map now_ms es no_actions) (refl, retry_loop-retried now_ms es no_actions)

marked-silent :
    (now_ms window : ℕ) (e : Entry) → is_silent now_ms window (marked now_ms window e) ≡ false
marked-silent now_ms window e = ground arith

silent_addrs-marked :
    (now_ms window : ℕ) (es : List Entry)
    → (silent_addrs now_ms window (map (marked now_ms window) es) ≡ [])
      × (map (marked now_ms window) (map (marked now_ms window) es) ≡ map (marked now_ms window) es)
unfolding silent_addrs
silent_addrs-marked now_ms window [] = (refl, refl)
silent_addrs-marked now_ms window (e ∷ es) =
    let (none_left, same) = silent_addrs-marked now_ms window es in
    rw (marked-silent now_ms window e, none_left, same) (refl, refl)

-- A device that reports, has reported at a time other than 0, waits for no check of its silence,
-- and whose last report is the window or more ago: the time that has passed since the end of the
-- window is below 2³¹, as uint32_t.
pub record IsStale (now_ms window : ℕ) (e : Entry) : Type 0 where
  pub device : e.short_addr ≢ 0xffff
  pub reports : e.state ≡ State.reporting_active
  pub reported : e.last_report_at_ms ≢ 0
  pub unmarked : e.stale_pending ≡ false
  pub passed : sub_u32 now_ms ((e.last_report_at_ms + window) % 0x100000000) < 0x80000000

-- The table and the addresses after a collection, entry by entry.
pub data Collected (now_ms window : ℕ) : List Entry → List Entry × List ℕ → Type 0 where
  end : Collected now_ms window [] ([], [])
  stale :
      (e : Entry) (es es' : List Entry) (addrs : List ℕ)
      → IsStale now_ms window e
      → Collected now_ms window es (es', addrs)
      → Collected now_ms window
          (e ∷ es)
          (record e { stale_pending = true } ∷ es', e.short_addr ∷ addrs)
  other :
      (e : Entry) (es es' : List Entry) (addrs : List ℕ)
      → ¬ IsStale now_ms window e
      → Collected now_ms window es (es', addrs)
      → Collected now_ms window (e ∷ es) (e ∷ es', addrs)

is_active-reports : (s : State) → is_reporting_active s ≡ true → s ≡ State.reporting_active
is_active-reports State.reporting_active h = refl
is_active-reports _ h = cc

silent-IsStale :
    (now_ms window : ℕ) (e : Entry) → is_silent now_ms window e ≡ true → IsStale now_ms window e
silent-IsStale now_ms window e h = record {
  device = ground (arith, h);
  reports = is_active-reports e.state (ground (arith, h));
  reported = ground (arith, h);
  unmarked = ground (arith, h);
  passed = ground (arith, h);
}

IsStale-silent :
    (now_ms window : ℕ) (e : Entry) → IsStale now_ms window e → is_silent now_ms window e ≡ true
IsStale-silent now_ms window e s =
    ground (arith, s.device, s.reports, s.reported, s.unmarked, s.passed)

map-Collected :
    (now_ms window : ℕ) (es : List Entry)
    → Collected now_ms window es (map (marked now_ms window) es, silent_addrs now_ms window es)
unfolding silent_addrs
map-Collected now_ms window [] = end
map-Collected now_ms window (e ∷ es) = elim (Bool-cases (is_silent now_ms window e)) [
  | inl s ↦
      rw s (stale e es _ _ (silent-IsStale now_ms window e s) (map-Collected now_ms window es))
  | inr s ↦ rw s (
      other e es _ _ (λ k. cc (s, IsStale-silent now_ms window e k))
        (map-Collected now_ms window es))
]

-- With a silence window that is not 0 and 64 entries at most, `collect_stale_candidates` gives, in
-- the order of the table, the addresses of exactly the devices that report, have a last report at
-- a time other than 0 and the window or more ago (in uint32_t arithmetic), and are not marked yet;
-- it marks these, and changes nothing else; a second call at the same time gives none and changes
-- nothing.
pub collect_exact :
    (es : List Entry) (now_ms window : ℕ)
    → length es ≤ max_devices
    → window ≢ 0
    → let (es', addrs) = collect_stale_candidates es now_ms window in
      Collected now_ms window es (es', addrs)
      × (collect_stale_candidates es' now_ms window ≡ (es', []))
unfolding collect_stale_candidates
collect_exact es now_ms window small nonzero =
    let run : (window == 0) ≡ false = ground (arith, nonzero) in
    let again = silent_addrs-marked now_ms window es in
    rw
      (
        run,
        stale_loop-map now_ms window max_devices es small,
        stale_loop-map now_ms window max_devices (map (marked now_ms window) es)
            (subst (λ n. n ≤ max_devices) (sym (length-map (marked now_ms window) es)) small),
        again.0,
        again.1,
      )
      (map-Collected now_ms window es, refl)
