-- ===== src/Service/Runtime.antt =====
-- components/service/service_runtime.cpp: the event queue, the counters and the settings that the
-- managers use, and the route of an answer to the start-up of Tuya devices.
use zigbee_gateway_v.Common.{ℕ, ◌+◌, Bool, true, false, Option, ltb, if◌then◌else◌, u32}
use zigbee_gateway_v.Core.Events.{CoreEvent, no_event}
use zigbee_gateway_v.Core.Commands.{CoreCommandResult, is_success}
use zigbee_gateway_v.Service.Ring.{Ring, push, pop}
use zigbee_gateway_v.Service.Tuya.InitCoordinator.{
  TuyaInitCoordinator, correlation_id_base, notify_ack,
}

abbrev pub event_queue_capacity : ℕ
event_queue_capacity = 32

-- The counters of `RuntimeStatsStorage` that the command manager raises, and
-- `dropped_ingress_events_`; each wraps at 2³².
pub record RuntimeStats : Type 0 where
  pub dropped_ingress_events : ℕ
  pub dropped_events : ℕ
  pub command_retries : ℕ
  pub command_timeouts : ℕ

-- The fields of `ServiceRuntime` that the command manager uses, with the two settings of the
-- configuration that it reads.
pub record ServiceRuntime : Type 0 where
  pub event_queue : Ring CoreEvent
  pub stats : RuntimeStats
  pub tuya_init_coordinator : TuyaInitCoordinator
  pub max_command_retries : ℕ  -- uint8_t
  pub command_timeout_ms : ℕ  -- uint32_t

-- `fetch_add(1)`.
abbrev pub count_one : ℕ → ℕ
count_one n = u32 (n + 1)

abbrev pub drop_ingress : ServiceRuntime → ServiceRuntime
drop_ingress rt =
    let s = rt.stats in
    record rt { stats = record s { dropped_ingress_events = count_one s.dropped_ingress_events } }

abbrev pub drop_event : ServiceRuntime → ServiceRuntime
drop_event rt =
    let s = rt.stats in
    record rt { stats = record s { dropped_events = count_one s.dropped_events } }

abbrev pub count_retry : ServiceRuntime → ServiceRuntime
count_retry rt =
    let s = rt.stats in
    record rt { stats = record s { command_retries = count_one s.command_retries } }

abbrev pub count_timeout : ServiceRuntime → ServiceRuntime
count_timeout rt =
    let s = rt.stats in
    record rt { stats = record s { command_timeouts = count_one s.command_timeouts } }

unfoldable pub push_event : ServiceRuntime → CoreEvent → ServiceRuntime × Bool
push_event rt event =
    let (queue, done) = push event_queue_capacity rt.event_queue event in
    if done then (record rt { event_queue = queue }, true) else (drop_ingress rt, false)

unfoldable pub pop_event : ServiceRuntime → ServiceRuntime × Option CoreEvent
pop_event rt =
    let (queue, out) = pop event_queue_capacity no_event rt.event_queue in
    (record rt { event_queue = queue }, out)

unfoldable pub try_route_tuya_init_result :
    ServiceRuntime → CoreCommandResult → ServiceRuntime × Bool
try_route_tuya_init_result rt result =
    if ltb result.correlation_id correlation_id_base
    then (rt, false)
    else let (tuya, done) =
        notify_ack rt.tuya_init_coordinator result.correlation_id (is_success result.type) in
      (record rt { tuya_init_coordinator = tuya }, done)
