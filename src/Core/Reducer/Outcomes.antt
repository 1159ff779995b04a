-- ===== src/Core/Reducer/Outcomes.antt =====
-- components/core/core_reducer.cpp: what an event may leave behind, and the helpers that leave the fields alone that effects are about.
use zigbee_gateway_v.Common.{
  ℕ, ◌+◌, ◌≡◌, ◌⊎◌, ◌∙◌, refl, Bool, true, false, Option, none, some, List, [], ◌∷◌, ◌++◌, arith,
  or_false, u32,
}
use zigbee_gateway_v.Core.Events.{
  CoreEvent, CoreEventType, CoreTelemetryKind, CoreEffect, CoreEffectType, no_correlation_id,
  unknown_short_addr,
}
use zigbee_gateway_v.Core.State.{CoreState, CoreDeviceRecord, CoreReportingState, CoreReduceResult}
use zigbee_gateway_v.Core.Reducer.Telemetry.{
  update_telemetry, set_measured, note_report, reporting_state_eq,
}
use zigbee_gateway_v.Core.Reducer.Apply.{with_reporting_state, zigbee_effect}

-- Where `changed` stays false, the record is the same.
pub reporting_state_eq→eq : (a b : CoreReportingState) → reporting_state_eq a b ≡ true → a ≡ b
reporting_state_eq→eq a b h = ground arith

pub note_report_unchanged :
    (event : CoreEvent) (d : CoreDeviceRecord)
    → (note_report d event).1 ≡ false
    → (note_report d event).0 ≡ d
unfolding note_report
note_report_unchanged event d h = ground arith

pub set_measured_unchanged :
    (k : CoreTelemetryKind) (event : CoreEvent) (d : CoreDeviceRecord)
    → (set_measured k d event).1 ≡ false
    → (set_measured k d event).0 ≡ d
unfolding set_measured
set_measured_unchanged CoreTelemetryKind.none event d h = refl
set_measured_unchanged _ event d h = ground arith

pub update_telemetry_unchanged :
    (event : CoreEvent) (d : CoreDeviceRecord)
    → (update_telemetry d event).1 ≡ false
    → (update_telemetry d event).0 ≡ d
unfolding update_telemetry
update_telemetry_unchanged event d h =
    let parts =
      or_false (note_report d event).1
        (set_measured event.telemetry_kind (note_report d event).0 event).1 h in
    set_measured_unchanged event.telemetry_kind event (note_report d event).0 parts.1
    ∙ note_report_unchanged event d parts.0

pub with_reporting_state_unchanged :
    (d : CoreDeviceRecord) (r : CoreReportingState) (stale : Bool)
    → (with_reporting_state d r stale).1 ≡ false
    → (with_reporting_state d r stale).0 ≡ d
unfolding with_reporting_state
with_reporting_state_unchanged d r stale h = ground arith

-- A command request hands out its effect and changes nothing.
abbrev pub requests : CoreEventType → CoreEvent → List CoreEffect
requests CoreEventType.command_set_device_power_requested event =
    record {
      type = CoreEffectType.send_zigbee_on_off;
      correlation_id = event.correlation_id;
      device_short_addr = event.device_short_addr;
      arg_u32 = 0;
      arg_bool = event.value_bool;
    }
    ∷ []
requests CoreEventType.command_refresh_network_requested event =
    record {
      type = CoreEffectType.refresh_network;
      correlation_id = event.correlation_id;
      device_short_addr = unknown_short_addr;
      arg_u32 = 0;
      arg_bool = false;
    }
    ∷ []
requests _ event = []

-- The status and the success of a command result.
abbrev pub result_status : CoreEventType → Option (ℕ × Bool)
result_status CoreEventType.command_result_success = some (1, true)
result_status CoreEventType.command_result_timeout = some (2, false)
result_status CoreEventType.command_result_failed = some (3, false)
result_status _ = none

abbrev pub emits : CoreEvent → ℕ → Bool → List CoreEffect
emits event status success =
    record {
      type = CoreEffectType.emit_command_result;
      correlation_id = event.correlation_id;
      device_short_addr = event.device_short_addr;
      arg_u32 = status;
      arg_bool = success;
    }
    ∷ []

-- The state is to be stored and published as it now is, its own revision included.
abbrev pub persisted : CoreState → List CoreEffect
persisted t =
    record {
      type = CoreEffectType.persist_state;
      correlation_id = no_correlation_id;
      device_short_addr = unknown_short_addr;
      arg_u32 = t.revision;
      arg_bool = t.network_connected;
    }
    ∷ record {
      type = CoreEffectType.publish_telemetry;
      correlation_id = no_correlation_id;
      device_short_addr = unknown_short_addr;
      arg_u32 = t.device_count;
      arg_bool = t.network_connected;
    }
    ∷ []

-- The next step in the life of a device.
abbrev pub follow_up : CoreEventType → ℕ → List CoreEffect
follow_up CoreEventType.device_joined a = zigbee_effect CoreEffectType.zigbee_interview a ∷ []
follow_up CoreEventType.device_interview_completed a =
    zigbee_effect CoreEffectType.zigbee_bind a ∷ []
follow_up CoreEventType.device_binding_ready a =
    zigbee_effect CoreEffectType.zigbee_configure_reporting a ∷ []
follow_up CoreEventType.device_reporting_configured a =
    zigbee_effect CoreEffectType.zigbee_read_attributes a ∷ []
follow_up _ a = []

pub data Outcome (s : CoreState) (type : CoreEventType) (event : CoreEvent) (out : CoreReduceResult)
    : Type 0 where
  quiet : out.next ≡ s → out.effects ≡ requests type event → Outcome s type event out
  announced :
      out.next.revision ≡ u32 (s.revision + 1)
      → (out.effects ≡ persisted out.next)
        ⊎ (out.effects ≡ persisted out.next ++ follow_up type event.device_short_addr)
      → Outcome s type event out
  resulted :
      (status : ℕ) (success : Bool)
      → result_status type ≡ some (status, success)
      → out.next ≡ record s { revision = u32 (s.revision + 1); last_command_status = status }
      → out.effects ≡ emits event status success
      → Outcome s type event out

-- What a handler hands to `announce`: no effect yet, and a state that differs only if it says so.
pub record Handled (s : CoreState) (r : CoreReduceResult × Bool) : Type 0 where
  pub silent : r.0.effects ≡ []
  pub revision : r.0.next.revision ≡ s.revision
  pub honest : r.1 ≡ false → r.0.next ≡ s
