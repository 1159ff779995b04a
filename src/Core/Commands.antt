-- ===== src/Core/Commands.antt =====
-- components/core/include/core_commands.hpp and the pure helpers of
-- components/core/core_command_dispatcher.cpp.
use zigbee_gateway_v.Common.{ℕ, Bool, true, false}
use zigbee_gateway_v.Core.DeviceId.{DeviceId, no_id}
use zigbee_gateway_v.Core.Events.{
  CoreEvent, CoreEventType, no_event, no_correlation_id, unknown_short_addr,
}

pub data CoreCommandType : Type 0 where
  unknown set_device_power refresh_network update_reporting_profile : CoreCommandType

pub record CoreCommand : Type 0 where
  pub type : CoreCommandType
  pub correlation_id : ℕ  -- uint32_t
  pub device_id : DeviceId
  pub device_short_addr : ℕ  -- uint16_t
  pub desired_power_on : Bool
  pub issued_at_ms : ℕ  -- uint32_t
  pub reporting_endpoint : ℕ  -- uint8_t
  pub reporting_cluster_id : ℕ  -- uint16_t
  pub reporting_min_interval_seconds : ℕ  -- uint16_t
  pub reporting_max_interval_seconds : ℕ  -- uint16_t
  pub reporting_reportable_change : ℕ  -- uint32_t
  pub reporting_capability_flags : ℕ  -- uint8_t

-- `CoreCommand{}`.
abbrev pub no_command : CoreCommand
no_command = record {
  type = CoreCommandType.unknown;
  correlation_id = no_correlation_id;
  device_id = no_id;
  device_short_addr = unknown_short_addr;
  desired_power_on = false;
  issued_at_ms = 0;
  reporting_endpoint = 0;
  reporting_cluster_id = 0;
  reporting_min_interval_seconds = 0;
  reporting_max_interval_seconds = 0;
  reporting_reportable_change = 0;
  reporting_capability_flags = 0;
}

pub data CoreCommandResultType : Type 0 where
  success timeout failed : CoreCommandResultType

pub record CoreCommandResult : Type 0 where
  pub correlation_id : ℕ  -- uint32_t
  pub type : CoreCommandResultType
  pub completed_at_ms : ℕ  -- uint32_t

abbrev pub is_supported_command : CoreCommandType → Bool
is_supported_command CoreCommandType.set_device_power = true
is_supported_command CoreCommandType.refresh_network = true
is_supported_command _ = false

abbrev pub map_result_to_event : CoreCommandResultType → CoreEventType
map_result_to_event CoreCommandResultType.success = CoreEventType.command_result_success
map_result_to_event CoreCommandResultType.timeout = CoreEventType.command_result_timeout
map_result_to_event CoreCommandResultType.failed = CoreEventType.command_result_failed

abbrev pub is_success : CoreCommandResultType → Bool
is_success CoreCommandResultType.success = true
is_success _ = false

abbrev pub request_type : CoreCommandType → CoreEventType
request_type CoreCommandType.set_device_power = CoreEventType.command_set_device_power_requested
request_type CoreCommandType.refresh_network = CoreEventType.command_refresh_network_requested
request_type _ = CoreEventType.unknown

unfoldable pub command_to_event : CoreCommand → CoreEvent
command_to_event command = record no_event {
  type = request_type command.type;
  correlation_id = command.correlation_id;
  device_id = command.device_id;
  device_short_addr = command.device_short_addr;
  value_u32 = command.issued_at_ms;
  value_bool = command.desired_power_on;
}
