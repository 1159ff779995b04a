-- ===== src/Core/Reducer/Effects.antt =====
-- components/core/core_reducer.cpp: when a reduction counts as a change of state, and which effects
-- it hands out.
use zigbee_gateway_v.Common.{ℕ, Option, []}
use zigbee_gateway_v.Core.Events.{CoreEvent}
use zigbee_gateway_v.Core.State.{CoreState, CoreReduceResult}
use zigbee_gateway_v.Core.Reducer.Lookup.{find_device_index}

module _ (s : CoreState) where
  abbrev start : CoreReduceResult
  start = record { next = s; effects = [] }

  module _ (event : CoreEvent) where
    abbrev found : Option ℕ
    found = find_device_index s event.device_id event.device_short_addr
