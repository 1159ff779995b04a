-- ===== src/Lib.antt =====
-- The Zigbee gateway's core and parts of its service layer. The gateway keeps a table of the
-- devices of its Zigbee network, changes it by events that a pure reducer handles, publishes the
-- new states to concurrent readers, and tracks the commands it sends to devices. Around this core,
-- managers keep the network addresses of the devices, the devices that are to be removed or ask to
-- join, queue commands and retry them, set up the reporting of devices, hold the results of requests
-- for their clients, and start up and read devices with a private protocol.
--
-- Parts, with paths from the repository's root:
--   Core/DeviceId: components/core/device_id.cpp. A DeviceId is a list of bytes; parse and format
--     give an Option in place of a flag and an out parameter.
--   Core/Events, Core/State: the types of components/core/include/core_events.hpp, core_effects.hpp,
--     core_errors.hpp and core_state.hpp. The bounded effect list is a list whose push drops an
--     effect beyond the bound, as the code does.
--   Core/Reducer: components/core/core_reducer.cpp. `core_reduce` takes the state and the event and
--     returns the new state and the effects. Lookup finds records and free slots, Apply and
--     Telemetry hold the helpers and the handling of a telemetry report. The proofs: Moves reduces
--     every event to a change of at most one slot, Invariant and Identity treat the table, Outcomes
--     and Effects the effects, Ranges and Isolation the values of a record and the records an
--     event may touch.
--   Core/Commands, Core/Dispatcher: components/core/core_command_dispatcher.cpp, and
--     components/core/include/core_commands.hpp. Dispatcher/Table reads the pending entries as a
--     map from correlation ids to commands, Dispatcher/Laws states the operations on this map.
--   Core/EventBus: components/core/core_event_bus.cpp. Handlers and contexts are values of any
--     types; `publish` is the list of the calls it makes.
--   Core/Registry: components/core/core_registry.cpp. Registry has the steps of a reader in
--     pin_current and release_snapshot and of the writer in publish, one access to an atomic
--     variable or one write to a slot each, sequentially consistent; Registry/Steps interleaves any
--     readers with one writer; Safety and Writing show what all interleavings keep. A held
--     snapshot carries the value that the reader saw, to compare it with the slot it points into.
--   Service/LocatorRegistry: components/service/device_locator_registry.cpp. The two parallel arrays
--     are one list of slots. Slots is about searches, Laws about the invariant, Lookups and Remap
--     about the maps from devices and from addresses after a new mapping, Removal after a removal.
--   Service/DeviceManager: components/service/device_manager.cpp. Deadlines and ForceRemove,
--     JoinCandidates with Eviction, and Leaving treat its two tables, Snapshot the report it
--     builds.
--   Service/Tuya: components/service/tuya_dp_parser.cpp and tuya_init_coordinator.cpp. DpParser is the
--     parser, DpFrames the frames that its comment describes. InitCoordinator is the start-up of
--     devices; Table is about its entries, Budget about the work it can still ask for, Settling
--     about ticks without answers, Acks about answers.
--   Service/Ring: the ring queues of components/service/command_manager.cpp and service_runtime.cpp;
--     Refine compares them with lists.
--   Service/Runtime: push_event, pop_event and try_route_tuya_init_result of
--     components/service/service_runtime.cpp, with the counters and the settings that the command
--     manager uses.
--   Service/CommandManager: components/service/command_manager.cpp, on top of Service/Runtime,
--     Service/Ring and Core/Dispatcher. Loops has the drains and the timeouts, Errors the refusals,
--     Drains the drain of the requests; Tracking, Invariant, Timeouts and States are about the
--     tracked commands.
--   Service/Reporting: components/service/reporting_manager.cpp. Entry has the entry of a device and
--     what an event does to it, Manager the operations on the table, Occupancy the filter of
--     occupancy reports. Table, Writes and Loops are about the table, Retries about repeated
--     failures and passes, Alternation about the events of the filter.
--   Service/ResultStore: components/service/operation_result_store.cpp. Queue has the bounded queues
--     that the code writes out for each kind of result, Lifecycle follows a result.
--   Service/OtaVersion: the versions of components/service/ota_manifest.cpp, with a C string as the list
--     of its bytes. Parsing is about reading a version, Order about the downgrade check.
--   Common: Boolean tests, lists over native numbers, searches in arrays of slots, fixed-width
--     integers.
-- Core/Tests, Core/PublishTests, Service/Tests, Service/StoreTests and Service/DeviceTests run the definitions and apply the theorems.
--
-- Conventions. A fixed array is a list, with an index out of bounds read as the default record. An
-- unsigned integer is a natural number, with `% 2 ^ w` where the code's arithmetic can leave its
-- type; int32_t, int16_t and int8_t are integers of `ℤ` with the casts written out. A null pointer
-- for an optional out parameter has no counterpart. A lock makes an operation one step. Loops over
-- arrays are recursion on the list, so no fuel is needed; the parser of frames recurses on the
-- room that is left for items, which is the code's own bound. The loops that drain the queues of
-- the command manager have one round more than the queue has elements as fuel, and nothing in them
-- appends to the queue. Counters of type size_t do not wrap. The runtime that an operation of the
-- command manager meets is an argument, as other tasks change it between the operations.
--
-- Not modelled: the managers for scans, networks, persistence, updates and configuration, the rest
-- of the OTA manifests, the plugins and fingerprints of Tuya devices, and the store of descriptors
-- of components/service; components/mqtt_bridge and components/matter_bridge; the rest of the
-- runtime, which composes the managers with FreeRTOS tasks, components/web_ui, components/app_hal
-- and main, which are input and output. resolve_profile_for_device of the reporting manager asks
-- the configuration and is left out with it. Weaker memory orders than sequential consistency are
-- not modelled either.
pub mod Common
pub mod Core
pub mod Service
