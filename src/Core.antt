-- ===== src/Core.antt =====
-- components/core: device identity, events, the reducer, the command dispatcher, the event bus and
-- the snapshot registry.
pub mod DeviceId
pub mod Events
pub mod State
pub mod Reducer
pub mod Commands
pub mod Dispatcher
pub mod Registry
pub mod EventBus
mod Tests
mod PublishTests
