-- ===== src/Service.antt =====
-- components/service: the parts of the gateway's service layer.
pub mod LocatorRegistry
pub mod DeviceManager
pub mod Tuya
mod Tests
mod StoreTests
mod DeviceTests
pub mod ResultStore
pub mod Ring
pub mod Reporting
pub mod Runtime
pub mod CommandManager
pub mod OtaVersion
