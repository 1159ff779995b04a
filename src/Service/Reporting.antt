-- ===== src/Service/Reporting.antt =====
-- components/service/reporting_manager.cpp: how far the reporting of each device is set up, its
-- retries, its silence, and the filter on its occupancy reports.
pub mod Entry
pub mod Manager
pub mod Occupancy
pub mod Table
pub mod Writes
pub mod Loops
pub mod Retries
pub mod Alternation
