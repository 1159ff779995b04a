-- ===== src/Service/Tuya.antt =====
-- components/service, the files tuya_*: the private cluster of Tuya devices and their start-up.
pub mod DpParser
pub mod DpFrames
pub mod InitCoordinator
