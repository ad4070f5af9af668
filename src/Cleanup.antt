-- ===== src/Cleanup.antt =====
-- src/bybit_flow/retention.py and src/bybit_flow/recording_maintenance.py: which raw recordings are
-- protected, and their release.
pub mod Protection
pub mod Classify
pub mod Release
pub mod Unused
pub mod Safety
pub mod Needs
pub mod Consumers
mod Tests
