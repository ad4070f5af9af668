-- ===== src/Packing.antt =====
-- src/bybit_flow/packing.py: the lossless packing of segment files.
pub mod Disk
pub mod Pack
pub mod Files
pub mod Stages
pub mod Commit
pub mod Lossless
mod Tests
