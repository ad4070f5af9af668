-- ===== src/Leases.antt =====
-- src/bybit_flow/leases.py: renewable range leases over the table storage_leases, shared by
-- replay (readers) and storage maintenance (exclusive).
pub mod Table
pub mod Exclusion
pub mod Reaping
pub mod Trace
mod Tests
