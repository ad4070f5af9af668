-- ===== src/Migrations.antt =====
-- src/bybit_flow/migrations.py: the ordered registry of schema migrations and their receipts.
pub mod Registry
pub mod Receipts
pub mod Laws
pub mod Outcome
pub mod Rerun
mod Tests
