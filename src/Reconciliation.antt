-- ===== src/Reconciliation.antt =====
-- src/bybit_flow/reconciliation.py: what a plan did while its venue was not observed, from closed
-- one-minute bars.
pub mod Bars
pub mod Advance
pub mod Laws
pub mod Cursor
pub mod Pages
pub mod Apply
pub mod Resume
mod Tests
