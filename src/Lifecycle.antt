-- ===== src/Lifecycle.antt =====
-- src/bybit_flow/lifecycle.py: monitoring of published plans on the executed path of their venue,
-- with the part of src/bybit_flow/models.py that it reads and writes.
pub mod Signal
pub mod Marks
pub mod Expiry
pub mod Trades
pub mod TradeLaws
pub mod Causality
pub mod Tick
pub mod TickLaws
pub mod Tests
