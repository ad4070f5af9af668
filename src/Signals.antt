-- ===== src/Signals.antt =====
-- `Store.signal`, `Store.monitor` and `Store.active_signals` of src/bybit_flow/storage.py, with
-- `preserve` of src/bybit_flow/v2.py and src/bybit_flow/setup_freeze.py.
pub mod Merge
pub mod Table
pub mod Terminal
pub mod Monitor
pub mod Freeze
mod Tests
