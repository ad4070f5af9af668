-- ===== src/Supervision.antt =====
-- src/bybit_flow/supervision.py: a subsystem is restarted with a growing, bounded delay.
pub mod Restart
pub mod Backoff
mod Tests
