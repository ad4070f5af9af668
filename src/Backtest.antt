-- ===== src/Backtest.antt =====
-- src/bybit_flow/backtest.py: a paper position on the public trades.
pub mod Position
pub mod Outcome
pub mod Ledger
pub mod Fills
pub mod Books
pub mod Result
mod Tests
