-- ===== src/Orderflow/Tape.antt =====
-- `Tape` of src/bybit_flow/orderflow.py: the bounded, deduplicated tape of executed trades.
pub mod State
pub mod Invariant
pub mod Room
pub mod Accept
pub mod Coverage
mod Tests
