-- ===== src/Orderflow.antt =====
-- src/bybit_flow/orderflow.py and the trade type of models.py: the tape of executed trades and the
-- visible order book of one symbol.
pub mod Types
pub mod Tape
pub mod Book
