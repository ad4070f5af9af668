-- ===== src/Orderflow/Book.antt =====
-- `Book` of src/bybit_flow/orderflow.py with the queue-change buckets that it feeds
-- (`l1_event` and `update_bucket` of src/bybit_flow/ofi.py).
pub mod Levels
pub mod Buckets
pub mod State
pub mod LevelLaws
pub mod BucketLaws
pub mod Body
pub mod Outcome
pub mod Bounds
mod Tests
