-- ===== src/Metadata.antt =====
-- src/bybit_flow/db_runtime.py, the queue of diagnostic rows (`MetadataWriter`), and `Store.put` and
-- `Store.get` of src/bybit_flow/storage.py in front of it.
pub mod Keys
pub mod Dict
pub mod Writer
pub mod Store
pub mod Coherence
pub mod Victims
pub mod Offers
pub mod Places
pub mod Pump
pub mod Drain
mod Tests
