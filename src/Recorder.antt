-- ===== src/Recorder.antt =====
-- The recorder: `Recorder` of src/bybit_flow/storage.py with the worker of
-- src/bybit_flow/recorder_worker.py.
pub mod Queue
pub mod Writer
pub mod Envelope
pub mod Admission
pub mod Conservation
mod Tests
