-- ===== src/Lib.antt =====
-- Verification of the core of bybitflow, an alerts-only research program for perpetual futures.
--
-- The program collects public trades and books, proposes plans (signals), follows each published
-- plan on the executed trades of its venue until it ends, and records all of it. Paths are from the
-- repository's root.
--
-- - Leases: src/bybit_flow/leases.py, the range leases that processes take before they replay or
--   clean up recordings. `heartbeat`, `enter`, `leave`, `overlaps`, `status` and `reap` act on a
--   table passed as a list of rows.
-- - Orderflow: src/bybit_flow/orderflow.py with src/bybit_flow/ofi.py. Orderflow/Tape is the class
--   Tape, Orderflow/Book the class Book with the second buckets of `update_bucket`.
-- - Lifecycle: src/bybit_flow/lifecycle.py and the part of src/bybit_flow/models.py that it uses.
--   Lifecycle/Signal holds the plan, Lifecycle/Marks and Lifecycle/Expiry `expiry_mark`,
--   Lifecycle/Trades `advance_trades` on the tape, Lifecycle/Tick the pass of `tick` over all active
--   plans.
-- - Reconciliation: src/bybit_flow/reconciliation.py, what becomes of a plan over a gap of its feed.
--   Reconciliation/Bars and Reconciliation/Advance are `advance` on closed one-minute bars,
--   Reconciliation/Pages and Reconciliation/Apply are `reconcile`, which writes its result to the
--   plan or lets the tape of Orderflow take over for the pass of Lifecycle/Tick.
-- - Metadata: `MetadataWriter` and `diagnostic_key` of src/bybit_flow/db_runtime.py, with
--   `Store.put` and `Store.get` of src/bybit_flow/storage.py in front of it (Metadata/Store). The
--   task `run` is cut at its two awaits into `wake` and `turn`, and a relation of steps interleaves
--   it with offers, `close` and `abort`.
-- - Migrations: src/bybit_flow/migrations.py, `registry` and `apply`.
-- - Recorder: `Recorder` of src/bybit_flow/storage.py, `offer` and the loop `run`, with the answers
--   of src/bybit_flow/recorder_worker.py.
-- - Signals: `Store.signal`, `Store.monitor` and `Store.active_signals` of
--   src/bybit_flow/storage.py, with `preserve` of src/bybit_flow/v2.py and of
--   src/bybit_flow/setup_freeze.py.
-- - Backtest: src/bybit_flow/backtest.py, `PaperPosition`. Backtest/Position is `on_trade`,
--   `on_funding` and `on_mark`, Backtest/Outcome the events and `outcome`.
-- - Packing: src/bybit_flow/packing.py. Packing/Disk is how a segment file is read, Packing/Pack
--   `_pack_verified`, cut where the process can stop.
-- - Cleanup: src/bybit_flow/retention.py and src/bybit_flow/recording_maintenance.py.
--   Cleanup/Protection is `protection_ranges`, Cleanup/Classify `classify`, and Cleanup/Release the
--   loop of `_execute` over the raw files, under the leases of Leases.
-- - Notifications: src/bybit_flow/notifications.py with src/bybit_flow/identity.py.
--   Notifications/Outbox is `Notifier.deliver`, cut into the transactions and the request of which
--   it consists, and Notifications/Interleaving any number of deliveries at once with crashes;
--   Notifications/Visibility holds `was_initially_delivered` and `initial_delivery_block`,
--   Notifications/Claims `claim`, Notifications/Initial `deliver_initial` and
--   Notifications/Terminals a turn of `retry_terminals`. Notifications/Conflicts is `assess` of
--   src/bybit_flow/notification_conflicts.py, with `causal` of src/bybit_flow/setup_common.py.
-- - Supervision: src/bybit_flow/supervision.py, `supervise`.
-- - Prelude: lists, tests and integers over the native numbers.
--
-- Conventions. Times are milliseconds, as natural numbers. Prices and quantities are counted in a
-- unit that divides those of the source; a quotient is kept as numerator and denominator, so that
-- the rounding of floats is not modelled. Texts that are only compared or stored are numbers. A
-- raised exception is a value, next to the state that it leaves. Clocks, settings, the candles of a
-- venue, the callbacks and checksums of migrations, the activity summary of a tape and the answers
-- of the database and of the worker are arguments. One definition runs on fuel, `deliver` of
-- Notifications/Outbox, for which eight steps are enough; every other loop goes over a list or counts
-- down attempts.
--
-- Not modelled: the statistics of a book (features, impact, value area), scoring, strategy and
-- quality rules, whose content is float heuristics; the sockets and HTTP clients of the venues; the
-- scanner's coordination of tasks; the texts of notifications; the web application; the machine
-- learning package; replay; the packs that cleanup repacks, and its inventories.
pub mod Prelude
pub mod Leases
pub mod Orderflow
pub mod Lifecycle
pub mod Reconciliation
pub mod Metadata
pub mod Migrations
pub mod Packing
pub mod Cleanup
pub mod Recorder
pub mod Signals
pub mod Supervision
pub mod Backtest
pub mod Notifications
