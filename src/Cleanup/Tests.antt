-- ===== src/Cleanup/Tests.antt =====
-- A run that releases an old segment and keeps one that a plan still needs.
use bybitflow.Prelude.{ℕ, ◌≡◌, refl, true, false, none, some, List, [], ◌∷◌, Memᴰ, max, ◌+◌, ◌*◌}
use bybitflow.Lifecycle.Signal.{alerted, is_terminal}
use bybitflow.Notifications.Visibility.{or_else}
use bybitflow.Leases.Table.{enter, heartbeat, insert_or_replace, conflicts}
use bybitflow.Cleanup.Protection.{
  Plan, Snapshot, Segment, Tables, protection_ranges, plan_ranges, snapshot_ranges, lease_ranges,
  active_evidence_start, progress,
}
use bybitflow.Cleanup.Classify.{
  no_ml_consumer, classify, classify_between, range_classes, class_of, classes_for,
  unprotected_class, label_class, labels_of, deletable, is_deletable_class, cleanup_priority,
  priority_of,
}
use bybitflow.Cleanup.Release.{
  Item, CleanupPlan, sound, Inputs, Run, done, is_lease, was_corrupt, is_releasable, lease_for,
  unlink, bury, verify_originals, release, recheck, under_lease, with_lease, planned, claimed, turn,
  release_items, release_priorities,
}
use bybitflow.Cleanup.Needs.{NeedsFrom, OutcomeFrom, IsLate}
use bybitflow.Cleanup.Consumers.{Apart, removed_after_use}
use bybitflow.Cleanup.Safety.{AllUnused, run_of, priorities-AllUnused}

-- Its tape is read up to 4,000,000, so that all before 3,100,000 is free.
abbrev running : Plan
running = record {
  state = alerted;
  created_ms = 2000000;
  expires_ms = 9000000;
  holding_deadline_ms = 0;
  cursor_event_ms = some 4000000;
  cursor_receipt_ms = some 4000100;
  last_monitor_ms = some 4000200;
  has_checked_trade = true;
}

abbrev tables : Tables
tables = record {
  signals = running ∷ [];
  snapshots = [];
  segments = [];
  boundary_ms = 0;
  storage_leases = [];
}

abbrev reading : Inputs
reading = record {
  claim_held = true;
  now = 5000000;
  tables = tables;
  is_pruned = false;
  owner = 1;
  lease_id = 9;
  originals = sound;
  claim_still_held = true;
  later = 5000001;
  later_leases = [];
}

abbrev item : ℕ → ℕ → ℕ → Item
item id start end = record {
  manifest = record { id = id; min_receipt_ms = some start; max_receipt_ms = some end };
  classes = no_ml_consumer ∷ [];
  bytes = 500;
}

abbrev items : List Item
items = item 1 1000000 1100000 ∷ item 2 3000000 3200000 ∷ []

abbrev cleanup : CleanupPlan
cleanup = record { cutoff_ms = 4500000; finalized_intervals = []; max_reclaim_bytes = none }

abbrev new_run : Run
new_run = record {
  freed_bytes = 0;
  deleted_segments = 0;
  skipped = 0;
  tombstones = [];
  removals = [];
}

-- The first segment is removed; the second one overlaps what the plan has not read yet.
one_is_released :
    (run_of (release_priorities cleanup 0 6 (λ p n. reading) items new_run)).tombstones ≡ 1 ∷ []
unfolding enter heartbeat insert_or_replace conflicts protection_ranges plan_ranges snapshot_ranges
    lease_ranges active_evidence_start progress classify classify_between range_classes class_of
    classes_for unprotected_class label_class labels_of deletable is_deletable_class
    cleanup_priority priority_of done is_lease was_corrupt is_releasable lease_for unlink bury
    verify_originals release recheck under_lease with_lease planned claimed turn release_items
    release_priorities
one_is_released = refl

priorities-AllUnused_example :
    AllUnused cleanup (run_of (release_priorities cleanup 0 6 (λ p n. reading) items new_run))
priorities-AllUnused_example = priorities-AllUnused cleanup 0 6 (λ p n. reading) items new_run tt

removed_after_use_example :
    ((p : Plan)
      → Memᴰ p tables.signals
      → is_terminal p.state ≡ false
      → (start : ℕ) × (NeedsFrom p 5000000 start
          × Apart
              (item 1 1000000 1100000).manifest
              start
              (max 5000000 (or_else p.holding_deadline_ms p.expires_ms))))
    × ((o : Snapshot)
        → Memᴰ o []
        → o.is_labelled ≡ false
        → ((start : ℕ) × (OutcomeFrom o start
              × Apart
                  (item 1 1000000 1100000).manifest
                  start
                  (max start (o.decision_ms + o.hold_minutes * 60000 + 60000))))
          × ((cursor : ℕ) (g : Segment)
              → IsLate tables o cursor g
              → Apart (item 1 1000000 1100000).manifest g.min_receipt_ms g.max_receipt_ms))
unfolding enter heartbeat insert_or_replace conflicts protection_ranges plan_ranges snapshot_ranges
    lease_ranges active_evidence_start progress classify classify_between range_classes class_of
    classes_for unprotected_class label_class labels_of deletable is_deletable_class
    cleanup_priority priority_of done is_lease was_corrupt is_releasable lease_for unlink bury
    verify_originals release recheck under_lease with_lease planned claimed turn release_items
    release_priorities
removed_after_use_example =
    removed_after_use cleanup 0 6 (λ p n. reading) items new_run (item 1 1000000 1100000) reading tt
      (Memᴰ.head refl)
