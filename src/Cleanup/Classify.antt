-- ===== src/Cleanup/Classify.antt =====
-- `classify`, `deletable` and `cleanup_priority` of src/bybit_flow/recording_maintenance.py. The
-- classes are in the order in which they are found, and may repeat.
use bybitflow.Prelude.{
  ℕ, min, Bool, true, false, ◌&&◌, Option, none, some, List, [], ◌∷◌, ◌++◌, leb, ltb, if◌then◌else◌,
  all, any, select,
}
use bybitflow.Cleanup.Protection.{Interval, Purpose, active_setup, unresolved_outcome, lease}

-- A segment; a receipt time that is no int is none.
pub record Manifest : Type 0 where
  pub id : ℕ
  pub min_receipt_ms : Option ℕ
  pub max_receipt_ms : Option ℕ

-- A row of the finalized outcomes: whether the label is complete, and whether its class is one of
-- "incomplete", "technical_duplicate" and "no_entry".
pub record Finalized : Type 0 where
  pub first : ℕ
  pub last : ℕ
  pub is_complete : Bool
  pub is_incomplete : Bool

pub data Class : Type 0 where
  unknown_fail_closed : Class
  protected_active_setup protected_unresolved_ml protected_replay_lease : Class
  protected_recent_floor : Class
  already_tombstoned corrupt_unrecoverable finalized_incomplete : Class
  complete_label_durable no_ml_consumer : Class

-- `startswith("DELETABLE_")`
unfoldable pub is_deletable_class : Class → Bool
is_deletable_class unknown_fail_closed = false
is_deletable_class protected_active_setup = false
is_deletable_class protected_unresolved_ml = false
is_deletable_class protected_replay_lease = false
is_deletable_class protected_recent_floor = false
is_deletable_class already_tombstoned = true
is_deletable_class corrupt_unrecoverable = true
is_deletable_class finalized_incomplete = true
is_deletable_class complete_label_durable = true
is_deletable_class no_ml_consumer = true

unfoldable pub deletable : List Class → Bool
deletable [] = false
deletable (c ∷ cs) = is_deletable_class c && all is_deletable_class cs

-- The place of a class in the order, or 6.
unfoldable pub priority_of : Class → ℕ
priority_of already_tombstoned = 0
priority_of corrupt_unrecoverable = 1
priority_of finalized_incomplete = 2
priority_of complete_label_durable = 3
priority_of no_ml_consumer = 4
priority_of unknown_fail_closed = 6
priority_of protected_active_setup = 6
priority_of protected_unresolved_ml = 6
priority_of protected_replay_lease = 6
priority_of protected_recent_floor = 6

unfoldable pub cleanup_priority : List Class → ℕ
cleanup_priority [] = 6
cleanup_priority (c ∷ cs) = let rest = cleanup_priority cs in min (priority_of c) rest

unfoldable pub class_of : Purpose → Class
class_of active_setup = protected_active_setup
class_of unresolved_outcome = protected_unresolved_ml
class_of lease = protected_replay_lease

abbrev pub covers : ℕ → ℕ → Interval → Bool
covers start end r = leb r.first end && leb start r.last

unfoldable pub range_classes : ℕ → ℕ → List Interval → List Class
range_classes start end [] = []
range_classes start end (r ∷ rs) =
    let rest = range_classes start end rs in
    if covers start end r then class_of r.purpose ∷ rest else rest

abbrev pub floor_class : ℕ → ℕ → List Class
floor_class end cutoff = if ltb cutoff end then protected_recent_floor ∷ [] else []

unfoldable pub labels_of : ℕ → ℕ → List Finalized → List Finalized
labels_of start end fs = select (λ (f : Finalized). leb f.first end && leb start f.last) fs

unfoldable pub label_class : List Finalized → Class
label_class [] = no_ml_consumer
label_class (f ∷ fs) =
    if any (λ (x : Finalized). x.is_complete) (f ∷ fs)
    then complete_label_durable
    else if all (λ (x : Finalized). x.is_incomplete) (f ∷ fs)
    then finalized_incomplete
    else unknown_fail_closed

-- Where no range and no floor protects the segment.
unfoldable pub unprotected_class : Bool → Bool → List Finalized → Class
unprotected_class pruned corrupt labels =
    if pruned
    then already_tombstoned
    else if corrupt
    then corrupt_unrecoverable
    else label_class labels

unfoldable pub classes_for : List Class → Class → List Class
classes_for [] c = c ∷ []
classes_for (r ∷ rs) c = r ∷ rs

unfoldable pub classify_between :
    Bool → Bool → ℕ → List Interval → List Finalized → Option ℕ → Option ℕ → List Class
classify_between pruned corrupt cutoff ranges finalized (some start) (some end) =
    if ltb end start
    then unknown_fail_closed ∷ []
    else classes_for (range_classes start end ranges ++ floor_class end cutoff)
        (unprotected_class pruned corrupt (labels_of start end finalized))
classify_between pruned corrupt cutoff ranges finalized (some start) none = unknown_fail_closed ∷ []
classify_between pruned corrupt cutoff ranges finalized none end = unknown_fail_closed ∷ []

-- `classify`; `pruned` is whether the segment has a tombstone.
unfoldable pub classify : Bool → Bool → ℕ → List Interval → List Finalized → Manifest → List Class
classify pruned corrupt cutoff ranges finalized m =
    classify_between pruned corrupt cutoff ranges finalized m.min_receipt_ms m.max_receipt_ms
