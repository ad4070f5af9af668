-- ===== src/Cleanup/Protection.antt =====
-- `active_evidence_start` and `protection_ranges` of src/bybit_flow/retention.py. A start before
-- the year 1970 is 0 here.
use bybitflow.Prelude.{
  ℕ, ◌+◌, ◌-◌, ◌*◌, max, min, Bool, ◌&&◌, Option, none, some, List, [], ◌∷◌, ◌++◌, leb, ltb,
  if◌then◌else◌,
}
use bybitflow.Lifecycle.Signal.{State, is_terminal}
use bybitflow.Notifications.Visibility.{or_else}
use bybitflow.Leases.Table.{Row}

-- What protection reads of a stored plan; a cursor that is no int is none.
pub record Plan : Type 0 where
  pub state : State
  pub created_ms : ℕ
  pub expires_ms : ℕ
  pub holding_deadline_ms : ℕ
  pub cursor_event_ms : Option ℕ
  pub cursor_receipt_ms : Option ℕ
  pub last_monitor_ms : Option ℕ
  pub has_checked_trade : Bool

-- A decision snapshot; `cursor_ms` is what `consumed_cursor` answers for it.
pub record Snapshot : Type 0 where
  pub decision_ms : ℕ
  pub hold_minutes : ℕ
  pub is_labelled : Bool
  pub cursor_ms : Option ℕ

pub record Segment : Type 0 where
  pub at_ms : ℕ
  pub min_receipt_ms : ℕ
  pub max_receipt_ms : ℕ

pub data Purpose : Type 0 where
  active_setup unresolved_outcome lease : Purpose

pub record Interval : Type 0 where
  pub first : ℕ
  pub last : ℕ
  pub purpose : Purpose

-- The tables at one instant; `boundary_ms` is `verified_boundary_ms`.
pub record Tables : Type 0 where
  pub signals : List Plan
  pub snapshots : List Snapshot
  pub segments : List Segment
  pub boundary_ms : ℕ
  pub storage_leases : List Row

abbrev pub overlap_ms : ℕ
overlap_ms = 900000

abbrev pub is_within : ℕ → ℕ → ℕ → Bool
is_within origin now x = leb origin x && leb x now

-- The progress is consistent and lies between the creation and now.
unfoldable pub progress : Plan → ℕ → Option ℕ → Option ℕ → Option ℕ → ℕ
progress p now (some event) (some receipt) (some checked) =
    if (is_within p.created_ms now event
        && (is_within p.created_ms now receipt && is_within p.created_ms now checked))
      && (leb (max event receipt) checked && p.has_checked_trade)
    then min event receipt
    else p.created_ms
progress p now (some event) (some receipt) none = p.created_ms
progress p now (some event) none checked = p.created_ms
progress p now none receipt checked = p.created_ms

unfoldable pub active_evidence_start : Plan → ℕ → ℕ
active_evidence_start p now =
    progress p now p.cursor_event_ms p.cursor_receipt_ms p.last_monitor_ms - overlap_ms

unfoldable pub plan_ranges : ℕ → List Plan → List Interval
plan_ranges now [] = []
plan_ranges now (p ∷ ps) =
    let rest = plan_ranges now ps in
    if is_terminal p.state
    then rest
    else (record {
      first = active_evidence_start p now;
      last = max now (or_else p.holding_deadline_ms p.expires_ms);
      purpose = active_setup;
    })
      ∷ rest

abbrev pub snapshot_start : Snapshot → Option ℕ → ℕ
snapshot_start s none = s.decision_ms - overlap_ms
snapshot_start s (some cursor) = max (s.decision_ms - overlap_ms) (cursor - overlap_ms)

-- The segments that were published after the frozen view of the checkpoint.
unfoldable pub late_segments : ℕ → ℕ → ℕ → List Segment → List Interval
late_segments boundary cursor start [] = []
late_segments boundary cursor start (g ∷ gs) =
    let rest = late_segments boundary cursor start gs in
    if ltb boundary g.at_ms && (leb g.min_receipt_ms cursor && leb start g.max_receipt_ms)
    then (record {
      first = g.min_receipt_ms;
      last = g.max_receipt_ms;
      purpose = unresolved_outcome;
    })
      ∷ rest
    else rest

unfoldable pub late_ranges : Tables → Snapshot → Option ℕ → List Interval
late_ranges t s none = []
late_ranges t s (some cursor) =
    late_segments t.boundary_ms cursor (s.decision_ms - overlap_ms) t.segments

unfoldable pub snapshot_ranges : Tables → List Snapshot → List Interval
snapshot_ranges t [] = []
snapshot_ranges t (s ∷ ss) =
    let rest = snapshot_ranges t ss in
    if s.is_labelled
    then rest
    else ((record {
      first = snapshot_start s s.cursor_ms;
      last = max (snapshot_start s s.cursor_ms) (s.decision_ms + s.hold_minutes * 60000 + 60000);
      purpose = unresolved_outcome;
    })
        ∷ late_ranges t s s.cursor_ms)
      ++ rest

unfoldable pub lease_ranges : ℕ → List Row → List Interval
lease_ranges now [] = []
lease_ranges now (r ∷ rs) =
    let rest = lease_ranges now rs in
    if ltb now r.expires_ms
    then (record { first = r.start_ms; last = r.end_ms; purpose = lease }) ∷ rest
    else rest

-- `protection_ranges`
unfoldable pub protection_ranges : ℕ → Tables → List Interval
protection_ranges now t =
    (plan_ranges now t.signals ++ snapshot_ranges t t.snapshots)
    ++ lease_ranges now t.storage_leases
