-- ===== src/Cleanup/Release.antt =====
-- The release of raw files in `_execute` of src/bybit_flow/recording_maintenance.py: the loop over
-- the items of the plan for each priority. Left out are the packs and orphans of the plan, the
-- inventory of ML rows at the end, and a failure to unlink.
use bybitflow.Prelude.{
  ℕ, zero, suc, ◌+◌, Bool, true, false, not, Option, none, some, List, [], ◌∷◌, ◌==◌, leb,
  if◌then◌else◌, select,
}
use bybitflow.Leases.Table.{Row, RangeLease, Beat, idle, blocked, beaten, enter, heartbeat}
use bybitflow.Cleanup.Protection.{
  Interval, Purpose, active_setup, unresolved_outcome, lease, Tables, protection_ranges,
}
use bybitflow.Cleanup.Classify.{
  Manifest, Finalized, Class, corrupt_unrecoverable, deletable, cleanup_priority, classify,
}

-- An item of the plan: the classes that it had when the plan was made, and the bytes of its files.
pub record Item : Type 0 where
  pub manifest : Manifest
  pub classes : List Class
  pub bytes : ℕ

pub record CleanupPlan : Type 0 where
  pub cutoff_ms : ℕ
  pub finalized_intervals : List Finalized
  pub max_reclaim_bytes : Option ℕ

-- Whether the originals could be verified, or why not: a proven corruption or another cause.
pub data Originals : Type 0 where
  sound proven_corrupt unproven : Originals

-- What the turn of one item reads: at its start, whether `done` finds its claim and the ML rows;
-- at the check of the item the clock and the tables, and whether it has a tombstone; its lease's
-- id; the originals; `done` again; and the clock and the leases at the last heartbeat.
pub record Inputs : Type 0 where
  pub claim_held : Bool
  pub now : ℕ
  pub tables : Tables
  pub is_pruned : Bool
  pub owner : ℕ
  pub lease_id : ℕ
  pub originals : Originals
  pub claim_still_held : Bool
  pub later : ℕ
  pub later_leases : List Row

-- The state of a run, with the turns in which files were removed, which no code reads.
pub record Run : Type 0 where
  pub freed_bytes : ℕ
  pub deleted_segments : ℕ
  pub skipped : ℕ
  pub tombstones : List ℕ
  pub removals : List (Item × Inputs)

-- How a turn ends: the loop goes on, it breaks, or the run raises.
pub data Turn : Type 0 where
  next stopped failed : Run → Turn

pub data Done : Type 0 where
  proceed full lost : Done

abbrev pub is_full : Option ℕ → ℕ → Bool
is_full none freed = false
is_full (some maximum) freed = leb maximum freed

-- `done`, which raises where the claim or the ML rows are not as they were.
unfoldable pub done : CleanupPlan → Bool → Run → Done
done c false s = lost
done c true s = if is_full c.max_reclaim_bytes s.freed_bytes then full else proceed

abbrev pub skip : Run → Run
skip s = record s { skipped = s.skipped + 1 }

unfoldable pub is_lease : Purpose → Bool
is_lease active_setup = false
is_lease unresolved_outcome = false
is_lease lease = true

-- The ranges without those of leases, which the exclusive lease of the item stands for.
abbrev pub current_ranges : Inputs → List Interval
current_ranges i =
    select (λ (r : Interval). not (is_lease r.purpose)) (protection_ranges i.now i.tables)

unfoldable pub was_corrupt : List Class → Bool
was_corrupt [] = false
was_corrupt (corrupt_unrecoverable ∷ cs) = true
was_corrupt (c ∷ cs) = was_corrupt cs

unfoldable pub is_only_corrupt : List Class → Bool
is_only_corrupt [] = false
is_only_corrupt (corrupt_unrecoverable ∷ []) = true
is_only_corrupt (c ∷ cs) = false

abbrev pub classes_now : CleanupPlan → Item → Inputs → List Class
classes_now c x i =
    classify i.is_pruned (was_corrupt x.classes) c.cutoff_ms (current_ranges i)
      c.finalized_intervals x.manifest

unfoldable pub is_releasable : Originals → List Class → Bool
is_releasable sound cs = true
is_releasable proven_corrupt cs = is_only_corrupt cs
is_releasable unproven cs = false

unfoldable pub lease_for : Inputs → Option ℕ → Option ℕ → Option RangeLease
lease_for i (some start) (some end) = some (record {
  id = i.lease_id;
  first = start;
  last = end;
  reason = 0;
  exclusive = true;
  last_beat = 0;
})
lease_for i (some start) none = none
lease_for i none end = none

module _ (c : CleanupPlan) (x : Item) (i : Inputs) where
  -- The last heartbeat, and the files.
  unfoldable pub unlink : Beat → Run → Turn
  unlink idle s = next s
  unlink blocked s = next s
  unlink beaten s =
      next (record s { freed_bytes = s.freed_bytes + x.bytes; removals = (x, i) ∷ s.removals })

  abbrev pub with_tombstone : Run → Run
  with_tombstone s = record s {
    tombstones = x.manifest.id ∷ s.tombstones;
    deleted_segments = s.deleted_segments + 1;
  }

  abbrev pub last_beat : RangeLease → Beat
  last_beat l = (heartbeat i.later i.owner none true l i.later_leases).0

  unfoldable pub bury : RangeLease → Done → Run → Turn
  bury l proceed s = unlink (last_beat l) (with_tombstone s)
  bury l full s = stopped s
  bury l lost s = failed (skip s)

  unfoldable pub verify_originals : RangeLease → Bool → Run → Turn
  verify_originals l true s = bury l (done c i.claim_still_held s) s
  verify_originals l false s = next (skip s)

  unfoldable pub release : RangeLease → Bool → Run → Turn
  release l true s = unlink (last_beat l) s
  release l false s = verify_originals l (is_releasable i.originals (classes_now c x i)) s

  unfoldable pub recheck : RangeLease → Bool → Run → Turn
  recheck l true s = release l i.is_pruned s
  recheck l false s = next s

  unfoldable pub under_lease : RangeLease → Beat → Run → Turn
  under_lease l beaten s = recheck l (deletable (classes_now c x i)) s
  under_lease l idle s = next s
  under_lease l blocked s = next s

  unfoldable pub with_lease : Option RangeLease → Run → Turn
  with_lease none s = next (skip s)
  with_lease (some l) s = under_lease l (enter i.now i.owner l i.tables.storage_leases).0 s

  unfoldable pub planned : Bool → Run → Turn
  planned true s = with_lease (lease_for i x.manifest.min_receipt_ms x.manifest.max_receipt_ms) s
  planned false s = next s

  unfoldable pub claimed : Done → Run → Turn
  claimed proceed s = planned (deletable x.classes) s
  claimed full s = stopped s
  claimed lost s = failed s

  -- The turn of one item at one priority.
  unfoldable pub turn : ℕ → Run → Turn
  turn priority s =
      if cleanup_priority x.classes == priority then claimed (done c i.claim_held s) s else next s

-- The loop over the items, which are in the order of their last receipt. Each turn has its inputs.
unfoldable pub release_items : CleanupPlan → ℕ → (ℕ → Inputs) → List Item → Run → Turn
release_items c priority inputs [] s = next s
release_items c priority inputs (x ∷ xs) s = elim (turn c x (inputs zero) priority s) [
  | next t ↦ release_items c priority (λ n. inputs (suc n)) xs t
  | stopped t ↦ next t
  | failed t ↦ failed t
]

-- The loop over the priorities that are left.
unfoldable pub release_priorities : CleanupPlan → ℕ → ℕ → (ℕ → ℕ → Inputs) → List Item → Run → Turn
release_priorities c priority zero inputs xs s = next s
release_priorities c priority (suc n) inputs xs s =
    elim (release_items c priority (inputs priority) xs s) [
      | next t ↦ release_priorities c (priority + 1) n inputs xs t
      | stopped t ↦ next t
      | failed t ↦ failed t
    ]
