-- ===== src/Cleanup/Safety.antt =====
-- A run of the cleanup removes only files that nothing uses.
use bybitflow.Prelude.{
  ℕ, zero, suc, ◌+◌, ◌≡◌, refl, sym, ap, ◌⊎◌, inl, inr, Bool, true, false, Option, none, some, List,
  [], ◌∷◌, ◌==◌, if◌then◌else◌, any, All,
}
use bybitflow.Leases.Table.{RangeLease, Beat, idle, blocked, beaten, matches, enter}
use bybitflow.Cleanup.Classify.{deletable, cleanup_priority}
use bybitflow.Cleanup.Release.{
  Item, CleanupPlan, Inputs, Run, Turn, next, stopped, failed, Done, proceed, full, lost, done,
  current_ranges, classes_now, is_releasable, lease_for, unlink, with_tombstone, last_beat, bury,
  verify_originals, release, recheck, under_lease, with_lease, planned, claimed, turn,
  release_items, release_priorities,
}
use bybitflow.Cleanup.Unused.{Uncovered, deletable-Uncovered, entered_alone}

-- At the check of the item no plan and no snapshot needs the segment, it ends at the floor or
-- before, no other live lease shares a point with it, and it has a tombstone, or its originals are
-- verified, or they are proven corrupt and nothing else makes it deletable.
pub record IsUnused (c : CleanupPlan) (x : Item) (i : Inputs) : Type 0 where
  pub free : Uncovered c.cutoff_ms (current_ranges i) x.manifest
  pub alone :
      (l : RangeLease) × ((lease_for i x.manifest.min_receipt_ms x.manifest.max_receipt_ms ≡ some l)
        × (any (matches i.now l.first l.last l.id) i.tables.storage_leases ≡ false))
  pub proven : (i.is_pruned ≡ true) ⊎ (is_releasable i.originals (classes_now c x i) ≡ true)

abbrev pub run_of : Turn → Run
run_of (next s) = s
run_of (stopped s) = s
run_of (failed s) = s

abbrev pub AllUnused : CleanupPlan → Run → Type 0
AllUnused c s = All (λ (p : Item × Inputs). IsUnused c p.0 p.1) s.removals

lease_for_exclusive :
    (i : Inputs) (a b : Option ℕ) (l : RangeLease) → lease_for i a b ≡ some l → l.exclusive ≡ true
unfolding lease_for
lease_for_exclusive i (some a) (some b) l e =
    sym (ap (λ (k : RangeLease). k.exclusive) (same_lease e))
  where
    same_lease : {k : RangeLease} → some k ≡ some l → k ≡ l
    same_lease f = cc
lease_for_exclusive i (some a) none l e = cc
lease_for_exclusive i none b l e = cc

module _ (c : CleanupPlan) (x : Item) (i : Inputs) where
  unlink-AllUnused :
      (b : Beat) (s : Run)
      → IsUnused c x i
      → AllUnused c s
      → AllUnused c (run_of (unlink c x i b s))
  unfolding unlink
  unlink-AllUnused idle s u h = h
  unlink-AllUnused blocked s u h = h
  unlink-AllUnused beaten s u h = (u, h)

  bury-AllUnused :
      (l : RangeLease) (d : Done) (s : Run)
      → IsUnused c x i
      → AllUnused c s
      → AllUnused c (run_of (bury c x i l d s))
  unfolding bury
  bury-AllUnused l proceed s u h = unlink-AllUnused (last_beat c x i l) (with_tombstone c x i s) u h
  bury-AllUnused l full s u h = h
  bury-AllUnused l lost s u h = h

  module _ (l : RangeLease)
      (e : lease_for i x.manifest.min_receipt_ms x.manifest.max_receipt_ms ≡ some l)
      (n : (enter i.now i.owner l i.tables.storage_leases).0 ≡ beaten)
      (d : deletable (classes_now c x i) ≡ true) where
    unused :
        (i.is_pruned ≡ true) ⊎ (is_releasable i.originals (classes_now c x i) ≡ true)
        → IsUnused c x i
    unused p = record {
      free =
          deletable-Uncovered i.is_pruned _ c.cutoff_ms (current_ranges i) c.finalized_intervals
            x.manifest d;
      alone = (
        l,
        (
          e,
          entered_alone i.now i.owner l i.tables.storage_leases
              (lease_for_exclusive i x.manifest.min_receipt_ms x.manifest.max_receipt_ms l e) n,
        ),
      );
      proven = p;
    }

    verify-AllUnused :
        (b : Bool) (s : Run)
        → is_releasable i.originals (classes_now c x i) ≡ b
        → AllUnused c s
        → AllUnused c (run_of (verify_originals c x i l b s))
    unfolding verify_originals
    verify-AllUnused true s f h =
        bury-AllUnused l (done c i.claim_still_held s) s (unused (inr f)) h
    verify-AllUnused false s f h = h

    release-AllUnused :
        (b : Bool) (s : Run)
        → i.is_pruned ≡ b
        → AllUnused c s
        → AllUnused c (run_of (release c x i l b s))
    unfolding release
    release-AllUnused true s f h = unlink-AllUnused (last_beat c x i l) s (unused (inl f)) h
    release-AllUnused false s f h =
        verify-AllUnused (is_releasable i.originals (classes_now c x i)) s refl h

  under_lease-AllUnused :
      (l : RangeLease) (b : Beat) (s : Run)
      → lease_for i x.manifest.min_receipt_ms x.manifest.max_receipt_ms ≡ some l
      → (enter i.now i.owner l i.tables.storage_leases).0 ≡ b
      → AllUnused c s
      → AllUnused c (run_of (under_lease c x i l b s))
  unfolding under_lease recheck
  under_lease-AllUnused l idle s e n h = h
  under_lease-AllUnused l blocked s e n h = h
  under_lease-AllUnused l beaten s e n h = go (deletable (classes_now c x i)) refl
    where
      go :
          (d : Bool)
          → deletable (classes_now c x i) ≡ d
          → AllUnused c (run_of (recheck c x i l d s))
      go true d = release-AllUnused l e n d i.is_pruned s refl h
      go false d = h

  claimed-AllUnused :
      (d : Done) (s : Run) → AllUnused c s → AllUnused c (run_of (claimed c x i d s))
  unfolding claimed planned with_lease
  claimed-AllUnused full s h = h
  claimed-AllUnused lost s h = h
  claimed-AllUnused proceed s h = by_plan (deletable x.classes)
    where
      by_lease :
          (o : Option RangeLease)
          → lease_for i x.manifest.min_receipt_ms x.manifest.max_receipt_ms ≡ o
          → AllUnused c (run_of (with_lease c x i o s))
      by_lease none e = h
      by_lease (some l) e =
          under_lease-AllUnused l (enter i.now i.owner l i.tables.storage_leases).0 s e refl h

      by_plan : (b : Bool) → AllUnused c (run_of (planned c x i b s))
      by_plan true = by_lease (lease_for i x.manifest.min_receipt_ms x.manifest.max_receipt_ms) refl
      by_plan false = h

  turn-AllUnused :
      (priority : ℕ) (s : Run) → AllUnused c s → AllUnused c (run_of (turn c x i priority s))
  unfolding turn
  turn-AllUnused priority s h = go (cleanup_priority x.classes == priority)
    where
      go :
          (b : Bool)
          → AllUnused c (run_of (if b then claimed c x i (done c i.claim_held s) s else next s))
      go true = claimed-AllUnused (done c i.claim_held s) s h
      go false = h

module _ (c : CleanupPlan) where
  items-AllUnused :
      (priority : ℕ) (inputs : ℕ → Inputs) (xs : List Item) (s : Run)
      → AllUnused c s
      → AllUnused c (run_of (release_items c priority inputs xs s))
  unfolding release_items
  items-AllUnused priority inputs [] s h = h
  items-AllUnused priority inputs (x ∷ xs) s h =
      go (λ t k. items-AllUnused priority (λ n. inputs (suc n)) xs t k)
        (turn c x (inputs zero) priority s) (turn-AllUnused c x (inputs zero) priority s h)
    where
      go :
          ((t : Run)
            → AllUnused c t
            → AllUnused c (run_of (release_items c priority (λ n. inputs (suc n)) xs t)))
          → (t : Turn) → AllUnused c (run_of t)
          → AllUnused c (
              run_of (elim t [
                | next r ↦ release_items c priority (λ n. inputs (suc n)) xs r
                | stopped r ↦ next r
                | failed r ↦ failed r
              ]))
      go ih (next r) k = ih r k
      go ih (stopped r) k = k
      go ih (failed r) k = k

  -- A run of the release loop, at whatever priorities, on whatever it reads from turn to turn, and
  -- whether it comes to its end, breaks or raises, removes the files of a segment only when at the
  -- check of that segment nothing uses it.
  pub priorities-AllUnused :
      (priority n : ℕ) (inputs : ℕ → ℕ → Inputs) (xs : List Item) (s : Run)
      → AllUnused c s
      → AllUnused c (run_of (release_priorities c priority n inputs xs s))
  unfolding release_priorities
  priorities-AllUnused priority zero inputs xs s h = h
  priorities-AllUnused priority (suc n) inputs xs s h =
      go (λ t k. priorities-AllUnused (priority + 1) n inputs xs t k)
        (release_items c priority (inputs priority) xs s)
        (items-AllUnused priority (inputs priority) xs s h)
    where
      go :
          ((t : Run)
            → AllUnused c t
            → AllUnused c (run_of (release_priorities c (priority + 1) n inputs xs t)))
          → (t : Turn) → AllUnused c (run_of t)
          → AllUnused c (
              run_of (elim t [
                | next r ↦ release_priorities c (priority + 1) n inputs xs r
                | stopped r ↦ next r
                | failed r ↦ failed r
              ]))
      go ih (next r) k = ih r k
      go ih (stopped r) k = k
      go ih (failed r) k = k
