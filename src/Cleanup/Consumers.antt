-- ===== src/Cleanup/Consumers.antt =====
-- What is released against what the plans and the outcomes still need.
use bybitflow.Prelude.{
  ℕ, ◌+◌, ◌*◌, ◌<◌, ◌≡◌, refl, sym, subst, ap, ◌∙◌, ◌⊎◌, inl, inr, max, Bool, true, false, not,
  ◌&&◌, some, List, [], ◌∷◌, ◌++◌, Memᴰ, arith, leb, if◌then◌else◌, any, All, Bool-cases,
  any_of_mem, mem-select,
}
use bybitflow.Lifecycle.Signal.{is_terminal}
use bybitflow.Notifications.Visibility.{or_else}
use bybitflow.Cleanup.Protection.{
  Plan, Snapshot, Segment, Interval, active_setup, unresolved_outcome, Tables,
  active_evidence_start, plan_ranges, snapshot_start, snapshot_ranges, late_ranges,
  protection_ranges,
}
use bybitflow.Cleanup.Needs.{
  NeedsFrom, OutcomeFrom, IsLate, late_interval, active_evidence_start-NeedsFrom,
  snapshot_start-OutcomeFrom, late_ranges-mem,
}
use bybitflow.Cleanup.Classify.{Manifest, covers}
use bybitflow.Cleanup.Release.{
  Item, CleanupPlan, Inputs, Run, is_lease, current_ranges, release_priorities,
}
use bybitflow.Cleanup.Unused.{Uncovered, uncovered}
use bybitflow.Cleanup.Safety.{IsUnused, AllUnused, run_of, priorities-AllUnused}

module _ {ℓ} {A : Type ℓ} where
  mem-append_left : {a : A} (xs ys : List A) → Memᴰ a xs → Memᴰ a (xs ++ ys)
  mem-append_left [] ys m = elim m [ ]
  mem-append_left (x ∷ xs) ys (Memᴰ.head e) = Memᴰ.head e
  mem-append_left (x ∷ xs) ys (Memᴰ.tail m) = Memᴰ.tail (mem-append_left xs ys m)

  mem-append_right : {a : A} (xs ys : List A) → Memᴰ a ys → Memᴰ a (xs ++ ys)
  mem-append_right [] ys m = m
  mem-append_right (x ∷ xs) ys m = Memᴰ.tail (mem-append_right xs ys m)

  none_of_mem : {a : A} (p : A → Bool) (xs : List A) → any p xs ≡ false → Memᴰ a xs → p a ≡ false
  none_of_mem {a} p xs h m = elim (Bool-cases (p a)) [
    | inl e ↦ clash (sym (any_of_mem p xs m e) ∙ h)
    | inr e ↦ e
  ]
    where
      clash : {B : Type 0} → true ≡ false → B
      clash k = cc

All-mem {ℓ} : {A : Type ℓ} (P : A → Type 0) (a : A) (xs : List A) → All P xs → Memᴰ a xs → P a
All-mem P a [] h m = elim m [ ]
All-mem P a (x ∷ xs) h (Memᴰ.head e) = subst P (sym e) h.0
All-mem P a (x ∷ xs) h (Memᴰ.tail m) = All-mem P a xs h.1 m

-- The interval that protects a plan, and that of an outcome.
abbrev plan_interval : ℕ → Plan → Interval
plan_interval now p = record {
  first = active_evidence_start p now;
  last = max now (or_else p.holding_deadline_ms p.expires_ms);
  purpose = active_setup;
}

abbrev pub outcome_interval : Snapshot → Interval
outcome_interval s = record {
  first = snapshot_start s s.cursor_ms;
  last = max (snapshot_start s s.cursor_ms) (s.decision_ms + s.hold_minutes * 60000 + 60000);
  purpose = unresolved_outcome;
}

plan_protected :
    (now : ℕ) (ps : List Plan) (p : Plan)
    → Memᴰ p ps
    → is_terminal p.state ≡ false
    → Memᴰ (plan_interval now p) (plan_ranges now ps)
unfolding plan_ranges
plan_protected now [] p m a = elim m [ ]
plan_protected now (q ∷ ps) p (Memᴰ.head e) a =
    subst
      (λ (x : Plan). Memᴰ (plan_interval now p) (
        if is_terminal x.state
        then plan_ranges now ps
        else plan_interval now x ∷ plan_ranges now ps))
      e (rw a (Memᴰ.head refl))
plan_protected now (q ∷ ps) p (Memᴰ.tail m) a =
    go (is_terminal q.state) (plan_protected now ps p m a)
  where
    go :
        (b : Bool)
        → Memᴰ (plan_interval now p) (plan_ranges now ps)
        → Memᴰ
            (plan_interval now p)
            (if b then plan_ranges now ps else plan_interval now q ∷ plan_ranges now ps)
    go true k = k
    go false k = Memᴰ.tail k

outcome_protected :
    (t : Tables) (ss : List Snapshot) (s : Snapshot) (r : Interval)
    → Memᴰ s ss
    → s.is_labelled ≡ false
    → Memᴰ r (outcome_interval s ∷ late_ranges t s s.cursor_ms)
    → Memᴰ r (snapshot_ranges t ss)
unfolding snapshot_ranges
outcome_protected t [] s r m a k = elim m [ ]
outcome_protected t (q ∷ ss) s r (Memᴰ.head e) a k =
    subst
      (λ (x : Snapshot). Memᴰ r (
        if x.is_labelled
        then snapshot_ranges t ss
        else (outcome_interval x ∷ late_ranges t x x.cursor_ms) ++ snapshot_ranges t ss))
      e (unlabelled s.is_labelled a)
  where
    unlabelled :
        (b : Bool)
        → b ≡ false
        → Memᴰ r (
            if b
            then snapshot_ranges t ss
            else (outcome_interval s ∷ late_ranges t s s.cursor_ms) ++ snapshot_ranges t ss)
    unlabelled true k = cc
    unlabelled false j =
        mem-append_left (outcome_interval s ∷ late_ranges t s s.cursor_ms) (snapshot_ranges t ss) k
outcome_protected t (q ∷ ss) s r (Memᴰ.tail m) a k =
    go q.is_labelled (outcome_protected t ss s r m a k)
  where
    go :
        (b : Bool)
        → Memᴰ r (snapshot_ranges t ss)
        → Memᴰ r (
            if b
            then snapshot_ranges t ss
            else (outcome_interval q ∷ late_ranges t q q.cursor_ms) ++ snapshot_ranges t ss)
    go true k = k
    go false k =
        mem-append_right (outcome_interval q ∷ late_ranges t q q.cursor_ms) (snapshot_ranges t ss) k

-- The segment ends before the interval or begins after it.
pub data Apart (m : Manifest) (first last : ℕ) : Type 0 where
  apart :
      (start end : ℕ)
      → m.min_receipt_ms ≡ some start
      → m.max_receipt_ms ≡ some end
      → (end < first) ⊎ (last < start)
      → Apart m first last

separate :
    (c : CleanupPlan) (x : Item) (i : Inputs) (r : Interval)
    → IsUnused c x i
    → is_lease r.purpose ≡ false
    → Memᴰ r (protection_ranges i.now i.tables)
    → Apart x.manifest r.first r.last
separate c x i r u e m = go u.free
  where
    disjoint : (start end a b : ℕ) → (leb a end && leb start b) ≡ false → (end < a) ⊎ (b < start)
    disjoint start end a b k = ground arith

    go : Uncovered c.cutoff_ms (current_ranges i) x.manifest → Apart x.manifest r.first r.last
    go (uncovered start end f g o k) = apart start end f g (
        disjoint start end r.first r.last (
          none_of_mem (covers start end) (current_ranges i) k (
            mem-select (λ (y : Interval). not (is_lease y.purpose))
              (protection_ranges i.now i.tables) m (ap not e))))

-- In whatever run of the release loop: a segment whose files were removed ends before, or begins
-- after, each of these: for a plan active at its check, the time from 15 minutes before its
-- consistent progress, else from 15 minutes before its creation, to the end of the plan; for an
-- outcome without a label at that check, the time from 15 minutes before its cursor, else its
-- decision, to the end of its horizon; and the time of each segment that was published after the
-- frozen view and that the outcome has yet to read.
pub removed_after_use :
    (c : CleanupPlan) (priority n : ℕ) (inputs : ℕ → ℕ → Inputs) (xs : List Item) (s : Run)
    (x : Item) (i : Inputs)
    → AllUnused c s
    → Memᴰ (x, i) (run_of (release_priorities c priority n inputs xs s)).removals
    → ((p : Plan)
        → Memᴰ p i.tables.signals
        → is_terminal p.state ≡ false
        → (start : ℕ) × (NeedsFrom p i.now start
            × Apart x.manifest start (max i.now (or_else p.holding_deadline_ms p.expires_ms))))
      × ((o : Snapshot)
          → Memᴰ o i.tables.snapshots
          → o.is_labelled ≡ false
          → ((start : ℕ) × (OutcomeFrom o start
                × Apart x.manifest start
                    (max start (o.decision_ms + o.hold_minutes * 60000 + 60000))))
            × ((cursor : ℕ) (g : Segment)
                → IsLate i.tables o cursor g
                → Apart x.manifest g.min_receipt_ms g.max_receipt_ms))
unfolding protection_ranges is_lease
removed_after_use c priority n inputs xs s x i h m = (
  λ p k a. (
    active_evidence_start p i.now,
    (
      active_evidence_start-NeedsFrom p i.now,
      separate c x i (plan_interval i.now p) u refl
          (mem-append_left _ _ (mem-append_left _ _ (plan_protected i.now i.tables.signals p k a))),
    ),
  ),
  λ o k a. (
    (
      snapshot_start o o.cursor_ms,
      (
        snapshot_start-OutcomeFrom o,
        separate c x i (outcome_interval o) u refl
            (of_outcome o (outcome_interval o) k a (Memᴰ.head refl)),
      ),
    ),
    λ cursor g l.
        separate c x i (late_interval g) u refl
          (of_outcome o (late_interval g) k a (Memᴰ.tail (late_ranges-mem i.tables o cursor g l))),
  ),
)
  where
    u : IsUnused c x i
    u =
        All-mem (λ (q : Item × Inputs). IsUnused c q.0 q.1) (x, i) _
          (priorities-AllUnused c priority n inputs xs s h) m

    of_outcome :
        (o : Snapshot) (r : Interval)
        → Memᴰ o i.tables.snapshots
        → o.is_labelled ≡ false
        → Memᴰ r (outcome_interval o ∷ late_ranges i.tables o o.cursor_ms)
        → Memᴰ r (protection_ranges i.now i.tables)
    of_outcome o r k a l = mem-append_left _ _ (
        mem-append_right (plan_ranges i.now i.tables.signals) _
          (outcome_protected i.tables i.tables.snapshots o r k a l))
