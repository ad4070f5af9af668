-- ===== src/Cleanup/Needs.antt =====
-- What a plan and an outcome still need of the tape, told without the functions of retention.py.
use bybitflow.Prelude.{
  ℕ, ◌-◌, ◌≤◌, ◌<◌, ◌≡◌, refl, sym, subst, ◌∙◌, max, min, Bool, true, false, ◌&&◌, Option, none,
  some, List, [], ◌∷◌, Memᴰ, arith, leb, ltb, if◌then◌else◌,
}
use bybitflow.Cleanup.Protection.{
  Plan, Snapshot, Segment, Interval, unresolved_outcome, Tables, progress, is_within,
  active_evidence_start, snapshot_start, late_segments, late_ranges,
}

-- The stored progress of a plan is consistent and lies between its creation and now.
pub record IsProgress (p : Plan) (now event receipt checked : ℕ) : Type 0 where
  pub stored_event : p.cursor_event_ms ≡ some event
  pub stored_receipt : p.cursor_receipt_ms ≡ some receipt
  pub stored_check : p.last_monitor_ms ≡ some checked
  pub event_within : (p.created_ms ≤ event) × (event ≤ now)
  pub receipt_within : (p.created_ms ≤ receipt) × (receipt ≤ now)
  pub check_within : (p.created_ms ≤ checked) × (checked ≤ now)
  pub check_after : (event ≤ checked) × (receipt ≤ checked)
  pub checked_trade : p.has_checked_trade ≡ true

-- A plan needs the tape from 15 minutes before its progress on, and without a consistent one from 15
-- minutes before its creation.
pub data NeedsFrom (p : Plan) (now start : ℕ) : Type 0 where
  from_progress :
      (event receipt checked : ℕ)
      → IsProgress p now event receipt checked
      → start ≡ min event receipt - 900000
      → NeedsFrom p now start
  from_creation :
      ((event receipt checked : ℕ) → ¬ IsProgress p now event receipt checked)
      → start ≡ p.created_ms - 900000
      → NeedsFrom p now start

-- An outcome needs the tape from 15 minutes before its decision on, and once it was read to a cursor
-- from 15 minutes before that.
pub data OutcomeFrom (o : Snapshot) (start : ℕ) : Type 0 where
  unread : o.cursor_ms ≡ none → start ≡ o.decision_ms - 900000 → OutcomeFrom o start
  read_to :
      (c : ℕ)
      → o.cursor_ms ≡ some c
      → start ≡ max (o.decision_ms - 900000) (c - 900000)
      → OutcomeFrom o start

pub active_evidence_start-NeedsFrom :
    (p : Plan) (now : ℕ) → NeedsFrom p now (active_evidence_start p now)
unfolding active_evidence_start progress
active_evidence_start-NeedsFrom p now =
    go p.cursor_event_ms p.cursor_receipt_ms p.last_monitor_ms refl refl refl
  where
    missing : {a : ℕ} → none ≡ some a → ⊥
    missing e = cc

    same : {a b : ℕ} → some a ≡ some b → a ≡ b
    same e = cc

    go :
        (x y z : Option ℕ)
        → p.cursor_event_ms ≡ x
        → p.cursor_receipt_ms ≡ y
        → p.last_monitor_ms ≡ z
        → NeedsFrom p now (progress p now x y z - 900000)
    go none y z e f g = from_creation (λ a b c h. missing (sym e ∙ h.stored_event)) refl
    go (some a) none z e f g = from_creation (λ a b c h. missing (sym f ∙ h.stored_receipt)) refl
    go (some a) (some b) none e f g =
        from_creation (λ a b c h. missing (sym g ∙ h.stored_check)) refl
    go (some a) (some b) (some c) e f g = by_test test refl
      where
        test : Bool
        test =
            (is_within p.created_ms now a
              && (is_within p.created_ms now b && is_within p.created_ms now c))
            && (leb (max a b) c && p.has_checked_trade)

        by_test :
            (t : Bool) → test ≡ t → NeedsFrom p now ((if t then min a b else p.created_ms) - 900000)
        by_test true h =
            from_progress a b c
              (record {
                stored_event = e;
                stored_receipt = f;
                stored_check = g;
                event_within = ground arith;
                receipt_within = ground arith;
                check_within = ground arith;
                check_after = ground arith;
                checked_trade = ground arith;
              })
              refl
        by_test false h = from_creation inconsistent refl
          where
            inconsistent : (x y z : ℕ) → ¬ IsProgress p now x y z
            inconsistent x y z i =
                at_values (same (sym e ∙ i.stored_event)) (same (sym f ∙ i.stored_receipt))
                  (same (sym g ∙ i.stored_check)) i.event_within i.receipt_within i.check_within
                  i.check_after i.checked_trade
              where
                at_values :
                    a ≡ x
                    → b ≡ y
                    → c ≡ z
                    → (p.created_ms ≤ x) × (x ≤ now)
                    → (p.created_ms ≤ y) × (y ≤ now)
                    → (p.created_ms ≤ z) × (z ≤ now)
                    → (x ≤ z) × (y ≤ z)
                    → p.has_checked_trade ≡ true
                    → ⊥
                at_values q r s j k l m n = ground arith

pub snapshot_start-OutcomeFrom : (o : Snapshot) → OutcomeFrom o (snapshot_start o o.cursor_ms)
snapshot_start-OutcomeFrom o = go o.cursor_ms refl
  where
    go : (x : Option ℕ) → o.cursor_ms ≡ x → OutcomeFrom o (snapshot_start o x)
    go none e = unread e refl
    go (some c) e = read_to c e refl

-- A segment that an outcome has not read: it was published after the frozen view, and it holds tape
-- from between 15 minutes before the decision and the cursor.
pub record IsLate (t : Tables) (o : Snapshot) (cursor : ℕ) (g : Segment) : Type 0 where
  pub stored : Memᴰ g t.segments
  pub at_cursor : o.cursor_ms ≡ some cursor
  pub published : t.boundary_ms < g.at_ms
  pub begins : g.min_receipt_ms ≤ cursor
  pub ends : o.decision_ms - 900000 ≤ g.max_receipt_ms

abbrev pub late_interval : Segment → Interval
late_interval g = record {
  first = g.min_receipt_ms;
  last = g.max_receipt_ms;
  purpose = unresolved_outcome;
}

late_segments-mem :
    (boundary cursor start : ℕ) (gs : List Segment) (g : Segment)
    → Memᴰ g gs
    → boundary < g.at_ms
    → g.min_receipt_ms ≤ cursor
    → start ≤ g.max_receipt_ms
    → Memᴰ (late_interval g) (late_segments boundary cursor start gs)
unfolding late_segments
late_segments-mem boundary cursor start [] g m a b c = elim m [ ]
late_segments-mem boundary cursor start (h ∷ gs) g (Memᴰ.head e) a b c =
    subst
      (λ (x : Segment). Memᴰ (late_interval g) (
        if ltb boundary x.at_ms && (leb x.min_receipt_ms cursor && leb start x.max_receipt_ms)
        then late_interval x ∷ late_segments boundary cursor start gs
        else late_segments boundary cursor start gs))
      e
      (own (ltb boundary g.at_ms && (leb g.min_receipt_ms cursor && leb start g.max_receipt_ms))
        (ground arith))
  where
    own :
        (t : Bool)
        → t ≡ true
        → Memᴰ (late_interval g) (
            if t
            then late_interval g ∷ late_segments boundary cursor start gs
            else late_segments boundary cursor start gs)
    own true k = Memᴰ.head refl
    own false k = cc
late_segments-mem boundary cursor start (h ∷ gs) g (Memᴰ.tail m) a b c =
    other (ltb boundary h.at_ms && (leb h.min_receipt_ms cursor && leb start h.max_receipt_ms))
      (late_segments-mem boundary cursor start gs g m a b c)
  where
    other :
        (t : Bool)
        → Memᴰ (late_interval g) (late_segments boundary cursor start gs)
        → Memᴰ (late_interval g) (
            if t
            then late_interval h ∷ late_segments boundary cursor start gs
            else late_segments boundary cursor start gs)
    other true k = Memᴰ.tail k
    other false k = k

pub late_ranges-mem :
    (t : Tables) (o : Snapshot) (cursor : ℕ) (g : Segment)
    → IsLate t o cursor g
    → Memᴰ (late_interval g) (late_ranges t o o.cursor_ms)
unfolding late_ranges
late_ranges-mem t o cursor g i =
    subst (λ x. Memᴰ (late_interval g) (late_ranges t o x)) (sym i.at_cursor)
      (late_segments-mem t.boundary_ms cursor (o.decision_ms - 900000) t.segments g i.stored
        i.published i.begins i.ends)
