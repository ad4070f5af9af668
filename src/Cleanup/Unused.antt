-- ===== src/Cleanup/Unused.antt =====
-- A segment that is deletable by its classes, under its exclusive lease, has no reader left.
use bybitflow.Prelude.{
  ℕ, ◌≤◌, ◌≡◌, refl, sym, ap, ◌∙◌, Bool, true, false, ◌&&◌, ◌||◌, Option, none, some, List, [], ◌∷◌,
  ◌++◌, arith, ltb, if◌then◌else◌, select, any,
}
use bybitflow.Leases.Table.{
  Row, RangeLease, Beat, blocked, beaten, matches, conflicts, heartbeat, enter, is_exclusive,
}
use bybitflow.Cleanup.Protection.{Interval, Purpose, active_setup, unresolved_outcome, lease}
use bybitflow.Cleanup.Classify.{
  Manifest, Finalized, Class, unknown_fail_closed, protected_recent_floor, is_deletable_class,
  deletable, class_of, covers, range_classes, floor_class, unprotected_class, labels_of,
  classes_for, classify_between, classify,
}

module _ {ℓ} {A : Type ℓ} (p q : A → Bool) where
  pub any-select : (xs : List A) → any p (select q xs) ≡ any (λ x. q x && p x) xs
  any-select [] = refl
  any-select (x ∷ xs) = ground (arith, any-select xs)

-- The exclusive lease was entered, so no live lease of another shares a point with its range.
pub entered_alone :
    (now owner : ℕ) (l : RangeLease) (db : List Row)
    → l.exclusive ≡ true
    → (enter now owner l db).0 ≡ beaten
    → any (matches now l.first l.last l.id) db ≡ false
unfolding enter heartbeat conflicts
entered_alone now owner l db x e =
    sym (everything (matches now l.first l.last l.id) db)
    ∙ (ap
          (λ b.
            any (λ (r : Row). b || is_exclusive r.reason)
              (select (matches now l.first l.last l.id) db))
          (sym x)
        ∙ unblocked (conflicts l.exclusive now l.first l.last l.id db) _ e)
  where
    everything :
        (q : Row → Bool) (xs : List Row)
        → any (λ (r : Row). true || is_exclusive r.reason) (select q xs) ≡ any q xs
    everything q [] = refl
    everything q (r ∷ rs) = ground (arith, everything q rs)

    unblocked :
        (b : Bool) (v : Beat × RangeLease × List Row)
        → (if b then (blocked, l, db) else v).0 ≡ beaten
        → b ≡ false
    unblocked true v k = cc
    unblocked false v k = refl

class_of_protected : (p : Purpose) → is_deletable_class (class_of p) ≡ false
unfolding class_of is_deletable_class
class_of_protected active_setup = refl
class_of_protected unresolved_outcome = refl
class_of_protected lease = refl

module _ (start end cutoff : ℕ) (c : Class) where
  -- Where the classes are deletable, no range covers the segment and it ends before the floor.
  deletable_ranges :
      (rs : List Interval)
      → deletable (classes_for (range_classes start end rs ++ floor_class end cutoff) c) ≡ true
      → (any (covers start end) rs ≡ false) × (end ≤ cutoff)
  unfolding deletable classes_for range_classes is_deletable_class
  deletable_ranges [] h = go (ltb cutoff end) refl h
    where
      go :
          (b : Bool)
          → ltb cutoff end ≡ b
          → deletable (classes_for (if b then protected_recent_floor ∷ [] else []) c) ≡ true
          → (false ≡ false) × (end ≤ cutoff)
      go true e k = cc
      go false e k = (refl, within cutoff end e)
        where
          within : (x y : ℕ) → ltb x y ≡ false → y ≤ x
          within x y f = ground arith
  deletable_ranges (r ∷ rs) h = go (λ k. deletable_ranges rs k) (covers start end r) h
    where
      absurd : {A : Type 0} → false ≡ true → A
      absurd e = cc

      protected : (x y : Bool) → (x && y) ≡ true → x ≡ true
      protected true y e = refl
      protected false y e = cc

      go :
          (deletable (classes_for (range_classes start end rs ++ floor_class end cutoff) c) ≡ true
            → (any (covers start end) rs ≡ false) × (end ≤ cutoff))
          → (b : Bool)
          → deletable (
              classes_for
                ((if b
                    then class_of r.purpose ∷ range_classes start end rs
                    else range_classes start end rs)
                  ++ floor_class end cutoff)
                c)
            ≡ true
          → ((b || any (covers start end) rs) ≡ false) × (end ≤ cutoff)
      go ih true k = absurd (
          sym (class_of_protected r.purpose)
          ∙ protected (is_deletable_class (class_of r.purpose)) _ k)
      go ih false k = ih k

-- The segment has an interval which no range covers, and it ends at the floor or before.
pub data Uncovered (cutoff : ℕ) (ranges : List Interval) (m : Manifest) : Type 0 where
  uncovered :
      (start end : ℕ)
      → m.min_receipt_ms ≡ some start
      → m.max_receipt_ms ≡ some end
      → (start ≤ end) × (end ≤ cutoff)
      → any (covers start end) ranges ≡ false
      → Uncovered cutoff ranges m

pub deletable-Uncovered :
    (pruned corrupt : Bool) (cutoff : ℕ) (ranges : List Interval) (fs : List Finalized)
    (m : Manifest)
    → deletable (classify pruned corrupt cutoff ranges fs m) ≡ true
    → Uncovered cutoff ranges m
unfolding classify classify_between deletable is_deletable_class
deletable-Uncovered pruned corrupt cutoff ranges fs m h =
    go m.min_receipt_ms m.max_receipt_ms refl refl h
  where
    go :
        (x y : Option ℕ)
        → m.min_receipt_ms ≡ x
        → m.max_receipt_ms ≡ y
        → deletable (classify_between pruned corrupt cutoff ranges fs x y) ≡ true
        → Uncovered cutoff ranges m
    go none y e f k = cc
    go (some x) none e f k = cc
    go (some x) (some y) e f k = by_order (ltb y x) refl k
      where
        in_order : (a b : ℕ) → ltb b a ≡ false → a ≤ b
        in_order a b g = ground arith

        by_order :
            (b : Bool)
            → ltb y x ≡ b
            → deletable (
                if b
                then unknown_fail_closed ∷ []
                else classes_for
                    (range_classes x y ranges ++ floor_class y cutoff)
                    (unprotected_class pruned corrupt (labels_of x y fs)))
              ≡ true
            → Uncovered cutoff ranges m
        by_order true g j = cc
        by_order false g j =
            let t =
              deletable_ranges x y cutoff (unprotected_class pruned corrupt (labels_of x y fs))
                ranges j in
            uncovered x y e f (in_order x y g, t.1) t.0
