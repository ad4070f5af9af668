-- ===== src/Leases/Exclusion.antt =====
-- Exclusive leases exclude: what every operation on the lease table keeps.
use bybitflow.Prelude.{
  ℕ, ◌+◌, ◌≤◌, ◌<◌, ◌⊎◌, ◌≡◌, ◌≢◌, Bool, true, false, not, ◌&&◌, Option, List, [], ◌∷◌, arith, ltb,
  leb, ◌==◌, select, All, All-mono, All-select, Bool-cases, inl, inr,
}
use bybitflow.Leases.Table.{
  Row, RangeLease, Beat, idle, blocked, beaten, beat_ms, is_exclusive, without, insert_or_replace,
  proposed, conflicts, written, heartbeat,
}

-- Both rows are live at `now` and their ranges share a point.
abbrev pub share : ℕ → Row → Row → Bool
share now a b =
    ltb now a.expires_ms
    && (ltb now b.expires_ms && (leb a.start_ms b.end_ms && leb b.start_ms a.end_ms))

-- Two rows may stand together: other ids, and if they share a point while live, both are readers.
abbrev pub Compatible : ℕ → Row → Row → Type 0
Compatible now a b =
    (a.id ≢ b.id)
    × (share now a b ≡ true → (is_exclusive a.reason ≡ false) × (is_exclusive b.reason ≡ false))

-- Every two rows of the table may stand together at `now`.
abbrev pub IsExclusive : ℕ → List Row → Type 0
IsExclusive now [] = Unit {0}
IsExclusive now (r ∷ db) = All (Compatible now r) db × IsExclusive now db

-- Rows only expire: what may stand together now may stand together later.
Compatible-later : (s t : ℕ) (a b : Row) → s ≤ t → Compatible s a b → Compatible t a b
Compatible-later s t a b h c = (c.0, λ e. c.1 (ground arith))

pub IsExclusive-later : (s t : ℕ) (db : List Row) → s ≤ t → IsExclusive s db → IsExclusive t db
IsExclusive-later s t [] h v = tt
IsExclusive-later s t (r ∷ db) h v = (
  All-mono (Compatible s r) (Compatible t r) (λ b. Compatible-later s t r b h) db v.0,
  IsExclusive-later s t db h v.1,
)

pub select-IsExclusive :
    (now : ℕ) (p : Row → Bool) (db : List Row) → IsExclusive now db → IsExclusive now (select p db)
select-IsExclusive now p [] v = tt
select-IsExclusive now p (r ∷ db) v =
    ground (arith, All-select (Compatible now r) p db v.0, select-IsExclusive now p db v.1)

-- A row that does not conflict lets the later rows' test through, and may stand beside the new one.
no_conflict-head :
    (now owner first : ℕ) (l : RangeLease) (r : Row) (db : List Row)
    → conflicts l.exclusive now first l.last l.id (r ∷ db) ≡ false
    → (conflicts l.exclusive now first l.last l.id db ≡ false)
      × ((r.id ≡ l.id) ⊎ Compatible now (written l owner now first) r)
unfolding conflicts
no_conflict-head now owner first l r db h = elim (Bool-cases (r.id == l.id)) [
  | inl same ↦ (ground arith, inl (ground arith))
  | inr other ↦ (ground arith, inr (ground arith, λ e. (ground arith, ground arith)))
]

-- With no conflicting row, the row that a heartbeat writes may stand with each that stays.
no_conflict-Compatible :
    (now owner first : ℕ) (l : RangeLease) (db : List Row)
    → conflicts l.exclusive now first l.last l.id db ≡ false
    → All (Compatible now (written l owner now first)) (without l.id db)
no_conflict-Compatible now owner first l [] h = tt
no_conflict-Compatible now owner first l (r ∷ db) h =
    let (later, one) = no_conflict-head now owner first l r db h in
    elim (Bool-cases (r.id == l.id)) [
      | inl same ↦ rw same (no_conflict-Compatible now owner first l db later)
      | inr other ↦ rw other (
        elim one [ inl e ↦ absurd (ground arith) | inr c ↦ c ],
        no_conflict-Compatible now owner first l db later,
      )
    ]

-- A heartbeat keeps the table exclusive, whether it is idle, blocked or written.
pub heartbeat-IsExclusive :
    (now owner : ℕ) (start : Option ℕ) (force : Bool) (l : RangeLease) (db : List Row)
    → IsExclusive now db
    → IsExclusive now (heartbeat now owner start force l db).2
unfolding heartbeat insert_or_replace
heartbeat-IsExclusive now owner start force l db v =
    elim (Bool-cases (not force && ltb now (l.last_beat + beat_ms))) [
      | inl early ↦ rw early v
      | inr due ↦
          rw due (elim (Bool-cases (conflicts l.exclusive now (proposed l start) l.last l.id db)) [
            | inl busy ↦ rw busy v
            | inr free ↦ rw free (
              no_conflict-Compatible now owner (proposed l start) l db free,
              select-IsExclusive now (λ r. not (r.id == l.id)) db v,
            )
          ])
    ]

-- What a heartbeat did to the object and the table, by its outcome.
abbrev pub BeatOutcome :
    ℕ → ℕ → Option ℕ → RangeLease → List Row → Beat × RangeLease × List Row → Type 0
BeatOutcome now owner start l db (idle, l', db') =
    (now < l.last_beat + beat_ms) × (l' ≡ l) × (db' ≡ db)
BeatOutcome now owner start l db (blocked, l', db') =
    (conflicts l.exclusive now (proposed l start) l.last l.id db ≡ true) × (l' ≡ l) × (db' ≡ db)
BeatOutcome now owner start l db (beaten, l', db') =
    (conflicts l.exclusive now (proposed l start) l.last l.id db ≡ false)
    × (l' ≡ record l { first = proposed l start; last_beat = now })
    × (db' ≡ written l owner now (proposed l start) ∷ without l.id db)

pub heartbeat-BeatOutcome :
    (now owner : ℕ) (start : Option ℕ) (force : Bool) (l : RangeLease) (db : List Row)
    → BeatOutcome now owner start l db (heartbeat now owner start force l db)
unfolding heartbeat insert_or_replace
heartbeat-BeatOutcome now owner start force l db = ground arith
