-- ===== src/Reconciliation/Cursor.antt =====
-- How far `advance` reads: its cursor goes neither back nor past what it was asked for.
use bybitflow.Prelude.{
  ℕ, ◌≤◌, ◌≡◌, false, not, ◌||◌, List, [], ◌∷◌, arith, ◌==◌, min, max, Bool-cases, Option-cases,
  inl, inr,
}
use bybitflow.Lifecycle.Signal.{Signal}
use bybitflow.Reconciliation.Bars.{Candle, end_of, values, sort_bars}
use bybitflow.Reconciliation.Advance.{
  minute, limit_of, Progress, decides, passed, concluded, is_outside, scan, advance,
}

module _ (s : Signal) (cursor until limit : ℕ) where
  abbrev IsAhead : ℕ → Type 0
  IsAhead at = (cursor ≤ at) × (at ≤ max cursor (min until limit))

  end-IsAhead : (b : Candle) → is_outside cursor until limit b ≡ false → IsAhead (end_of b)
  end-IsAhead b o = (ground arith, ground arith)

  scan-IsAhead :
      (bs : List Candle) (p : Progress)
      → IsAhead p.cursor_ms
      → IsAhead (scan s cursor until limit bs p).cursor_ms
  unfolding scan concluded
  scan-IsAhead [] p h = h
  scan-IsAhead (b ∷ bs) p h = elim (Bool-cases (is_outside cursor until limit b)) [
    | inl o ↦ rw (o, scan) (scan-IsAhead bs p h)
    | inr o ↦ elim (Bool-cases (not (b.start == p.expected) || not (b.interval == minute))) [
      | inl g ↦ rw (o, g, scan) h
      | inr g ↦ elim (Option-cases (values b)) [
        | inl n ↦ rw (o, g, n, scan) h
        | inr (v, n) ↦ elim (Bool-cases (decides s v p)) [
          | inl d ↦ rw (o, g, n, d, scan) (end-IsAhead b o)
          | inr d ↦ rw (o, g, n, d, scan) (scan-IsAhead bs (passed s b v p) (end-IsAhead b o))
        ]
      ]
    ]
  ]

-- The cursor that `advance` reports never lies before the cursor it was given, and, unless it is
-- that cursor, not after `until` or the deadline of the plan.
pub advance_cursor :
    (s : Signal) (bars : List Candle) (cursor until : ℕ)
    → (cursor ≤ (advance s bars cursor until).cursor_ms)
      × ((advance s bars cursor until).cursor_ms ≤ max cursor (min until (limit_of s)))
unfolding advance
advance_cursor s bars cursor until =
    scan-IsAhead s cursor until (limit_of s) (sort_bars bars) _ (omega arith, omega arith)
