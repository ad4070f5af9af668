-- ===== src/Reconciliation/Laws.antt =====
-- What `advance` concludes: an independent account of the bars that it reads.
use bybitflow.Prelude.{
  ℕ, ◌≤◌, ◌<◌, ◌≡◌, ◌≢◌, refl, ap, true, false, not, ◌||◌, ◌&&◌, Option, none, some, List, [], ◌∷◌,
  ◌++◌, arith, ltb, leb, ◌==◌, min, select, Bool-cases, Option-cases, inl, inr, ◌⊎◌,
}
use bybitflow.Lifecycle.Signal.{
  Signal, invalidated, resolved, expired, stop, target, expired_outcome, stop_in_downtime,
  target_in_downtime, deadline_in_downtime, is_legacy, is_some,
}
use bybitflow.Reconciliation.Bars.{Candle, Values, end_of, values, sort_bars}
use bybitflow.Reconciliation.Advance.{
  minute, minute_of, Result, limit_of, stop_in, target_in, Progress, entry_after, decides, decided,
  passed, concluded, is_outside, scan, advance,
}

-- The bars that are read.
abbrev pub inside : ℕ → ℕ → ℕ → List Candle → List Candle
inside cursor until limit = select (λ b. not (is_outside cursor until limit b))

-- `b` is the valid one-minute bar of the minute `at`, with the values `v`.
pub record IsBar (at : ℕ) (b : Candle) (v : Values) : Type 0 where
  pub starts : b.start ≡ at
  pub lasts : b.interval ≡ minute
  pub valid : values b ≡ some v

-- Bars of successive minutes on which nothing ends the plan: from the minute `at` with the entry
-- `e` to the minute `at'` with the entry `e'`.
pub data Quiet (s : Signal) : ℕ → Option ℕ → List Candle → ℕ → Option ℕ → Type 0 where
  still : {at : ℕ} {e : Option ℕ} → Quiet s at e [] at e
  bar :
      {at at' : ℕ} {e e' : Option ℕ} {b : Candle} {bs : List Candle} (v : Values)
      → IsBar at b v
      → stop_in s.direction s.stop v ≡ false
      → (target_in s.direction s.tp1 v && (is_some e && not (is_legacy s.horizon_profile))) ≡ false
      → Quiet s (end_of b) (entry_after s b v e) bs at' e'
      → Quiet s at e (b ∷ bs) at' e'

-- Why a bar is not read on: it is not the bar of its minute, or not a valid one.
pub data Broken (at : ℕ) (b : Candle) : Type 0 where
  wrong_start : b.start ≢ at → Broken at b
  wrong_interval : b.interval ≢ minute → Broken at b
  invalid : values b ≡ none → Broken at b

-- How far bars reach: to the end of the last one, and with no bar to `c`.
abbrev pub reach : ℕ → List Candle → ℕ
reach c [] = c
reach c (b ∷ bs) = reach (end_of b) bs

-- The result of the bars `bs` that are read, from the minute `at` and the entry `e` on, where the
-- bars before them were read to `c`.
pub data Course (s : Signal) (cursor until limit c at : ℕ) (e : Option ℕ) (bs : List Candle)
    (r : Result) : Type 0 where
  broken :
      (before after : List Candle) (b : Candle) (at' : ℕ) (e' : Option ℕ)
      → bs ≡ before ++ b ∷ after
      → Quiet s at e before at' e'
      → Broken at' b
      → r.ending ≡ none
      → r.coverage_complete ≡ false
      → is_some r.blocked ≡ true
      → Course s cursor until limit c at e bs r
  stopped :
      (before after : List Candle) (b : Candle) (v : Values) (at' : ℕ) (e' : Option ℕ)
      → bs ≡ before ++ b ∷ after
      → Quiet s at e before at' e'
      → IsBar at' b v
      → stop_in s.direction s.stop v ≡ true
      → r.ending
        ≡ some (record {
          state = invalidated;
          outcome = stop;
          effective_ms = end_of b;
          ambiguous = target_in s.direction s.tp1 v || ltb b.start cursor;
          reason = stop_in_downtime;
        })
      → Course s cursor until limit c at e bs r
  reached :
      (before after : List Candle) (b : Candle) (v : Values) (at' : ℕ) (e' : Option ℕ)
      → bs ≡ before ++ b ∷ after
      → Quiet s at e before at' e'
      → IsBar at' b v
      → stop_in s.direction s.stop v ≡ false
      → target_in s.direction s.tp1 v ≡ true
      → is_some e' ≡ true
      → is_legacy s.horizon_profile ≡ false
      → r.ending
        ≡ some (record {
          state = resolved;
          outcome = target;
          effective_ms = end_of b;
          ambiguous = ltb b.start cursor;
          reason = target_in_downtime;
        })
      → Course s cursor until limit c at e bs r
  lapsed :
      (at' : ℕ) (e' : Option ℕ)
      → Quiet s at e bs at' e'
      → minute_of (min until limit) ≤ reach c bs
      → limit ≤ until
      → r.cursor_ms ≡ reach c bs
      → r.ending
        ≡ some (record {
          state = expired;
          outcome = expired_outcome;
          effective_ms = limit;
          ambiguous = false;
          reason = deadline_in_downtime;
        })
      → Course s cursor until limit c at e bs r
  waits :
      (at' : ℕ) (e' : Option ℕ)
      → Quiet s at e bs at' e'
      → (reach c bs < minute_of (min until limit)) ⊎ (until < limit)
      → r.cursor_ms ≡ reach c bs
      → r.ending ≡ none
      → Course s cursor until limit c at e bs r

module _ (s : Signal) (cursor until limit : ℕ) where
  -- A quiet bar goes before the others.
  Course-cons :
      (c at : ℕ) (e : Option ℕ) (b : Candle) (bs : List Candle) (v : Values) (r : Result)
      → IsBar at b v
      → decides s v (record {
        entered = e;
        expected = at;
        last_close = none;
        cursor_ms = 0;
        observed_entry_ms = none;
      })
        ≡ false
      → Course s cursor until limit (end_of b) (end_of b) (entry_after s b v e) bs r
      → Course s cursor until limit c at e (b ∷ bs) r
  Course-cons c at e b bs v r i d k = go k
    where
      before :
          {bs' : List Candle} {at' : ℕ} {e' : Option ℕ}
          → Quiet s (end_of b) (entry_after s b v e) bs' at' e'
          → Quiet s at e (b ∷ bs') at' e'
      before q = bar v i (ground arith) (ground arith) q

      go :
          Course s cursor until limit (end_of b) (end_of b) (entry_after s b v e) bs r
          → Course s cursor until limit c at e (b ∷ bs) r
      go (broken xs ys x m f q w k j l o) =
          broken (b ∷ xs) ys x m f (ap (λ z. b ∷ z) q) (before w) k j l o
      go (stopped xs ys x u m f q w k j l) =
          stopped (b ∷ xs) ys x u m f (ap (λ z. b ∷ z) q) (before w) k j l
      go (reached xs ys x u m f q w k j l g h n) =
          reached (b ∷ xs) ys x u m f (ap (λ z. b ∷ z) q) (before w) k j l g h n
      go (lapsed m f w k j l n) = lapsed m f (before w) k j l n
      go (waits m f w k j l) = waits m f (before w) k j l

  concluded-Course :
      (p : Progress)
      → Course s cursor until limit p.cursor_ms p.expected p.entered [] (concluded s until limit p)
  unfolding concluded
  concluded-Course p =
      elim (Bool-cases (leb (minute_of (min until limit)) p.cursor_ms && leb limit until)) [
        | inl h ↦ rw h (lapsed p.expected p.entered still (ground arith) (ground arith) refl refl)
        | inr h ↦ rw h (waits p.expected p.entered still (ground arith) refl refl)
      ]

  decided-Course :
      (b : Candle) (bs : List Candle) (v : Values) (p : Progress)
      → IsBar p.expected b v
      → decides s v p ≡ true
      → Course s cursor until limit p.cursor_ms p.expected p.entered
          (b ∷ bs)
          (decided s cursor b v p)
  decided-Course b bs v p i d = elim (Bool-cases (stop_in s.direction s.stop v)) [
    | inl h ↦ stopped [] bs b v p.expected p.entered refl still i h (rw h refl)
    | inr h ↦
        reached [] bs b v p.expected p.entered refl still i h (ground arith) (ground arith)
          (ground arith) (rw h refl)
  ]

  scan-Course :
      (bs : List Candle) (p : Progress)
      → Course s cursor until limit p.cursor_ms p.expected p.entered
          (inside cursor until limit bs)
          (scan s cursor until limit bs p)
  unfolding scan
  scan-Course [] p = concluded-Course p
  scan-Course (b ∷ bs) p = elim (Bool-cases (is_outside cursor until limit b)) [
    | inl o ↦ rw (o, scan) (scan-Course bs p)
    | inr o ↦ elim (Bool-cases (not (b.start == p.expected) || not (b.interval == minute))) [
      | inl g ↦
          rw (o, g, scan)
            (broken [] (inside cursor until limit bs) b p.expected p.entered refl still
              (misplaced b p g) refl refl refl)
      | inr g ↦ elim (Option-cases (values b)) [
        | inl n ↦
            rw (o, g, n, scan)
              (broken [] (inside cursor until limit bs) b p.expected p.entered refl still
                (invalid n) refl refl refl)
        | inr (v, n) ↦ elim (Bool-cases (decides s v p)) [
          | inl d ↦
              rw (o, g, n, d, scan)
                (decided-Course b (inside cursor until limit bs) v p (placed b v p g n) d)
          | inr d ↦
              rw (o, g, n, d, scan)
                (Course-cons p.cursor_ms p.expected p.entered b (inside cursor until limit bs) v
                  (scan s cursor until limit bs (passed s b v p)) (placed b v p g n) d
                  (scan-Course bs (passed s b v p)))
        ]
      ]
    ]
  ]
    where
      misplaced :
          (b : Candle) (p : Progress)
          → (not (b.start == p.expected) || not (b.interval == minute)) ≡ true
          → Broken p.expected b
      misplaced b p g = elim (Bool-cases (b.start == p.expected)) [
        | inl x ↦ wrong_interval (ground arith)
        | inr x ↦ wrong_start (ground arith)
      ]

      placed :
          (b : Candle) (v : Values) (p : Progress)
          → (not (b.start == p.expected) || not (b.interval == minute)) ≡ false
          → values b ≡ some v
          → IsBar p.expected b v
      placed b v p g n = record { starts = ground arith; lasts = ground arith; valid = n }

-- Of the bars that end after the cursor and by `until` and the deadline, in the order of time, the
-- result reads valid bars of successive minutes from the minute of the cursor on, up to one that
-- ends the plan. A bar of another minute, of another length or with invalid prices leaves the plan
-- as it was, with the coverage not complete. A bar that touches the stop invalidates the plan, also
-- if it reaches the target; the target alone resolves it if an entry was seen before that bar and
-- the profile is not legacy; and it expires only after quiet bars that reach, from the cursor on, to the
-- last full minute by its deadline, with `until` at or after that deadline. In all other cases there is no ending.
pub advance-Course :
    (s : Signal) (bars : List Candle) (cursor until : ℕ)
    → Course s cursor until
        (limit_of s)
        cursor
        (minute_of cursor)
        s.evidence.observed_entry_ms
        (inside cursor until (limit_of s) (sort_bars bars))
        (advance s bars cursor until)
unfolding advance
advance-Course s bars cursor until = scan-Course s cursor until (limit_of s) (sort_bars bars) _
