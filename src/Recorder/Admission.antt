-- ===== src/Recorder/Admission.antt =====
-- What `offer` admits, and how the bytes in the recorder are accounted for.
use bybitflow.Prelude.{
  ℕ, zero, suc, ◌+◌, ◌-◌, ◌≤◌, ◌≡◌, refl, Bool, true, false, not, ◌&&◌, ◌||◌, none, some, List, [],
  ◌∷◌, ◌++◌, arith, leb, ◌==◌, length, take, drop, length-append, Bool-cases, Option-cases, inl,
  inr,
}
use bybitflow.Recorder.Queue.{
  Row, size, total, Gap, Settings, Recorder, is_pressed, with_gap, extend_gap, admission, envelope,
  enqueued, overflowed, Offered, admitted, refused, overflow, is_full, put_row, offer,
}
use bybitflow.Recorder.Writer.{
  Loop, Write, acknowledged, committed_unheard, failed, fill, gap_rows, last_times, with_gaps,
  flushed, retried, write, round,
}
use bybitflow.Recorder.Envelope.{Content, IsRowOf, envelope-IsRowOf}

-- The bytes that count as pending are those of the batch and the queue, both within their bounds.
-- Those of the batch are the bytes of its rows; once it has an id, and with it the rows of the gaps,
-- which are not counted, they are at most that.
pub record IsAccounted (c : Settings) (w : Loop) : Type 0 where
  pub pending : w.recorder.pending_bytes ≡ w.batch_bytes + total w.recorder.queue
  pub within : w.recorder.pending_bytes ≤ c.queue_byte_limit
  pub batch : w.batch_id ≡ none → w.batch_bytes ≡ total w.batch
  pub kept_batch : w.batch_bytes ≤ total w.batch
  pub short : length w.recorder.queue ≤ c.queue_size

pub total-append : (xs ys : List Row) → total (xs ++ ys) ≡ total xs + total ys
total-append [] ys = omega arith
total-append (x ∷ xs) ys = omega (arith, total-append xs ys)

total_split : (n : ℕ) (xs : List Row) → total (take n xs) + total (drop n xs) ≡ total xs
total_split zero xs = omega arith
total_split (suc n) [] = omega arith
total_split (suc n) (x ∷ xs) = omega (arith, total_split n xs)

shorter : (n : ℕ) (xs : List Row) → length (drop n xs) ≤ length xs
shorter zero xs = omega arith
shorter (suc n) [] = omega arith
shorter (suc n) (x ∷ xs) = omega (arith, shorter n xs)

-- How many events all gaps count.
abbrev pub dropped : List Gap → ℕ
dropped [] = 0
dropped (g ∷ gs) = g.dropped_events + dropped gs

extend_gap_dropped : (v s at : ℕ) (gs : List Gap) → dropped (extend_gap v s at gs) ≡ dropped gs + 1
unfolding extend_gap
extend_gap_dropped v s at [] = omega arith
extend_gap_dropped v s at (g ∷ gs) = elim (Bool-cases ((g.venue == v) && (g.symbol == s))) [
  | inl e ↦ rw (extend_gap, e) (omega arith)
  | inr e ↦ rw (extend_gap, e) (omega (arith, extend_gap_dropped v s at gs))
]

-- What an offer does with a row in a recorder.
pub data Outcome (c : Settings) (critical : Bool) (o : Content) (r : Recorder)
    : Offered × Recorder → Type 0 where
  taken :
      (row : Row) (x : Recorder)
      → x.queue ≡ r.queue ++ row ∷ []
      → IsRowOf o row
      → x.last_offered_receipt_ms ≡ some row.receipt_ms
      → x.pending_bytes ≡ r.pending_bytes + size row
      → x.pending_bytes ≤ c.queue_byte_limit
      → length x.queue ≤ c.queue_size
      → x.gaps ≡ r.gaps
      → x.healthy ≡ r.healthy
      → Outcome c critical o r (admitted, x)
  shed :
      (x : Recorder)
      → critical ≡ false
      → is_pressed c 7 r ≡ true
      → x.queue ≡ r.queue
      → x.pending_bytes ≡ r.pending_bytes
      → dropped x.gaps ≡ dropped r.gaps + 1
      → x.events_dropped ≡ r.events_dropped + 1
      → x.healthy ≡ r.healthy
      → Outcome c critical o r (refused, x)
  overflows :
      (x : Recorder)
      → x.queue ≡ r.queue
      → x.pending_bytes ≡ r.pending_bytes
      → dropped x.gaps ≡ dropped r.gaps + 1
      → x.events_dropped ≡ r.events_dropped + 1
      → x.healthy ≡ false
      → Outcome c critical o r (overflow, x)

module _ (c : Settings) (critical : ℕ → Bool) (r : Recorder) where
  put_row-Outcome :
      (k : Bool) (row : Row) (o : Content)
      → IsRowOf o row
      → Outcome c k o r (put_row c row o.observed r)
  unfolding put_row enqueued overflowed with_gap
  put_row-Outcome k row o i = elim (Bool-cases (is_full c row r)) [
    | inl e ↦
        rw (put_row, e)
          (overflows _ refl refl
            (extend_gap_dropped row.source.venue row.symbol row.receipt_ms r.gaps) refl refl)
    | inr e ↦
        rw (put_row, e)
          (taken row _ refl i refl refl (ground arith)
            (rw (length-append r.queue (row ∷ [])) (ground arith)) refl refl)
  ]

  -- An offer has one of three ends. Its row, with the source, symbol, time, payload and completeness
  -- that were offered, is put at the end of the queue, whose bounds hold, with the receipt time that
  -- was observed, or with one that is 1 ms later and noted as an adjustment. Or it is refused, which
  -- needs pressure and a row that is neither of a critical symbol nor of a control source. Or the
  -- queue overflows, and the recorder is no longer healthy. In the last two the queue stays as it
  -- was, and the gaps count one more event.
  pub offer_outcome :
      (o : Content)
      → Outcome c
          (critical o.symbol || o.source.is_control)
          o
          r
          (offer c critical o.source o.symbol o.event_ms o.payload o.bytes o.complete o.observed r)
  unfolding offer with_gap
  offer_outcome o =
      elim (Bool-cases (is_pressed c 7 r && (not (critical o.symbol) && not o.source.is_control))) [
        | inl e ↦
            rw (offer, e)
              (shed _ (ground arith) (ground arith) refl refl
                (extend_gap_dropped o.source.venue o.symbol
                  (admission r.last_offered_receipt_ms o.observed) r.gaps)
                refl refl)
        | inr e ↦
            rw (offer, e)
              (put_row-Outcome (critical o.symbol || o.source.is_control)
                (envelope o.source o.symbol o.event_ms
                  (admission r.last_offered_receipt_ms o.observed) o.complete o.payload o.bytes
                  o.observed)
                o (envelope-IsRowOf o r.last_offered_receipt_ms))
      ]

module _ (c : Settings) where
  filled-IsAccounted : (w : Loop) → IsAccounted c w → IsAccounted c (fill c w)
  unfolding fill
  filled-IsAccounted w h =
      let n = c.recorder_segment_rows - length w.batch in
      record {
        pending = omega (arith, h.pending, total_split n w.recorder.queue);
        within = h.within;
        batch = λ e. omega (arith, h.batch e, total-append w.batch (take n w.recorder.queue));
        kept_batch = omega (arith, h.kept_batch, total-append w.batch (take n w.recorder.queue));
        short = omega (arith, h.short, shorter n w.recorder.queue);
      }

  -- A round that writes gives a batch its gap rows and, unless it is acknowledged, an id.
  written-IsAccounted :
      (text : Gap → ℕ × ℕ) (now : ℕ) (over_budget : Bool) (fresh : ℕ) (o : Write) (w : Loop)
      → IsAccounted c w
      → IsAccounted c (write c now over_budget fresh o (with_gaps text w))
  unfolding write flushed retried with_gaps
  written-IsAccounted text now over_budget fresh o w h = elim (Option-cases w.batch_id) [
    | inr (i, e) ↦ rw (with_gaps, e) (kept o)
    | inl e ↦ rw (with_gaps, e) (gapped o)
  ]
    where
      gaps : List Row
      gaps = gap_rows text (last_times w.batch).0 (last_times w.batch).1 w.recorder.gaps

      kept : (o : Write) → IsAccounted c (write c now over_budget fresh o w)
      kept acknowledged = record {
        pending = omega (arith, h.pending);
        within = omega (arith, h.within);
        batch = λ e. refl;
        kept_batch = omega arith;
        short = h.short;
      }
      kept committed_unheard = record {
        pending = h.pending;
        within = h.within;
        batch = λ e. cc;
        kept_batch = h.kept_batch;
        short = h.short;
      }
      kept failed = record {
        pending = h.pending;
        within = h.within;
        batch = λ e. cc;
        kept_batch = h.kept_batch;
        short = h.short;
      }

      gapped :
          (o : Write)
          → IsAccounted c (
              write c now over_budget fresh o (record w {
                batch = w.batch ++ gaps;
                recorder = record (w.recorder) { gaps = [] };
              }))
      gapped acknowledged = record {
        pending = omega (arith, h.pending);
        within = omega (arith, h.within);
        batch = λ e. refl;
        kept_batch = omega arith;
        short = h.short;
      }
      gapped committed_unheard = record {
        pending = h.pending;
        within = h.within;
        batch = λ e. cc;
        kept_batch = omega (arith, h.kept_batch, total-append w.batch gaps);
        short = h.short;
      }
      gapped failed = record {
        pending = h.pending;
        within = h.within;
        batch = λ e. cc;
        kept_batch = omega (arith, h.kept_batch, total-append w.batch gaps);
        short = h.short;
      }

  -- Whatever the worker answers, a round keeps the pending bytes equal to the bytes of the batch and
  -- the queue together, and both within the bounds of the settings; the bytes of the batch are those
  -- of its rows as long as it has no id, and at most those of its rows, which then have the gap rows
  -- among them, as long as it has one.
  pub round-IsAccounted :
      (text : Gap → ℕ × ℕ) (now : ℕ) (over_budget due : Bool) (fresh : ℕ) (o : Write) (w : Loop)
      → IsAccounted c w
      → IsAccounted c (round c text now over_budget due fresh o w)
  unfolding round
  round-IsAccounted text now over_budget due fresh o w h =
      elim (Bool-cases (leb 1 (length (fill c w).batch) && due)) [
        | inl e ↦
            rw (round, e)
              (written-IsAccounted text now over_budget fresh o (fill c w) (filled-IsAccounted w h))
        | inr e ↦ rw (round, e) (filled-IsAccounted w h)
      ]
