-- ===== src/Recorder/Writer.antt =====
-- `Recorder.run`: rounds of the loop with the worker's answer to each write.
use bybitflow.Prelude.{
  ℕ, ◌+◌, ◌-◌, ◌*◌, Bool, true, false, ◌&&◌, ◌||◌, Option, none, some, List, [], ◌∷◌, ◌++◌, ltb,
  leb, ◌==◌, if◌then◌else◌, length, take, drop,
}
use bybitflow.Recorder.Queue.{
  Row, total, Gap, Settings, Recorder, normal, recorder_pressure, recorder_recovery,
  storage_backpressure,
}

-- Published segments, the oldest first.
abbrev pub Segments : Type 0
Segments = List (ℕ × List Row)

-- The loop's variables, with what the worker has published.
pub record Loop : Type 0 where
  pub recorder : Recorder
  pub batch : List Row
  pub batch_bytes : ℕ
  pub batch_id : Option ℕ
  pub segments : Segments

-- `SELECT 1 FROM segments WHERE id=?`
unfoldable pub is_published : ℕ → Segments → Bool
is_published i [] = false
is_published i (s ∷ ss) = (s.0 == i) || is_published i ss

-- `_flush(batch, store, ident)` up to its failures: a known id is not published again.
unfoldable pub publish : ℕ → List Row → Segments → Segments
publish i batch ss = if is_published i ss then ss else ss ++ (i, batch) ∷ []

-- How a write ends: acknowledged; committed by a worker that is not heard of; or failed, in the
-- worker or on the way, with nothing committed.
pub data Write : Type 0 where
  acknowledged committed_unheard failed : Write

-- Rows are taken from the queue up to the rows of a segment.
unfoldable pub fill : Settings → Loop → Loop
fill c w =
    let n = c.recorder_segment_rows - length w.batch in
    record w {
      batch = w.batch ++ take n w.recorder.queue;
      batch_bytes = w.batch_bytes + total (take n w.recorder.queue);
      recorder = record (w.recorder) { queue = drop n w.recorder.queue };
    }

-- The control row of a gap; its payload is the gap, whose text is an argument.
abbrev pub gap_row : (Gap → ℕ × ℕ) → ℕ → ℕ → Gap → Row
gap_row text event receipt g = record {
  source = record { venue = g.venue; topic = 0; is_control = true };
  symbol = g.symbol;
  event_ms = event;
  receipt_ms = receipt;
  complete = false;
  payload = (text g).0;
  bytes = (text g).1;
  observed_receipt_ms = none;
  receipt_clock_adjustment_ms = none;
}

-- Each gap is appended after the last row of the batch, with the times of that row.
unfoldable pub gap_rows : (Gap → ℕ × ℕ) → ℕ → ℕ → List Gap → List Row
gap_rows text event receipt [] = []
gap_rows text event receipt (g ∷ gs) = gap_row text event receipt g ∷ gap_rows text event receipt gs

abbrev pub last_times : List Row → ℕ × ℕ
last_times [] = (0, 0)
last_times (r ∷ []) = (r.event_ms, r.receipt_ms)
last_times (r ∷ s ∷ rs) = last_times (s ∷ rs)

-- The gaps go into a new batch only.
unfoldable pub with_gaps : (Gap → ℕ × ℕ) → Loop → Loop
with_gaps text w = elim w.batch_id [
  | some i ↦ w
  | none ↦ record w {
    batch = w.batch ++ gap_rows text (last_times w.batch).0 (last_times w.batch).1 w.recorder.gaps;
    recorder = record (w.recorder) { gaps = [] };
  }
]

-- `batch_id = batch_id or …`
abbrev pub id_of : Option ℕ → ℕ → ℕ
id_of none fresh = fresh
id_of (some i) fresh = i

-- The lines after a write that was acknowledged.
unfoldable pub flushed : Settings → Loop → Loop
flushed c w = record w {
  batch = [];
  batch_bytes = 0;
  batch_id = none;
  recorder = record (w.recorder) {
    pending_bytes = w.recorder.pending_bytes - w.batch_bytes;
    healthy = true;
    state =
        if ltb (10 * length w.recorder.queue) (3 * c.queue_size) then normal else recorder_pressure;
  };
}

-- The except branch of the loop: the batch and its id are kept for the retry.
unfoldable pub retried : Bool → ℕ → Loop → Loop
retried over_budget now w = record w {
  recorder = record (w.recorder) {
    healthy = false;
    last_error_ms = now;
    state = if over_budget then storage_backpressure else recorder_recovery;
  };
}

unfoldable pub write : Settings → ℕ → Bool → ℕ → Write → Loop → Loop
write c now over_budget fresh o w =
    let i = id_of w.batch_id fresh in
    elim o [
      | acknowledged ↦ flushed c (record w { segments = publish i w.batch w.segments })
      | committed_unheard ↦
          retried over_budget now
            (record w { segments = publish i w.batch w.segments; batch_id = some i })
      | failed ↦ retried over_budget now (record w { batch_id = some i })
    ]

-- One round of the loop: `due` says whether a write is due by its time, size or end, `fresh` is the
-- id that a new batch would get.
unfoldable pub round : Settings → (Gap → ℕ × ℕ) → ℕ → Bool → Bool → ℕ → Write → Loop → Loop
round c text now over_budget due fresh o w =
    let x = fill c w in
    if leb 1 (length x.batch) && due then write c now over_budget fresh o (with_gaps text x) else x
