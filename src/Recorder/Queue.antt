-- ===== src/Recorder/Queue.antt =====
-- `Recorder.offer`: rows are admitted, refused with a recorded gap, or overflow the queue.
use bybitflow.Prelude.{
  ℕ, ◌+◌, ◌-◌, ◌*◌, Bool, true, false, not, ◌&&◌, ◌||◌, Option, none, some, List, [], ◌∷◌, ◌++◌,
  ltb, leb, ◌==◌, if◌then◌else◌, length, max,
}

-- A source: its venue, its topic, and whether "control/" stands in it.
pub record Source : Type 0 where
  pub venue : ℕ
  pub topic : ℕ
  pub is_control : Bool

-- An envelope. Of the payload its text and its length in bytes are kept.
pub record Row : Type 0 where
  pub source : Source
  pub symbol : ℕ
  pub event_ms : ℕ
  pub receipt_ms : ℕ
  pub complete : Bool
  pub payload : ℕ
  pub bytes : ℕ
  pub observed_receipt_ms : Option ℕ
  pub receipt_clock_adjustment_ms : Option ℕ

-- `len(row["payload"].encode()) + 256`
abbrev pub size : Row → ℕ
size r = r.bytes + 256

abbrev pub total : List Row → ℕ
total [] = 0
total (r ∷ rs) = size r + total rs

pub record Gap : Type 0 where
  pub venue : ℕ
  pub symbol : ℕ
  pub gap_start_ms : ℕ
  pub gap_end_ms : ℕ
  pub dropped_events : ℕ

pub data State : Type 0 where
  normal recorder_pressure recorder_backpressure storage_backpressure recorder_recovery : State

pub record Settings : Type 0 where
  pub queue_size : ℕ
  pub queue_byte_limit : ℕ
  pub recorder_segment_rows : ℕ

pub record Recorder : Type 0 where
  pub queue : List Row
  pub pending_bytes : ℕ
  pub healthy : Bool
  pub state : State
  pub gaps : List Gap
  pub events_dropped : ℕ
  pub overflow_count : ℕ
  pub last_overflow_ms : ℕ
  pub last_error_ms : ℕ
  pub queue_high_watermark : ℕ
  pub last_offered_receipt_ms : Option ℕ
  pub receipt_clock_adjustments : ℕ

-- `self.pressure() >= share / 10`
abbrev pub is_pressed : Settings → ℕ → Recorder → Bool
is_pressed c share r =
    leb (share * c.queue_size) (10 * length r.queue)
    || leb (share * c.queue_byte_limit) (10 * r.pending_bytes)

-- The gap of a venue and a symbol grows, or opens.
unfoldable pub extend_gap : ℕ → ℕ → ℕ → List Gap → List Gap
extend_gap venue symbol at [] =
    record {
      venue = venue;
      symbol = symbol;
      gap_start_ms = at;
      gap_end_ms = at;
      dropped_events = 1;
    }
    ∷ []
extend_gap venue symbol at (g ∷ gs) =
    if (g.venue == venue) && (g.symbol == symbol)
    then record g { gap_end_ms = at; dropped_events = g.dropped_events + 1 } ∷ gs
    else g ∷ extend_gap venue symbol at gs

-- `_gap`
unfoldable pub with_gap : Source → ℕ → ℕ → Recorder → Recorder
with_gap source symbol at r = record r {
  events_dropped = r.events_dropped + 1;
  gaps = extend_gap source.venue symbol at r.gaps;
}

abbrev pub receipt_quantization_ms : ℕ
receipt_quantization_ms = 1

-- The admission time: a reversal of at most 1 ms is taken back.
abbrev pub admission : Option ℕ → ℕ → ℕ
admission none receipt = receipt
admission (some last) receipt =
    if ltb receipt last && leb last (receipt + receipt_quantization_ms) then last else receipt

abbrev pub envelope : Source → ℕ → ℕ → ℕ → Bool → ℕ → ℕ → ℕ → Row
envelope source symbol event receipt complete payload bytes observed = record {
  source = source;
  symbol = symbol;
  event_ms = event;
  receipt_ms = receipt;
  complete = complete;
  payload = payload;
  bytes = bytes;
  observed_receipt_ms = if receipt == observed then none else some observed;
  receipt_clock_adjustment_ms = if receipt == observed then none else some (receipt - observed);
}

abbrev pub one_if : Bool → ℕ
one_if true = 1
one_if false = 0

-- A row that fits is put in the queue.
unfoldable pub enqueued : Row → ℕ → Recorder → Recorder
enqueued row observed r = record r {
  queue = r.queue ++ row ∷ [];
  last_offered_receipt_ms = some row.receipt_ms;
  receipt_clock_adjustments =
      r.receipt_clock_adjustments + one_if (not (row.receipt_ms == observed));
  pending_bytes = r.pending_bytes + size row;
  queue_high_watermark = max r.queue_high_watermark (length r.queue + 1);
}

-- The except branch.
unfoldable pub overflowed : Source → ℕ → ℕ → Recorder → Recorder
overflowed source symbol at r = with_gap source symbol at (record r {
  overflow_count = r.overflow_count + 1;
  last_overflow_ms = at;
  last_error_ms = at;
  healthy = false;
  state = recorder_backpressure;
})

-- What `offer` does: return True, return False, or raise.
pub data Offered : Type 0 where
  admitted refused overflow : Offered

-- `self.pending_bytes + size > queue_byte_limit`, or the queue is full.
abbrev pub is_full : Settings → Row → Recorder → Bool
is_full c row r =
    ltb c.queue_byte_limit (r.pending_bytes + size row) || leb c.queue_size (length r.queue)

unfoldable pub put_row : Settings → Row → ℕ → Recorder → Offered × Recorder
put_row c row observed r =
    if is_full c row r
    then (overflow, overflowed row.source row.symbol row.receipt_ms r)
    else (admitted, enqueued row observed r)

-- `offer(source, symbol, event_ms, payload, receipt_ms, complete)`; `critical` is the set of
-- critical symbols, and `observed` the receipt time that was given or read.
unfoldable pub offer :
    Settings → (ℕ → Bool) → Source → ℕ → ℕ → ℕ → ℕ → Bool → ℕ → Recorder → Offered × Recorder
offer c critical source symbol event payload bytes complete observed r =
    let receipt = admission r.last_offered_receipt_ms observed in
    if is_pressed c 7 r && (not (critical symbol) && not source.is_control)
    then (refused, with_gap source symbol receipt (record r { state = recorder_backpressure }))
    else put_row c (envelope source symbol event receipt complete payload bytes observed) observed r
