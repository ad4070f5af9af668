-- ===== src/Recorder/Tests.antt =====
-- A recorder with segments of two rows.
use bybitflow.Prelude.{
  ℕ, ◌-◌, ◌≡◌, refl, true, false, ◌||◌, none, some, [], ◌∷◌, ◌++◌, arith, drop, length,
}
use bybitflow.Recorder.Queue.{
  Source, Row, Gap, Settings, Recorder, normal, admitted, offer, put_row, enqueued,
}
use bybitflow.Recorder.Writer.{
  Loop, acknowledged, committed_unheard, failed, round, fill, with_gaps, write, flushed, retried,
  publish, is_published, gap_rows,
}
use bybitflow.Recorder.Envelope.{Content}
use bybitflow.Recorder.Admission.{Outcome, IsAccounted, offer_outcome, round-IsAccounted}
use bybitflow.Recorder.Conservation.{Kept, all_rows, rows_of, round-Kept, round_forgets}

abbrev settings : Settings
settings = record { queue_size = 10; queue_byte_limit = 10000; recorder_segment_rows = 2 }

abbrev feed : Source
feed = record { venue = 1; topic = 2; is_control = false }

abbrev row : ℕ → Row
row n = record {
  source = feed;
  symbol = 5;
  event_ms = n;
  receipt_ms = n;
  complete = true;
  payload = n;
  bytes = 44;
  observed_receipt_ms = none;
  receipt_clock_adjustment_ms = none;
}

abbrev text : Gap → ℕ × ℕ
text g = (g.dropped_events, 20)

abbrev idle : Recorder
idle = record {
  queue = [];
  pending_bytes = 0;
  healthy = true;
  state = normal;
  gaps = [];
  events_dropped = 0;
  overflow_count = 0;
  last_overflow_ms = 0;
  last_error_ms = 0;
  queue_high_watermark = 0;
  last_offered_receipt_ms = some 12;
  receipt_clock_adjustments = 0;
}

-- A clock reading of 11 after 12 is admitted as 12.
adjusted :
    (offer settings (λ s. false) feed 5 11 7 44 true 11 idle).0 ≡ admitted
    × ((offer settings (λ s. false) feed 5 11 7 44 true 11 idle).1.last_offered_receipt_ms
        ≡ some 12)
unfolding offer put_row enqueued
adjusted = (refl, refl)

abbrev one : Loop
one = record {
  recorder = record idle { queue = row 1 ∷ []; pending_bytes = 300 };
  batch = [];
  batch_bytes = 0;
  batch_id = none;
  segments = [];
}

-- The worker commits the row and dies; a second row arrives; the retry is acknowledged.
abbrev unheard : Loop
unheard = round settings text 20 false true 8 committed_unheard one

abbrev joined : Loop
joined = record unheard {
  recorder = record (unheard.recorder) { queue = row 2 ∷ []; pending_bytes = 600 };
}

second_row_lost :
    (round settings text 30 false true 9 acknowledged joined).segments ≡ (8, row 1 ∷ []) ∷ []
    × (all_rows (round settings text 30 false true 9 acknowledged joined) ≡ row 1 ∷ [])
unfolding round fill with_gaps gap_rows write flushed retried publish is_published
second_row_lost = (refl, refl)

abbrev content : Content
content = record {
  source = feed;
  symbol = 5;
  event_ms = 11;
  payload = 7;
  bytes = 44;
  complete = true;
  observed = 11;
}

offer_outcome_example :
    Outcome settings
      (false || false)
      content
      idle
      (offer settings (λ s. false) feed 5 11 7 44 true 11 idle)
offer_outcome_example = offer_outcome settings (λ s. false) idle content

one-IsAccounted : IsAccounted settings one
one-IsAccounted = record {
  pending = refl;
  within = omega arith;
  batch = λ e. refl;
  kept_batch = omega arith;
  short = omega arith;
}

round-IsAccounted_example : IsAccounted settings (round settings text 20 false true 8 failed one)
round-IsAccounted_example =
    round-IsAccounted settings text 20 false true 8 failed one one-IsAccounted

round-Kept_example : Kept text one (round settings text 20 false true 8 acknowledged one)
unfolding is_published
round-Kept_example =
    round-Kept settings text 20 false true 8 acknowledged one (λ e. cc) (λ i e. cc) refl

round_forgets_example :
    all_rows (round settings text 30 false true 9 acknowledged joined)
    ≡ rows_of joined.segments ++ drop (2 - length joined.batch) joined.recorder.queue
unfolding round fill with_gaps write flushed retried publish is_published
round_forgets_example = round_forgets settings text 30 false 9 8 joined refl refl (omega arith)
