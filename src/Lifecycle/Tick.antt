-- ===== src/Lifecycle/Tick.antt =====
-- `tick`: one pass over the active plans, with the feeds of their venues as they stand. The writes
-- to the store are returned as values. A pass in which nothing raises is modelled.
use bybitflow.Prelude.{
  ℕ, ◌+◌, Bool, true, false, not, ◌||◌, ◌&&◌, Option, none, some, List, [], ◌∷◌, ltb, leb,
  if◌then◌else◌,
}
use bybitflow.Orderflow.Tape.State.{Tape}
use bybitflow.Orderflow.Book.State.{Book, fresh}
use bybitflow.Lifecycle.Signal.{
  Signal, MonitorStatus, monitor_ready, source_unavailable, feed_stale, reconciliation_pending,
  Reason, planned_stop_crossed, lifecycle_deadline, lifecycle_deadline_method, live_executed_trade,
  coverage_source_reconnect_gap, coverage_reconciliation_pending, expired, is_alerted, is_terminal,
  is_some, deadline, Mark,
}
use bybitflow.Lifecycle.Expiry.{expiry_mark}
use bybitflow.Lifecycle.Trades.{cursor, advance_trades}

pub record Settings : Type 0 where
  pub trade_stale_ms : ℕ
  pub book_stale_ms : ℕ

-- What the code finds for a plan: the tape and the book of its symbol at its venue, and whether its
-- id is in `reconcile_pending`.
pub record Feed (E : Type 0) : Type 0 where
  pub tape : Option (Tape E)
  pub book : Option Book
  pub pending : Bool

abbrev pub book_fresh : Settings → ℕ → Option Book → Bool
book_fresh c now none = false
book_fresh c now (some b) = fresh now c.book_stale_ms b

module _ {E : Type 0} where
  -- `not tape or tape.coverage_start is None or tape.coverage_start > cursor`
  abbrev pub has_gap : Option (Tape E) → Signal → Bool
  has_gap none s = true
  has_gap (some t) s = ltb (cursor s) t.coverage_start

  abbrev pub tape_fresh : Settings → ℕ → Option (Tape E) → Bool
  tape_fresh c now none = false
  tape_fresh c now (some t) =
      leb t.last_receipt now
      && (leb now (t.last_receipt + c.trade_stale_ms)
          && (leb t.last_event (now + 2000) && leb now (t.last_event + c.trade_stale_ms)))

  abbrev pub trades_of : Option (Tape E) → Signal → ℕ → Signal
  trades_of none s now = s
  trades_of (some t) s now = advance_trades s t.trades now

-- A plan that waits for reconciliation: nothing is read from its tape.
unfoldable pub paused : Bool → Signal → Signal
paused gap s = record s {
  coverage = record (s.coverage) {
    active = false;
    monitor_status = some reconciliation_pending;
    reason_codes =
        (if gap then coverage_source_reconnect_gap else coverage_reconciliation_pending) ∷ [];
  };
}

abbrev pub or_mark : Option Mark → Option Mark → Option Mark
or_mark none old = old
or_mark (some m) old = some m

-- The plan's deadline has passed: it expires, with a mark if it was alerted and its feed is fresh.
unfoldable pub expire : Settings → ℕ → Bool → Signal → Signal
expire c now usable s =
    let limit = deadline s in
    record s {
      state = expired;
      invalidation = lifecycle_deadline;
      coverage = record (s.coverage) {
        tracking_end = some (is_alerted s.state);
        terminal_reason = some lifecycle_deadline;
      };
      evidence = record (s.evidence) {
        expiry_mark =
            if is_alerted s.state && usable
            then or_mark
                (expiry_mark s s.evidence.latest_observed_price s.coverage.monitor_cursor_event_ms
                  limit c.trade_stale_ms live_executed_trade none)
                s.evidence.expiry_mark
            else s.evidence.expiry_mark;
        terminal_event = some (record {
          effective_ms = limit;
          detected_ms = now;
          event_price = none;
          reference_price = s.entry;
          source = s.source;
          method = lifecycle_deadline_method;
          ambiguous = false;
        });
      };
    }

-- `if signal.state not in TERMINAL and now >= deadline: …`
unfoldable pub expire_if_due : Settings → ℕ → Bool → Signal → Signal
expire_if_due c now usable s =
    if not (is_terminal s.state) && leb (deadline s) now then expire c now usable s else s

abbrev pub status_of : Bool → Bool → MonitorStatus
status_of is_fresh missing =
    if is_fresh then monitor_ready else if missing then source_unavailable else feed_stale

abbrev pub with_status : Bool → Bool → Signal → Signal
with_status is_fresh missing s = record s {
  coverage = record (s.coverage) {
    active = is_fresh;
    monitor_status = some (status_of is_fresh missing);
  };
}

-- The counters of one pass.
pub record Counts : Type 0 where
  pub ready : ℕ
  pub pending : ℕ
  pub unavailable : ℕ
  pub stale : ℕ

abbrev pub one_if : Bool → ℕ
one_if true = 1
one_if false = 0

-- What the pass makes of one plan.
pub record Tracked : Type 0 where
  pub signal : Signal
  pub pending : Bool
  pub counts : Counts

module _ {E : Type 0} (c : Settings) (now : ℕ) (healthy : Bool) where
  abbrev pub is_fresh : Feed E → Bool
  is_fresh f = tape_fresh c now f.tape && (book_fresh c now f.book && healthy)

  abbrev pub is_missing : Feed E → Bool
  is_missing f = not (is_some f.tape) && not (is_some f.book)

  -- A plan whose tape is read.
  unfoldable pub read_tape : Feed E → Signal → Signal
  read_tape f s = expire_if_due c now (is_fresh f) (
      with_status (is_fresh f) (is_missing f)
        (if tape_fresh c now f.tape then trades_of f.tape s now else s))

  unfoldable pub track : Feed E → Signal → Tracked
  track f s =
      if f.pending || has_gap f.tape s
      then record {
        signal = paused (has_gap f.tape s) s;
        pending = true;
        counts = record { ready = 0; pending = 1; unavailable = 0; stale = 0 };
      }
      else record {
        signal = read_tape f s;
        pending = false;
        counts = record {
          ready = one_if (is_fresh f);
          pending = 0;
          unavailable = one_if (is_missing f);
          stale = one_if (not (is_fresh f) && not (is_missing f));
        };
      }

-- How a plan is written back: `store.signal`, with the thesis marked as failed if the stop was
-- crossed, or `store.monitor`.
pub data Written : Type 0 where
  saved : Bool → Signal → Written
  monitored : Signal → Written

abbrev pub is_stop_reason : Option Reason → Bool
is_stop_reason (some planned_stop_crossed) = true
is_stop_reason _ = false

unfoldable pub write_back : Signal → Written
write_back s =
    if is_terminal s.state then saved (is_stop_reason s.coverage.terminal_reason) s else monitored s

abbrev pub add_counts : Counts → Counts → Counts
add_counts a b = record {
  ready = a.ready + b.ready;
  pending = a.pending + b.pending;
  unavailable = a.unavailable + b.unavailable;
  stale = a.stale + b.stale;
}

-- The loop of `tick` over the active plans, each with its feed.
unfoldable pub tick_all :
    {E : Type 0} → Settings → ℕ → Bool → List (Feed E × Signal) → Counts × List Written
tick_all c now healthy [] = (record { ready = 0; pending = 0; unavailable = 0; stale = 0 }, [])
tick_all c now healthy ((f, s) ∷ rest) =
    let (n, ws) = tick_all c now healthy rest in
    let t = track c now healthy f s in (add_counts t.counts n, write_back t.signal ∷ ws)

-- The status that the pass reports.
unfoldable pub overall : Counts → MonitorStatus
overall n =
    if ltb 0 n.pending
    then reconciliation_pending
    else if ltb 0 n.unavailable
    then source_unavailable
    else if ltb 0 n.stale
    then feed_stale
    else monitor_ready
