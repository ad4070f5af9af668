-- ===== src/Reconciliation/Apply.antt =====
-- `reconcile`: one bounded page per evaluation, and what its result makes of the plan. The candles
-- come from the venue, so they are an argument; what the code writes is returned as values.
use bybitflow.Prelude.{
  ℕ, ◌+◌, Bool, true, false, not, ◌&&◌, Option, none, some, List, [], ◌∷◌, ltb, leb, ◌==◌,
  if◌then◌else◌, max,
}
use bybitflow.Orderflow.Tape.State.{Tape}
use bybitflow.Lifecycle.Signal.{
  Signal, State, expired, Outcome, stop, target, unclear, Reason, planned_stop_crossed,
  closed_1m_ohlc, reconciled_pending_path, is_alerted, or_else, get_or, set_default,
}
use bybitflow.Lifecycle.Tick.{Settings, Feed, book_fresh, or_mark}
use bybitflow.Reconciliation.Bars.{Candle}
use bybitflow.Reconciliation.Advance.{Ending, Result, advance}
use bybitflow.Reconciliation.Pages.{
  reconciled, catching_up_lifecycle, Attempt, failed, read, Saved, gap_covered, still_pending,
  because, Effect, signal_stored, progress_stored, candles_stored, research_sent, Reconciled,
}

-- The first cursor of a plan.
abbrev pub initial : Signal → ℕ
initial s = or_else s.coverage.monitor_cursor_event_ms (
    or_else s.coverage.last_trustworthy_ms
      (or_else s.coverage.pause_since_ms (or_else s.coverage.checked_ms s.created_ms)))

abbrev pub start_cursor : Signal → Saved → ℕ
start_cursor s saved = max (initial s) (get_or saved.cursor_ms 0)

module _ {E : Type 0} (c : Settings) (now : ℕ) (healthy : Bool) where
  abbrev receipt_fresh : Option (Tape E) → Bool
  receipt_fresh none = false
  receipt_fresh (some t) = leb t.last_receipt now && leb now (t.last_receipt + c.trade_stale_ms)

  abbrev reaches_back : Option (Tape E) → ℕ → Bool
  reaches_back none at = false
  reaches_back (some t) at = leb t.coverage_start at

  -- `live_covers_tail`
  abbrev pub live_covers_tail : Feed E → ℕ → Bool
  live_covers_tail f at =
      healthy && (book_fresh c now f.book && (receipt_fresh f.tape && reaches_back f.tape at))

-- The live path takes over at the cursor.
unfoldable pub resumed_at : ℕ → ℕ → Signal → Signal
resumed_at now at s = record s {
  coverage = record (s.coverage) {
    monitor_cursor_event_ms = some at;
    last_monitor_ms = some now;
    active = true;
    monitor_status = some reconciled_pending_path;
    last_checked_trade_id = none;
  };
}

unfoldable pub resume : ℕ → ℕ → Signal → Saved → Reconciled
resume now at s saved =
    let done = resumed_at now at s in
    let kept = record saved {
      status = some reconciled;
      cursor_ms = some at;
      detected_ms = some now;
    } in
    record {
      resumed = true;
      signal = done;
      saved = kept;
      pending = false;
      page = none;
      effects = signal_stored done gap_covered ∷ progress_stored kept ∷ [];
    }

-- `result.update(last_attempt_ms=now, status="CATCHING_UP_LIFECYCLE")`
abbrev pub page_of : ℕ → ℕ → Attempt → Saved
page_of now at failed = record {
  cursor_ms = some at;
  detected_ms = none;
  last_attempt_ms = some now;
  status = some catching_up_lifecycle;
  attempt = some failed;
}
page_of now at (read r) = record {
  cursor_ms = some r.cursor_ms;
  detected_ms = some now;
  last_attempt_ms = some now;
  status = some catching_up_lifecycle;
  attempt = some (read r);
}

abbrev pub paused_since : Signal → Signal
paused_since s = record s {
  coverage = record (s.coverage) {
    active = false;
    pause_since_ms = set_default s.coverage.pause_since_ms (initial s);
    monitoring_event = none;
  };
}

-- `if result.get("observed_entry_ms")`: a time of 0 is no entry.
abbrev pub entry_or : Option ℕ → Option ℕ → Option ℕ
entry_or old none = old
entry_or old (some e) = if e == 0 then old else set_default old e

abbrev pub with_entry : Result → Signal → Signal
with_entry r s = record s {
  evidence = record (s.evidence) {
    observed_entry_ms = entry_or s.evidence.observed_entry_ms r.observed_entry_ms;
  };
}

abbrev pub reference_of : Outcome → Signal → ℕ
reference_of stop s = s.stop
reference_of target s = s.tp1
reference_of _ s = s.entry

abbrev pub reason_of : Ending → Reason
reason_of e = elim e.outcome [ stop ↦ planned_stop_crossed | _ ↦ e.reason ]

abbrev pub tracking_end_of : State → Bool → Option Bool → Option Bool
tracking_end_of expired alerted old = some alerted
tracking_end_of _ alerted old = old

-- The ending of a result, written to the plan.
unfoldable pub closed : ℕ → Result → Ending → Signal → Signal
closed now r e s = record s {
  state = e.state;
  coverage = record (s.coverage) {
    tracking_end = tracking_end_of e.state (is_alerted s.state) s.coverage.tracking_end;
    terminal_reason = some (reason_of e);
  };
  evidence = record (s.evidence) {
    terminal_event = some (record {
      effective_ms = e.effective_ms;
      detected_ms = now;
      event_price = none;
      reference_price = reference_of e.outcome s;
      source = s.source;
      method = closed_1m_ohlc;
      ambiguous = e.ambiguous;
    });
    primary_outcome = some (if e.ambiguous then unclear else e.outcome);
    expiry_mark = or_mark r.expiry_mark s.evidence.expiry_mark;
  };
}

abbrev pub notify_if : Bool → Signal → List Effect
notify_if true s = research_sent s ∷ []
notify_if false s = []

-- From `result.update(last_attempt_ms=…)` to the end, after a page that was read.
unfoldable pub settle : ℕ → Bool → Saved → Result → Signal → Reconciled
settle now waiting page r s = elim r.ending [
  | none ↦ record {
    resumed = false;
    signal = with_entry r (paused_since s);
    saved = page;
    pending = waiting;
    page = some page;
    effects =
        progress_stored page ∷ signal_stored (with_entry r (paused_since s)) still_pending ∷ [];
  }
  | some e ↦
      let done = closed now r e (with_entry r (paused_since s)) in
      record {
        resumed = false;
        signal = done;
        saved = page;
        pending = false;
        page = some page;
        effects =
            progress_stored page
            ∷ signal_stored done (because e.reason)
            ∷ notify_if (is_alerted s.state) done;
      }
]

abbrev pub settle_attempt : ℕ → ℕ → Bool → Attempt → Signal → Reconciled
settle_attempt now at waiting failed s = record {
  resumed = false;
  signal = paused_since s;
  saved = page_of now at failed;
  pending = waiting;
  page = some (page_of now at failed);
  effects =
      progress_stored (page_of now at failed) ∷ signal_stored (paused_since s) still_pending ∷ [];
}
settle_attempt now at waiting (read r) s = settle now waiting (page_of now at (read r)) r s

-- `original_api is not None and its recorder is not None and not scanner.recorder.healthy`; the
-- argument says whether there is a live adapter and, if so, whether it has a recorder.
abbrev pub recording_blocked : Option Bool → Bool → Bool
recording_blocked (some true) healthy = not healthy
recording_blocked _ healthy = false

abbrev pub attempt : Signal → ℕ → ℕ → Option (List Candle) → Attempt
attempt s at now none = failed
attempt s at now (some bars) = read (advance s bars at now)

abbrev pub kept_candles : Bool → ℕ → Option (List Candle) → List Effect
kept_candles true at (some bars) = candles_stored at bars ∷ []
kept_candles _ at _ = []

abbrev pub with_effects : List Effect → Reconciled → Reconciled
with_effects [] r = r
with_effects (e ∷ es) r = record r { effects = e ∷ r.effects }

-- `reconcile(scanner, signal, now)`; `candles` is what the venue returns, `none` if it raises.
unfoldable pub reconcile :
    {E : Type 0}
    → Settings
    → ℕ
    → Bool
    → Option Bool
    → Feed E
    → Option (List Candle)
    → Saved
    → Signal
    → Reconciled
reconcile c now healthy adapter f candles saved s =
    let at = start_cursor s saved in
    if live_covers_tail c now healthy f at
    then resume now at s saved
    else if ltb now (get_or saved.last_attempt_ms 0 + 15000)
    then record {
      resumed = false;
      signal = s;
      saved = saved;
      pending = f.pending;
      page = none;
      effects = [];
    }
    else with_effects (kept_candles (recording_blocked adapter healthy) at candles)
        (settle_attempt now at f.pending (attempt s at now candles) s)
