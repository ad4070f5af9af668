-- ===== src/Reconciliation/Resume.antt =====
-- What one call of `reconcile` may do to a plan.
use bybitflow.Prelude.{
  ℕ, ◌+◌, ◌≤◌, ◌≡◌, refl, Bool, true, false, Option, none, some, List, [], ◌∷◌, arith, ltb,
  if◌then◌else◌, Bool-cases, Option-cases, inl, inr,
}
use bybitflow.Lifecycle.Signal.{Signal, Outcome, TerminalEvent, get_or, closed_1m_ohlc, unclear}
use bybitflow.Lifecycle.Trades.{cursor}
use bybitflow.Lifecycle.Tick.{Settings, Feed, has_gap}
use bybitflow.Reconciliation.Bars.{Candle}
use bybitflow.Reconciliation.Advance.{Ending, Result, advance}
use bybitflow.Reconciliation.Cursor.{advance_cursor}
use bybitflow.Reconciliation.Apply.{
  start_cursor, live_covers_tail, resume, resumed_at, settle, settle_attempt, attempt, page_of,
  closed, paused_since, with_entry, reference_of, reason_of, with_effects, kept_candles,
  recording_blocked, reconcile,
}
use bybitflow.Reconciliation.Pages.{Saved, read, Reconciled, Effect}

-- How a call ends: `at` is the cursor, `candles` what the venue returned, `out` what came of it.
pub data Course {E : Type 0} (now at : ℕ) (f : Feed E) (candles : Option (List Candle))
    (saved : Saved) (s : Signal) (out : Reconciled) : Type 0 where
  resumed :
      out.resumed ≡ true
      → out.pending ≡ false
      → has_gap f.tape out.signal ≡ false
      → cursor out.signal ≡ at
      → out.signal.coverage.last_checked_trade_id ≡ none
      → out.signal.state ≡ s.state
      → Course now at f candles saved s out
  deferred :
      out.resumed ≡ false
      → out.signal ≡ s
      → out.saved ≡ saved
      → out.pending ≡ f.pending
      → Course now at f candles saved s out
  waiting :
      out.resumed ≡ false
      → out.pending ≡ f.pending
      → out.signal.state ≡ s.state
      → out.signal.evidence.terminal_event ≡ s.evidence.terminal_event
      → at ≤ get_or out.saved.cursor_ms 0
      → out.saved.last_attempt_ms ≡ some now
      → Course now at f candles saved s out
  concluded_by :
      (bars : List Candle) (e : Ending)
      → candles ≡ some bars
      → (advance s bars at now).ending ≡ some e
      → out.resumed ≡ false
      → out.pending ≡ false
      → out.signal.state ≡ e.state
      → out.signal.coverage.terminal_reason ≡ some (reason_of e)
      → out.signal.evidence.primary_outcome ≡ some (if e.ambiguous then unclear else e.outcome)
      → out.signal.evidence.terminal_event
        ≡ some (record {
          effective_ms = e.effective_ms;
          detected_ms = now;
          event_price = none;
          reference_price = reference_of e.outcome s;
          source = s.source;
          method = closed_1m_ohlc;
          ambiguous = e.ambiguous;
        })
      → Course now at f candles saved s out

reference_same :
    (o : Outcome) (r : Result) (s : Signal)
    → reference_of o (with_entry r (paused_since s)) ≡ reference_of o s
reference_same Outcome.stop r s = refl
reference_same Outcome.target r s = refl
reference_same Outcome.expired_outcome r s = refl
reference_same Outcome.unclear r s = refl

module _ {E : Type 0} (now at : ℕ) (f : Feed E) (candles : Option (List Candle)) (saved : Saved)
    (s : Signal) where
  -- What is stored besides does not matter.
  Course-with_effects :
      (es : List Effect) (out : Reconciled)
      → Course now at f candles saved s out
      → Course now at f candles saved s (with_effects es out)
  Course-with_effects [] out k = k
  Course-with_effects (e ∷ es) out (resumed a b d g h i) = resumed a b d g h i
  Course-with_effects (e ∷ es) out (deferred a b d g) = deferred a b d g
  Course-with_effects (e ∷ es) out (waiting a b d g h i) = waiting a b d g h i
  Course-with_effects (e ∷ es) out (concluded_by bars x a b d g h i j k) =
      concluded_by bars x a b d g h i j k

  event_same :
      (e : Ending) (r : Result)
      → ◌≡◌ {A = Option TerminalEvent}
          (some (record {
            effective_ms = e.effective_ms;
            detected_ms = now;
            event_price = none;
            reference_price = reference_of e.outcome (with_entry r (paused_since s));
            source = s.source;
            method = closed_1m_ohlc;
            ambiguous = e.ambiguous;
          }))
          (some (record {
            effective_ms = e.effective_ms;
            detected_ms = now;
            event_price = none;
            reference_price = reference_of e.outcome s;
            source = s.source;
            method = closed_1m_ohlc;
            ambiguous = e.ambiguous;
          }))
  event_same e r = rw (reference_same e.outcome r s) refl

  settle-Course :
      (bars : List Candle)
      → candles ≡ some bars
      → Course now at f candles saved s (
          settle now f.pending
            (page_of now at (read (advance s bars at now)))
            (advance s bars at now)
            s)
  unfolding settle closed
  settle-Course bars q = elim (Option-cases (advance s bars at now).ending) [
    | inl n ↦ rw n (waiting refl refl refl refl (advance_cursor s bars at now).0 refl)
    | inr (e, n) ↦
        rw n
          (concluded_by bars e q n refl refl refl refl refl (event_same e (advance s bars at now)))
  ]

  attempt-Course :
      (cs : Option (List Candle))
      → candles ≡ cs
      → Course now at f candles saved s (settle_attempt now at f.pending (attempt s at now cs) s)
  attempt-Course none q = waiting refl refl refl refl (omega arith) refl
  attempt-Course (some bars) q = settle-Course bars q

module _ {E : Type 0} (c : Settings) (now : ℕ) (healthy : Bool) (f : Feed E) where
  -- A live tape that covers the cursor leaves no gap behind it.
  covered-has_gap :
      (at : ℕ) (s : Signal)
      → live_covers_tail c now healthy f at ≡ true
      → has_gap f.tape (resumed_at now at s) ≡ false
  unfolding resumed_at
  covered-has_gap at s h = elim (Option-cases f.tape) [
    | inl n ↦ ground arith
    | inr (t, n) ↦ rw n (ground arith)
  ]

  -- A call of `reconcile` ends in one of four ways. The live path takes over, at the cursor and
  -- with no trade of the tape counted as seen, and then the tape has no gap for the next pass. Or
  -- nothing changes at all. Or the plan goes on waiting with its state and terminal event as they
  -- were, a saved cursor that is not behind the old one, and the attempt noted. Or the candles that
  -- came conclude it, and its state, reason, outcome and terminal event are those of that
  -- conclusion, with an unclear outcome where it is ambiguous. In the second and third way it waits
  -- for reconciliation exactly if it did before.
  pub reconcile-Course :
      (adapter : Option Bool) (candles : Option (List Candle)) (saved : Saved) (s : Signal)
      → Course now
          (start_cursor s saved)
          f
          candles
          saved
          s
          (reconcile c now healthy adapter f candles saved s)
  unfolding reconcile resume resumed_at
  reconcile-Course adapter candles saved s =
      elim (Bool-cases (live_covers_tail c now healthy f (start_cursor s saved))) [
        | inl h ↦
            rw (h, reconcile)
              (resumed refl refl (covered-has_gap (start_cursor s saved) s h) refl refl refl)
        | inr h ↦ elim (Bool-cases (ltb now (get_or saved.last_attempt_ms 0 + 15000))) [
          | inl k ↦ rw (h, k, reconcile) (deferred refl refl refl refl)
          | inr k ↦
              rw (h, k, reconcile)
                (Course-with_effects now (start_cursor s saved) f candles saved s
                  (kept_candles (recording_blocked adapter healthy) (start_cursor s saved) candles)
                  _ (attempt-Course now (start_cursor s saved) f candles saved s candles refl))
        ]
      ]
