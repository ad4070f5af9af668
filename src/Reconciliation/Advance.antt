-- ===== src/Reconciliation/Advance.antt =====
-- `advance`: the plan on the bars, in the order of time.
use bybitflow.Prelude.{
  ℕ, ◌*◌, ◌/◌, Bool, true, false, not, ◌||◌, ◌&&◌, Option, none, some, List, [], ◌∷◌, ltb, leb,
  ◌==◌, if◌then◌else◌, min,
}
use bybitflow.Lifecycle.Signal.{
  Direction, long, short, Signal, State, invalidated, resolved, expired, Outcome, stop, target,
  expired_outcome, Mark, Reason, stop_in_downtime, target_in_downtime, deadline_in_downtime,
  closed_1m_ohlc, is_alerted, is_legacy, is_some, or_else, trigger_deadline,
}
use bybitflow.Lifecycle.Expiry.{expiry_mark}
use bybitflow.Reconciliation.Bars.{Candle, Values, end_of, values, sort_bars}

abbrev pub minute : ℕ
minute = 60000

-- `cursor // 60_000 * 60_000`
abbrev pub minute_of : ℕ → ℕ
minute_of t = t / minute * minute

-- Why a result has no verdict yet.
pub data Blocked : Type 0 where
  missing_candle invalid_candle : Blocked

-- The verdict of a result that ends the plan.
pub record Ending : Type 0 where
  pub state : State
  pub outcome : Outcome
  pub effective_ms : ℕ
  pub ambiguous : Bool
  pub reason : Reason

-- The result dict.
pub record Result : Type 0 where
  pub cursor_ms : ℕ
  pub coverage_complete : Bool
  pub blocked : Option Blocked
  pub observed_entry_ms : Option ℕ
  pub ending : Option Ending
  pub expiry_mark : Option Mark

-- The deadline that `advance` reads.
abbrev pub limit_of : Signal → ℕ
limit_of s =
    if is_alerted s.state
    then or_else s.holding_deadline_ms s.expires_ms
    else min (or_else s.holding_deadline_ms s.expires_ms) (trigger_deadline s)

abbrev pub stop_in : Direction → ℕ → Values → Bool
stop_in long level v = leb v.low level
stop_in short level v = leb level v.high

abbrev pub target_in : Direction → ℕ → Values → Bool
target_in long level v = leb level v.high
target_in short level v = leb v.low level

-- The variables of the loop, with the two keys of the result that it updates.
pub record Progress : Type 0 where
  pub entered : Option ℕ
  pub expected : ℕ
  pub last_close : Option (ℕ × ℕ)
  pub cursor_ms : ℕ
  pub observed_entry_ms : Option ℕ

abbrev pub halted : Blocked → Progress → Result
halted why p = record {
  cursor_ms = p.cursor_ms;
  coverage_complete = false;
  blocked = some why;
  observed_entry_ms = p.observed_entry_ms;
  ending = none;
  expiry_mark = none;
}

-- `entered is None and bar.start <= trigger deadline and low <= zone[1] and high >= zone[0]`
abbrev pub enters : Signal → Candle → Values → Bool
enters s b v = leb b.start (trigger_deadline s) && (leb v.low s.zone.1 && leb s.zone.0 v.high)

abbrev pub entry_after : Signal → Candle → Values → Option ℕ → Option ℕ
entry_after s b v (some e) = some e
entry_after s b v none = if enters s b v then some (end_of b) else none

-- `stop or (target and entered_before_bar and signal.horizon_profile != "LEGACY")`
abbrev pub decides : Signal → Values → Progress → Bool
decides s v p =
    stop_in s.direction s.stop v
    || (target_in s.direction s.tp1 v && (is_some p.entered && not (is_legacy s.horizon_profile)))

-- The result at a bar that decides; a bar that shows both, or began before the cursor, is
-- ambiguous.
abbrev pub decided : Signal → ℕ → Candle → Values → Progress → Result
decided s cursor b v p =
    let by_stop = stop_in s.direction s.stop v in
    record {
      cursor_ms = end_of b;
      coverage_complete = true;
      blocked = none;
      observed_entry_ms = entry_after s b v p.entered;
      ending = some (record {
        state = if by_stop then invalidated else resolved;
        outcome = if by_stop then stop else target;
        effective_ms = end_of b;
        ambiguous = (by_stop && target_in s.direction s.tp1 v) || ltb b.start cursor;
        reason = if by_stop then stop_in_downtime else target_in_downtime;
      });
      expiry_mark = none;
    }

abbrev pub passed : Signal → Candle → Values → Progress → Progress
passed s b v p = record {
  entered = entry_after s b v p.entered;
  expected = end_of b;
  last_close = some (v.close, end_of b);
  cursor_ms = end_of b;
  observed_entry_ms = entry_after s b v p.entered;
}

-- `signal.state == "ALERTED" and entered is not None and last_close_ms is not None and entered <
-- last_close_ms`, then `expiry_mark`.
unfoldable pub closing_mark : Signal → ℕ → Progress → Option Mark
closing_mark s limit p = elim p.entered [
  | none ↦ none
  | some e ↦ elim p.last_close [
    | none ↦ none
    | some c ↦
        if is_alerted s.state && ltb e c.1
        then expiry_mark s (some c.0) (some c.1) limit minute closed_1m_ohlc (some e)
        else none
  ]
]

-- The lines after the loop.
unfoldable pub concluded : Signal → ℕ → ℕ → Progress → Result
concluded s until limit p =
    let complete = leb (minute_of (min until limit)) p.cursor_ms in
    let over = complete && leb limit until in
    record {
      cursor_ms = p.cursor_ms;
      coverage_complete = complete;
      blocked = none;
      observed_entry_ms = p.observed_entry_ms;
      ending =
          if over
          then some (record {
            state = expired;
            outcome = expired_outcome;
            effective_ms = limit;
            ambiguous = false;
            reason = deadline_in_downtime;
          })
          else none;
      expiry_mark = if over then closing_mark s limit p else none;
    }

-- `bar.end <= cursor or bar.end > min(until, deadline)`
abbrev pub is_outside : ℕ → ℕ → ℕ → Candle → Bool
is_outside cursor until limit b = leb (end_of b) cursor || ltb (min until limit) (end_of b)

-- The loop over the sorted bars.
unfoldable pub scan : Signal → ℕ → ℕ → ℕ → List Candle → Progress → Result
scan s cursor until limit [] p = concluded s until limit p
scan s cursor until limit (b ∷ bs) p = elim (is_outside cursor until limit b) [
  | true ↦ scan s cursor until limit bs p
  | false ↦ elim (not (b.start == p.expected) || not (b.interval == minute)) [
    | true ↦ halted missing_candle p
    | false ↦ elim (values b) [
      | none ↦ halted invalid_candle p
      | some v ↦ elim (decides s v p) [
        | true ↦ decided s cursor b v p
        | false ↦ scan s cursor until limit bs (passed s b v p)
      ]
    ]
  ]
]

-- `advance(signal, bars, cursor, until, detected_ms)`; `detected_ms` is only passed on.
unfoldable pub advance : Signal → List Candle → ℕ → ℕ → Result
advance s bars cursor until = scan s cursor until (limit_of s) (sort_bars bars) (record {
  entered = s.evidence.observed_entry_ms;
  expected = minute_of cursor;
  last_close = none;
  cursor_ms = cursor;
  observed_entry_ms = none;
})
