-- ===== src/Lifecycle/Trades.antt =====
-- `advance_trades`: the executed trades of the tape, in order, against the frozen plan.
use mathlib.Core.List.{reverse}
use bybitflow.Prelude.{
  ℕ, Bool, true, false, not, ◌||◌, ◌&&◌, Option, none, some, List, [], ◌∷◌, ltb, leb, ◌==◌,
  if◌then◌else◌,
}
use bybitflow.Prelude.Int.{pos}
use bybitflow.Orderflow.Types.{Decimal, finite, Trade}
use bybitflow.Lifecycle.Signal.{
  Signal, invalidated, resolved, stop, target, planned_stop_crossed, planned_target_crossed,
  live_executed_trade, is_alerted, is_legacy, get_or, set_default, is_some, trigger_deadline,
  deadline, crosses_adverse, reaches, in_zone,
}

-- `float(trade.price)`: a tape holds only positive finite prices.
abbrev pub price_of : Decimal → ℕ
price_of (finite (pos n)) = n
price_of _ = 0

-- The cursor from which the tape is read.
abbrev pub cursor : Signal → ℕ
cursor s = get_or s.coverage.monitor_cursor_event_ms s.created_ms

abbrev pub is_last : Option ℕ → ℕ → Bool
is_last none k = false
is_last (some j) k = j == k

-- `trade.trade_id == last_id or trade.event_ms < cursor`
abbrev pub is_seen : Signal → Trade → Bool
is_seen s t = is_last s.coverage.last_checked_trade_id t.trade_id || ltb t.event_ms (cursor s)

-- The loop over the reversed tape with its `break`.
unfoldable pub until_seen : Signal → List Trade → List Trade
until_seen s [] = []
until_seen s (t ∷ ts) = let rest = until_seen s ts in if is_seen s t then [] else t ∷ rest

unfoldable pub path : Signal → List Trade → List Trade
path s ts = reverse (until_seen s (reverse ts))

-- `trade.receipt_ms > now or trade.event_ms > now or trade.event_ms > deadline`
abbrev pub is_skipped : ℕ → ℕ → Trade → Bool
is_skipped now limit t = ltb now t.receipt_ms || (ltb now t.event_ms || ltb limit t.event_ms)

-- The cursor moves to the trade, and its price is the latest.
unfoldable pub noted : Trade → Signal → Signal
noted t s = record s {
  coverage = record (s.coverage) {
    monitor_cursor_event_ms = some t.event_ms;
    monitor_cursor_receipt_ms = some t.receipt_ms;
    last_checked_trade_id = some t.trade_id;
  };
  evidence = record (s.evidence) { latest_observed_price = some (price_of t.price) };
}

-- The first trade in the zone by the trigger deadline is the observed entry.
unfoldable pub entered : Trade → Signal → Signal
entered t s =
    if in_zone s (price_of t.price) && leb t.event_ms (trigger_deadline s)
    then (if is_some s.evidence.observed_entry_ms then s else record s {
      evidence = record (s.evidence) {
        observed_entry_ms = some t.event_ms;
        observed_entry_price = some (price_of t.price);
        observed_entry_method = some live_executed_trade;
        observed_entry_source = some t.exchange;
        observed_entry_trade_id = some t.trade_id;
      };
    })
    else s

abbrev pub has_entered : Signal → Bool
has_entered s = is_some s.evidence.observed_entry_ms

abbrev pub stop_hit : Trade → Signal → Bool
stop_hit t s = crosses_adverse s.direction s.stop (price_of t.price)

abbrev pub tp1_hit : Trade → Signal → Bool
tp1_hit t s = has_entered s && reaches s.direction s.tp1 (price_of t.price)

abbrev pub tp2_hit : Trade → Signal → Bool
tp2_hit t s = has_entered s && reaches s.direction s.tp2 (price_of t.price)

-- The first touch of each target is kept.
unfoldable pub touched : Trade → Signal → Signal
touched t s = record s {
  evidence = record (s.evidence) {
    tp1_touch_ms =
        if tp1_hit t s
        then set_default s.evidence.tp1_touch_ms t.event_ms
        else s.evidence.tp1_touch_ms;
    tp2_touch_ms =
        if tp2_hit t s
        then set_default s.evidence.tp2_touch_ms t.event_ms
        else s.evidence.tp2_touch_ms;
  };
}

-- `stop or (tp1 and signal.state == "ALERTED" and signal.horizon_profile != "LEGACY")`
abbrev pub is_decisive : Trade → Signal → Bool
is_decisive t s =
    stop_hit t s || (tp1_hit t s && (is_alerted s.state && not (is_legacy s.horizon_profile)))

-- The plan ends at this trade, at its stop if that is crossed, else at its target.
unfoldable pub ended : ℕ → Trade → Signal → Signal
ended now t s =
    let by_stop = stop_hit t s in
    let reason = if by_stop then planned_stop_crossed else planned_target_crossed in
    record s {
      state = if by_stop then invalidated else resolved;
      invalidation = reason;
      coverage = record (s.coverage) { terminal_reason = some reason };
      evidence = record (s.evidence) {
        primary_outcome = some (if by_stop then stop else target);
        terminal_event = some (record {
          effective_ms = t.event_ms;
          detected_ms = now;
          event_price = some (price_of t.price);
          reference_price = if by_stop then s.stop else s.tp1;
          source = s.source;
          method = live_executed_trade;
          ambiguous = false;
        });
      };
    }

-- One trade that is not skipped, up to the decision whether it ends the plan.
unfoldable pub observe : Trade → Signal → Signal
unfolding noted entered touched
observe t s = touched t (entered t (noted t s))

-- The loop over the path; `break` at the trade that ends the plan.
unfoldable pub walk : ℕ → ℕ → List Trade → Signal → Signal
walk now limit [] s = s
walk now limit (t ∷ ts) s = elim (is_skipped now limit t) [
  | true ↦ walk now limit ts s
  | false ↦ elim (is_decisive t (observe t s)) [
    | true ↦ ended now t (observe t s)
    | false ↦ walk now limit ts (observe t s)
  ]
]

-- `advance_trades(signal, tape, now)`
unfoldable pub advance_trades : Signal → List Trade → ℕ → Signal
advance_trades s trades now =
    let w = walk now (deadline s) (path s trades) s in
    record w { coverage = record (w.coverage) { last_monitor_ms = some now } }
