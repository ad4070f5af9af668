-- ===== src/Lifecycle/Tests.antt =====
-- Plans at concrete trades.
use bybitflow.Prelude.{ℕ, ◌+◌, ◌≤◌, ◌≡◌, refl, true, false, none, some, List, [], ◌∷◌, length}
use bybitflow.Prelude.Int.{pos}
use bybitflow.Orderflow.Types.{Trade, finite, buy}
use bybitflow.Orderflow.Tape.State.{new}
use bybitflow.Lifecycle.Tick.{
  Settings, Feed, Counts, Written, track, read_tape, expire_if_due, expire, tick_all,
}
use bybitflow.Lifecycle.TickLaws.{Moves, track-Moves, track_ends, tick_all_counts}
use bybitflow.Lifecycle.Signal.{
  Signal, alerted, invalidated, resolved, long, short_intraday, other, live_executed_trade, Mark,
  is_terminal,
}
use bybitflow.Lifecycle.Expiry.{
  expiry_mark, mark_at, with_cost, IsHonest, expiry_mark-IsHonest, gross_mark,
}
use bybitflow.Lifecycle.Trades.{path, until_seen, walk, observe, ended, advance_trades}
use bybitflow.Lifecycle.TradeLaws.{Verdict, view, advance_trades-Verdict}
use bybitflow.Lifecycle.Causality.{EntryFrom, plan, advance_trades-causal}

abbrev pub published : Signal
published = record {
  id = 1;
  symbol = 2;
  direction = long;
  created_ms = 100;
  expires_ms = 900;
  source = 3;
  horizon_profile = short_intraday;
  trigger_expires_ms = some 500;
  holding_deadline_ms = some 900;
  state = alerted;
  entry = 100;
  zone = (99, 101);
  stop = 95;
  tp1 = 110;
  tp2 = 120;
  invalidation = other 0;
  cost_per_base = some (finite (pos 2));
  evidence = record {
    observed_entry_ms = none;
    observed_entry_price = none;
    observed_entry_method = none;
    observed_entry_source = none;
    observed_entry_trade_id = none;
    latest_observed_price = none;
    tp1_touch_ms = none;
    tp2_touch_ms = none;
    primary_outcome = none;
    terminal_event = none;
    expiry_mark = none;
  };
  coverage = record {
    monitor_cursor_event_ms = none;
    monitor_cursor_receipt_ms = none;
    last_checked_trade_id = none;
    last_monitor_ms = none;
    terminal_reason = none;
    active = true;
    monitor_status = none;
    tracking_end = none;
    pause_since_ms = none;
    last_trustworthy_ms = none;
    checked_ms = none;
    monitoring_event = none;
    reason_codes = [];
  };
}

abbrev pub print : ℕ → ℕ → ℕ → Trade
print k at price = record {
  symbol = 2;
  event_ms = at;
  receipt_ms = at;
  trade_id = k;
  side = buy;
  price = finite (pos price);
  size = finite (pos 1);
  exchange = 3;
}

-- The target is touched before any entry, then the entry, then the target.
abbrev pub winning : List Trade
winning = print 1 110 112 ∷ print 2 200 100 ∷ print 3 300 111 ∷ print 4 310 90 ∷ []

abbrev losing : List Trade
losing = print 1 110 112 ∷ print 2 200 100 ∷ print 3 300 94 ∷ []

winning_resolves :
    ((advance_trades published winning 400).state ≡ resolved)
    × ((advance_trades published winning 400).evidence.observed_entry_ms ≡ some 200)
unfolding advance_trades path until_seen walk observe ended
winning_resolves = (refl, refl)

losing_invalidates : (advance_trades published losing 400).state ≡ invalidated
unfolding advance_trades path until_seen walk observe ended
losing_invalidates = refl

advance_trades-Verdict_example :
    Verdict (view published) 400 900 (path published winning) (advance_trades published winning 400)
advance_trades-Verdict_example = advance_trades-Verdict published winning 400

advance_trades-causal_example :
    (plan (advance_trades published losing 400) ≡ plan published)
    × EntryFrom
        (plan published)
        400
        (path published losing)
        published
        (advance_trades published losing 400)
advance_trades-causal_example = advance_trades-causal published losing 400

abbrev marked : Mark
marked =
    with_cost published 103 (some (finite (pos 2)))
      (gross_mark published 103 890 900 live_executed_trade 200)

expiry_mark-IsHonest_example : IsHonest published 900 50 marked
unfolding expiry_mark mark_at
expiry_mark-IsHonest_example =
    expiry_mark-IsHonest published (some 103) (some 890) 900 50 live_executed_trade (some 200)
      marked refl

abbrev settings : Settings
settings = record { trade_stale_ms = 100; book_stale_ms = 100 }

-- A tape that holds the winning trades, and no book.
abbrev taped : Feed ℕ
taped = record {
  tape =
      some
        (record (new {E = ℕ} 50 9 none) { trades = winning; last_event = 310; last_receipt = 310 });
  book = none;
  pending = false;
}

taped_resolves : (track settings 400 true taped published).signal.state ≡ resolved
unfolding track read_tape expire_if_due expire advance_trades path until_seen walk observe ended new
taped_resolves = refl

track-Moves_example :
    Moves alerted (track settings 400 true taped published).signal.state
    × (plan (track settings 400 true taped published).signal ≡ plan published)
track-Moves_example = track-Moves settings 400 true taped published

-- The same plan after its deadline, with a tape that has gone stale.
track_ends_example :
    ((track settings 950 true taped published).pending ≡ false
      → 900 ≤ 950
      → is_terminal (track settings 950 true taped published).signal.state ≡ true)
    × ((track settings 950 true taped published).pending ≡ true
        → (view (track settings 950 true taped published).signal ≡ view published)
          × ((track settings 950 true taped published).signal.evidence ≡ published.evidence)
          × (plan (track settings 950 true taped published).signal ≡ plan published))
track_ends_example = track_ends settings 950 true taped published

abbrev passed : Counts × List Written
passed = tick_all settings 400 true ((taped, published) ∷ [])

tick_all_counts_example :
    (passed.0.ready + passed.0.pending + passed.0.stale ≡ 1)
    × (passed.0.unavailable ≡ 0)
    × (length passed.1 ≡ 1)
tick_all_counts_example = tick_all_counts settings 400 true ((taped, published) ∷ [])
