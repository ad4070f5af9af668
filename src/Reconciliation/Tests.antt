-- ===== src/Reconciliation/Tests.antt =====
-- The plan of the lifecycle's tests on closed bars.
use bybitflow.Prelude.{ℕ, ◌≡◌, refl, true, none, some, List, [], ◌∷◌}
use bybitflow.Prelude.Int.{pos}
use bybitflow.Orderflow.Types.{finite}
use bybitflow.Lifecycle.Signal.{Signal, invalidated, stop, stop_in_downtime}
use bybitflow.Lifecycle.Tick.{Settings, Feed}
use bybitflow.Lifecycle.Tests.{published}
use bybitflow.Reconciliation.Bars.{Candle, sort_bars, insert_bar, values}
use bybitflow.Reconciliation.Advance.{minute_of, advance, limit_of, scan, concluded}
use bybitflow.Reconciliation.Laws.{Course, inside, advance-Course}
use bybitflow.Reconciliation.Apply.{start_cursor, reconcile, settle, closed}
use bybitflow.Reconciliation.Pages.{Saved}
use bybitflow.Reconciliation.Resume.{reconcile-Course}

abbrev candle : ℕ → ℕ → ℕ → Candle
candle at lo hi = record {
  start = at;
  interval = 60000;
  open_price = finite (pos 100);
  high = finite (pos hi);
  low = finite (pos lo);
  close = finite (pos 100);
}

abbrev lasting : Signal
lasting = record published {
  created_ms = 60000;
  expires_ms = 600000;
  trigger_expires_ms = some 400000;
  holding_deadline_ms = some 600000;
}

-- The bars come in the wrong order; the second in time shows the stop and the target.
abbrev crossing : List Candle
crossing = candle 120000 94 111 ∷ candle 60000 99 101 ∷ []

crossing_stops :
    ((advance lasting crossing 60000 200000).ending
      ≡ some (record {
        state = invalidated;
        outcome = stop;
        effective_ms = 180000;
        ambiguous = true;
        reason = stop_in_downtime;
      }))
    × ((advance lasting crossing 60000 200000).observed_entry_ms ≡ some 120000)
unfolding advance scan sort_bars insert_bar values concluded
crossing_stops = (refl, refl)

gap_waits : (advance lasting (candle 120000 94 111 ∷ []) 60000 200000).ending ≡ none
unfolding advance scan sort_bars insert_bar values concluded
gap_waits = refl

advance-Course_example :
    Course lasting 60000 200000
      (limit_of lasting)
      60000
      (minute_of 60000)
      none
      (inside 60000 200000 (limit_of lasting) (sort_bars crossing))
      (advance lasting crossing 60000 200000)
advance-Course_example = advance-Course lasting crossing 60000 200000

abbrev unsaved : Saved
unsaved = record {
  cursor_ms = none;
  detected_ms = none;
  last_attempt_ms = none;
  status = none;
  attempt = none;
}

abbrev settings : Settings
settings = record { trade_stale_ms = 5000; book_stale_ms = 3000 }

abbrev unfed : Feed ℕ
unfed = record { tape = none; book = none; pending = true }

crossing_applied :
    (reconcile settings 200000 true none unfed (some crossing) unsaved lasting).signal.state
    ≡ invalidated
unfolding advance scan sort_bars insert_bar values concluded reconcile settle closed
crossing_applied = refl

reconcile-Course_example :
    bybitflow.Reconciliation.Resume.Course 200000
      (start_cursor lasting unsaved)
      unfed
      (some crossing)
      unsaved
      lasting
      (reconcile settings 200000 true none unfed (some crossing) unsaved lasting)
reconcile-Course_example =
    reconcile-Course settings 200000 true unfed none (some crossing) unsaved lasting
