-- ===== src/Backtest/Tests.antt =====
-- A long position that enters in two fills and ends at its target.
use bybitflow.Prelude.{ℕ, ◌*◌, ◌≡◌, refl, true, some, List, [], ◌∷◌}
use bybitflow.Prelude.Int.{pos, sub_ℕ, ◌-ℤ◌, ◌+ℤ◌, ◌*ℤ◌}
use bybitflow.Backtest.Position.{
  Setting, new_position, sign_of, on_trade, on_funding, enters, entered, exited, exit_for,
  reason_after, reason_at, missed, ended_ms, slipped,
}
use bybitflow.Backtest.Outcome.{Event, trade, fund, handle_all, net_pnl, handle, is_complete}
use bybitflow.Backtest.Books.{paper-IsLedger}
use bybitflow.Backtest.Ledger.{
  IsLedger, total, exit_quantity, entry_quantity, exit_proceeds, entry_cost, fee_of,
}
use bybitflow.Backtest.Result.{IsFinished, net_pnl_of_fills}

abbrev setting : Setting
setting = record {
  symbol = 5;
  is_long = true;
  created_ms = 1000;
  expires_ms = 90000;
  zone = (99, 101);
  stop = 90;
  tp1 = 120;
  requested_qty = 10;
  latency_ms = 500;
  participation = 1;
  fill_window_ms = 60000;
  horizon_ms = 14400000;
  unit = 100000;
  fee = 55;
  slippage_bps = 2;
}

abbrev at_price : ℕ → ℕ → ℕ → Event
at_price t p n = trade (record { symbol = 5; event_ms = t; price = p; size = n })

-- The trade at 1400 comes before the plan is ready, and the last one after the end.
abbrev day : List Event
day =
    at_price 1400 100 50
    ∷ at_price 1600 100 6
    ∷ at_price 1700 101 9
    ∷ fund 2000 (pos 10) 100
    ∷ at_price 2500 121 30
    ∷ at_price 2600 80 30
    ∷ []

paper-IsLedger_example : IsLedger setting (handle_all setting day new_position)
paper-IsLedger_example = paper-IsLedger setting day

day_is_flat : (handle_all setting day new_position).exit_ms ≡ some 2500
unfolding handle_all handle on_trade on_funding enters entered exited exit_for reason_after
    reason_at missed ended_ms slipped
day_is_flat = refl

net_pnl_of_fills_example :
    IsFinished (handle_all setting day new_position)
    × (total exit_quantity (handle_all setting day new_position).fills
        ≡ total entry_quantity (handle_all setting day new_position).fills)
    × (pos 204239522660
        ≡ sign_of setting (
            sub_ℕ
              (total exit_proceeds (handle_all setting day new_position).fills * 100000)
              (total entry_cost (handle_all setting day new_position).fills * 100000))
          -ℤ pos (total (fee_of setting) (handle_all setting day new_position).fills)
          -ℤ (handle_all setting day new_position).funding)
unfolding handle_all handle on_trade on_funding enters entered exited exit_for reason_after
    reason_at missed ended_ms slipped is_complete net_pnl ◌-ℤ◌ ◌+ℤ◌ ◌*ℤ◌
net_pnl_of_fills_example = net_pnl_of_fills setting day (pos 204239522660) refl
