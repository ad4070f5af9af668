-- ===== src/Backtest/Outcome.antt =====
-- What comes to a `PaperPosition`, and its `outcome` without excursions.
use bybitflow.Prelude.{
  ℕ, ◌*◌, Bool, true, false, not, ◌&&◌, Option, none, some, List, [], ◌∷◌, ◌==◌, if◌then◌else◌,
}
use bybitflow.Prelude.Int.{ℤ, pos, sub_ℕ, ◌-ℤ◌}
use bybitflow.Backtest.Position.{
  Setting, Position, Trade, is_set, remaining, on_trade, sign_of, on_funding, on_mark,
}

pub data Event : Type 0 where
  trade : Trade → Event
  fund : ℕ → ℤ → ℕ → Event
  mark_price : ℕ → ℕ → ℕ → Event
  gap : ℕ → Event

unfoldable pub handle : Setting → Event → Position → Position
handle c (trade t) s = on_trade c t s
handle c (fund at rate mark) s = on_funding c at rate mark s
handle c (mark_price mark leverage maintenance) s = on_mark c mark leverage maintenance s
handle c (gap g) s = record s { data_gaps = g ∷ s.data_gaps }

unfoldable pub handle_all : Setting → List Event → Position → Position
handle_all c [] s = s
handle_all c (e ∷ es) s = handle_all c es (handle c e s)

abbrev pub is_clean : List ℕ → Bool
is_clean [] = true
is_clean (g ∷ gs) = false

-- "complete" of `outcome`
unfoldable pub is_complete : Position → Bool
is_complete s =
    (is_set s.exit_ms && not (s.quantity == 0)) && ((remaining s == 0) && is_clean s.data_gaps)

-- "net_pnl" of `outcome`
unfoldable pub net_pnl : Setting → Position → Option ℤ
net_pnl c s =
    if is_complete s
    then some (
        sign_of c (sub_ℕ (s.exit_value * c.unit) (s.entry_value * c.unit))
        -ℤ pos s.fees
        -ℤ s.funding)
    else none
