-- ===== src/Backtest/Books.antt =====
-- The books of a paper position add up, whatever comes.
use bybitflow.Prelude.{ℕ, refl, Bool, true, false, Option, none, some, List, [], ◌∷◌, if◌then◌else◌}
use bybitflow.Prelude.Int.{ℤ}
use bybitflow.Backtest.Position.{
  Setting, mark_margin_stress, Position, new_position, on_funding, on_mark,
}
use bybitflow.Backtest.Outcome.{Event, trade, fund, mark_price, gap, handle, handle_all}
use bybitflow.Backtest.Ledger.{IsEnded, IsLedger}
use bybitflow.Backtest.Fills.{new-IsLedger, on_trade-IsLedger}

pub with_funding-IsLedger :
    (c : Setting) (s : Position) (v : ℤ) (ts gs : List ℕ)
    → IsLedger c s
    → IsLedger c (record s { funding = v; funding_timestamps = ts; data_gaps = gs })
with_funding-IsLedger c s v ts gs h = record {
  bounded = h.bounded;
  quantities = h.quantities;
  values = h.values;
  costs = h.costs;
  timely = h.timely;
  unreasoned = h.unreasoned;
  ended = h.ended;
}

stressed-IsLedger :
    (c : Setting) (s : Position)
    → IsLedger c s
    → IsLedger c (record s { exit_reason = some mark_margin_stress })
stressed-IsLedger c s h = record {
  bounded = h.bounded;
  quantities = h.quantities;
  values = h.values;
  costs = h.costs;
  timely = h.timely;
  unreasoned = λ k. cc;
  ended = still s.exit_ms h.ended;
}
  where
    still :
        (o : Option ℕ)
        → IsEnded s.quantity s.exited_qty s.exit_reason o
        → IsEnded s.quantity s.exited_qty (some mark_margin_stress) o
    still none k = tt
    still (some t) k = (k.0, refl)

choose {ℓ} : {A : Type ℓ} (P : A → Type 0) (b : Bool) (x y : A) → P x → P y → P (if b then x else y)
choose P true x y p q = p
choose P false x y p q = q

handle-IsLedger :
    (c : Setting) (e : Event) (s : Position) → IsLedger c s → IsLedger c (handle c e s)
unfolding handle on_funding on_mark
handle-IsLedger c (trade t) s h = on_trade-IsLedger c t s h
handle-IsLedger c (fund at rate mark) s h =
    choose (IsLedger c) _ _ s (with_funding-IsLedger c s _ _ s.data_gaps h) h
handle-IsLedger c (mark_price mark leverage maintenance) s h =
    choose (IsLedger c) _ (record s { exit_reason = some mark_margin_stress }) s
      (stressed-IsLedger c s h) h
handle-IsLedger c (gap g) s h =
    with_funding-IsLedger c s s.funding s.funding_timestamps (g ∷ s.data_gaps) h

handle_all-IsLedger :
    (c : Setting) (es : List Event) (s : Position) → IsLedger c s → IsLedger c (handle_all c es s)
unfolding handle_all
handle_all-IsLedger c [] s h = h
handle_all-IsLedger c (e ∷ es) s h =
    handle_all-IsLedger c es (handle c e s) (handle-IsLedger c e s h)

-- Whatever trades, funding payments, marks and gaps come in whatever order, the books of a new
-- position add up: its quantities, values and fees are the sums over its fills, it holds no more
-- than was requested and gives up no more than it holds, every fill is after the plan was ready and
-- every entry within its window, nothing is given up without a reason, and at its end nothing is
-- left.
pub paper-IsLedger : (c : Setting) (es : List Event) → IsLedger c (handle_all c es new_position)
paper-IsLedger c es = handle_all-IsLedger c es new_position (new-IsLedger c)
