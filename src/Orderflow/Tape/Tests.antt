-- ===== src/Orderflow/Tape/Tests.antt =====
-- Tapes at concrete trades: a tape of two trades that takes three.
use bybitflow.Prelude.{ℕ, ◌+◌, ◌≡◌, refl, ◌&&◌, Option, some, [], ◌∷◌, arith, ltb, leb, select}
use bybitflow.Prelude.Int.{pos}
use bybitflow.Orderflow.Types.{Trade, finite, buy}
use bybitflow.Orderflow.Tape.State.{
  Tape, new, add, window, accept, trim, finish, raised_coverage, pop_key,
}
use bybitflow.Orderflow.Tape.Accept.{Outcome, add-Outcome}
use bybitflow.Orderflow.Tape.Coverage.{Fed, opened, offered, Fed-keeps, Fed-window}

abbrev feed : ℕ → Trade → Option ℕ
feed n t = some n

abbrev print : ℕ → ℕ → Trade
print k at = record {
  symbol = 1;
  event_ms = at;
  receipt_ms = at + 3;
  trade_id = k;
  side = buy;
  price = finite (pos 100);
  size = finite (pos 5);
  exchange = 2;
}

abbrev opening : Tape ℕ
opening = new 0 2 (some (2, 1))

abbrev one : Tape ℕ
one = (add 0 feed opening (print 1 10)).1

abbrev two : Tape ℕ
two = (add 0 feed one (print 2 20)).1

abbrev three : Tape ℕ
three = (add 0 feed two (print 3 30)).1

three_trades : (three.trades ≡ print 2 20 ∷ print 3 30 ∷ []) × (three.coverage_start ≡ 11)
unfolding new add accept trim finish raised_coverage pop_key
three_trades = (refl, refl)

three-Fed : Fed 0 feed three (print 1 10 ∷ print 2 20 ∷ print 3 30 ∷ [])
unfolding new add accept trim finish raised_coverage pop_key
three-Fed =
    offered (print 3 30)
      (offered (print 2 20) (offered (print 1 10) (opened 2 (some (2, 1)) (omega arith)) (λ e. cc))
        (λ e. cc))
      (λ e. cc)

Fed-window_example :
    window three 11 40
    ≡ select
        (λ t. leb 11 t.event_ms && ltb t.event_ms 40)
        (print 1 10 ∷ print 2 20 ∷ print 3 30 ∷ [])
unfolding new add accept trim finish raised_coverage pop_key
Fed-window_example = Fed-window 0 feed 11 40 three-Fed (omega arith)

add-Outcome_example : Outcome 0 feed three (print 4 40) (add 0 feed three (print 4 40))
add-Outcome_example = add-Outcome 0 feed three (print 4 40) (Fed-keeps 0 feed three-Fed).0
