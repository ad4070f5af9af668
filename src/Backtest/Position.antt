-- ===== src/Backtest/Position.antt =====
-- `PaperPosition` of src/bybit_flow/backtest.py without its excursions. Sizes of trades are counted
-- in a unit and quantities in that unit times the unit of `participation`, so that a share of a
-- trade is a number; fill prices are counted in 1/10000 of a price, and fees, funding and the net
-- result in 1/`unit` of a quantity times a fill price. Two quantities that differ are at least
-- 1e-10 apart.
use bybitflow.Prelude.{
  ℕ, ◌+◌, ◌-◌, ◌*◌, min, Bool, true, false, not, ◌&&◌, ◌||◌, Option, none, some, List, [], ◌∷◌,
  ◌++◌, ◌==◌, leb, ltb, if◌then◌else◌, any,
}
use bybitflow.Prelude.Int.{ℤ, pos, ◌+ℤ◌, ◌-ℤ◌, ◌*ℤ◌}

-- The frozen plan and the settings of a position. The fee is `fee_bps / 10000` in 1/`unit`, and the
-- slippage is at most 10000 bps.
pub record Setting : Type 0 where
  pub symbol : ℕ
  pub is_long : Bool
  pub created_ms : ℕ
  pub expires_ms : ℕ
  pub zone : ℕ × ℕ
  pub stop : ℕ
  pub tp1 : ℕ
  pub requested_qty : ℕ
  pub latency_ms : ℕ
  pub participation : ℕ
  pub fill_window_ms : ℕ
  pub horizon_ms : ℕ
  pub unit : ℕ
  pub fee : ℕ
  pub slippage_bps : ℕ

pub data ExitReason : Type 0 where
  stop_exit tp1_exit time_stop missed_fill mark_margin_stress : ExitReason

pub record Fill : Type 0 where
  pub at_ms : ℕ
  pub is_entry : Bool
  pub quantity : ℕ
  pub price : ℕ

pub record Position : Type 0 where
  pub quantity : ℕ
  pub entry_value : ℕ
  pub fees : ℕ
  pub funding : ℤ
  pub exit_value : ℕ
  pub exited_qty : ℕ
  pub exit_reason : Option ExitReason
  pub exit_ms : Option ℕ
  pub fills : List Fill
  pub funding_timestamps : List ℕ
  pub data_gaps : List ℕ

abbrev pub new_position : Position
new_position = record {
  quantity = 0;
  entry_value = 0;
  fees = 0;
  funding = pos 0;
  exit_value = 0;
  exited_qty = 0;
  exit_reason = none;
  exit_ms = none;
  fills = [];
  funding_timestamps = [];
  data_gaps = [];
}

pub record Trade : Type 0 where
  pub symbol : ℕ
  pub event_ms : ℕ
  pub price : ℕ
  pub size : ℕ

abbrev pub is_set : Option ℕ → Bool
is_set none = false
is_set (some t) = true

abbrev pub is_unreasoned : Option ExitReason → Bool
is_unreasoned none = true
is_unreasoned (some r) = false

-- `remaining`
abbrev pub remaining : Position → ℕ
remaining s = s.quantity - s.exited_qty

-- `price * (1 ± slippage_bps / 10000)`: a long entry or a short exit pays more.
unfoldable pub slipped : Setting → Bool → ℕ → ℕ
slipped c upwards price =
    if upwards then price * (10000 + c.slippage_bps) else price * (10000 - c.slippage_bps)

abbrev pub ready_ms : Setting → ℕ
ready_ms c = c.created_ms + c.latency_ms

abbrev pub entry_end_ms : Setting → ℕ
entry_end_ms c = min (ready_ms c + c.fill_window_ms) c.expires_ms

unfoldable pub enters : Setting → Trade → Position → Bool
enters c t s =
    (leb t.event_ms (entry_end_ms c) && is_unreasoned s.exit_reason)
    && (ltb s.quantity c.requested_qty && (leb c.zone.0 t.price && leb t.price c.zone.1))

abbrev pub entry_fill : Setting → Trade → Position → Fill
entry_fill c t s = record {
  at_ms = t.event_ms;
  is_entry = true;
  quantity = min (c.requested_qty - s.quantity) (t.size * c.participation);
  price = slipped c c.is_long t.price;
}

abbrev pub exit_fill : Setting → Trade → Position → Fill
exit_fill c t s = record {
  at_ms = t.event_ms;
  is_entry = false;
  quantity = min (remaining s) (t.size * c.participation);
  price = slipped c (not c.is_long) t.price;
}

-- The branch that fills and returns.
unfoldable pub entered : Setting → Fill → Position → Position
entered c f s = record s {
  quantity = s.quantity + f.quantity;
  entry_value = s.entry_value + f.quantity * f.price;
  fees = s.fees + f.quantity * f.price * c.fee;
  fills = s.fills ++ f ∷ [];
}

abbrev pub at_stop : Setting → ℕ → Bool
at_stop c price = if c.is_long then leb price c.stop else leb c.stop price

abbrev pub at_target : Setting → ℕ → Bool
at_target c price = if c.is_long then leb c.tp1 price else leb price c.tp1

unfoldable pub reason_at : Setting → Trade → Option ExitReason
reason_at c t =
    if at_stop c t.price
    then some stop_exit
    else if at_target c t.price
    then some tp1_exit
    else if leb (c.created_ms + c.horizon_ms) t.event_ms
    then some time_stop
    else none

-- `if self.exit_reason is None: …`
unfoldable pub reason_after : Setting → Trade → Option ExitReason → Option ExitReason
reason_after c t none = reason_at c t
reason_after c t (some r) = some r

-- The end of the position, if nothing remains.
unfoldable pub ended_ms : ℕ → ℕ → Option ℕ → Option ℕ
ended_ms left at old = if left == 0 then some at else old

unfoldable pub exited : Setting → Fill → ExitReason → Position → Position
exited c f r s = record s {
  exit_reason = some r;
  exit_value = s.exit_value + f.quantity * f.price;
  exited_qty = s.exited_qty + f.quantity;
  fees = s.fees + f.quantity * f.price * c.fee;
  fills = s.fills ++ f ∷ [];
  exit_ms = ended_ms (s.quantity - (s.exited_qty + f.quantity)) f.at_ms s.exit_ms;
}

unfoldable pub exit_for : Setting → Trade → Position → Option ExitReason → Position
exit_for c t s none = s
exit_for c t s (some r) = exited c (exit_fill c t s) r s

unfoldable pub missed : Setting → Trade → Position → Position
missed c t s =
    if ltb (ready_ms c + c.fill_window_ms) t.event_ms
    then record s { exit_reason = some missed_fill; exit_ms = some t.event_ms }
    else s

-- `on_trade`
unfoldable pub on_trade : Setting → Trade → Position → Position
on_trade c t s =
    if not (t.symbol == c.symbol) || is_set s.exit_ms
    then s
    else if ltb t.event_ms (ready_ms c)
    then s
    else if enters c t s
    then entered c (entry_fill c t s) s
    else if s.quantity == 0
    then missed c t s
    else exit_for c t s (reason_after c t s.exit_reason)

abbrev pub first_at : List Fill → ℕ
first_at [] = 0
first_at (f ∷ fs) = f.at_ms

abbrev pub sign_of : Setting → ℤ → ℤ
sign_of c v = if c.is_long then v else pos 0 -ℤ v

-- `on_funding`; the rate is counted in 1/`unit`.
unfoldable pub on_funding : Setting → ℕ → ℤ → ℕ → Position → Position
on_funding c at rate mark s =
    if (not (s.quantity == 0) && not (remaining s == 0))
      && (leb (first_at s.fills) at && not (any (λ x. x == at) s.funding_timestamps))
    then record s {
      funding = s.funding +ℤ sign_of c (pos (remaining s * (mark * 10000)) *ℤ rate);
      funding_timestamps = at ∷ s.funding_timestamps;
    }
    else s

-- `sign * (mark - entry) / entry <= -(1 / leverage - maintenance)`, multiplied out; the maintenance
-- margin is in percent.
unfoldable pub is_stressed : Setting → ℕ → ℕ → ℕ → Position → Bool
is_stressed c mark leverage maintenance s =
    let held = mark * 10000 * s.quantity * (100 * leverage) in
    if c.is_long
    then leb (held + 100 * s.entry_value)
        (s.entry_value * (100 * leverage + leverage * maintenance))
    else leb (s.entry_value * (100 * leverage + 100))
        (held + s.entry_value * (leverage * maintenance))

-- `on_mark`
unfoldable pub on_mark : Setting → ℕ → ℕ → ℕ → Position → Position
on_mark c mark leverage maintenance s =
    if not (remaining s == 0) && is_stressed c mark leverage maintenance s
    then record s { exit_reason = some mark_margin_stress }
    else s
