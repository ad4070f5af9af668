-- ===== src/Orderflow/Types.antt =====
-- Trades and exact decimals (src/bybit_flow/models.py).
use bybitflow.Prelude.{ℕ, Bool, true, false, leb}
use bybitflow.Prelude.Int.{ℤ, pos, negsuc}

-- A Decimal that the wire carries, counted in a unit that all finite values of one symbol share;
-- sums, products and orders of such values are exact. The other values are NaN and the infinities.
pub data Decimal : Type 0 where
  finite : ℤ → Decimal
  nonfinite : Decimal

abbrev pub is_finite : Decimal → Bool
is_finite (finite _) = true
is_finite nonfinite = false

-- `value <= 0` at a finite value. The code tests `is_finite` first.
abbrev pub is_nonpositive : Decimal → Bool
is_nonpositive (finite (pos n)) = leb n 0
is_nonpositive (finite (negsuc _)) = true
is_nonpositive nonfinite = false

pub data Side : Type 0 where
  buy sell : Side

-- Texts that the code only compares (symbols, trade ids, venues) are numbers.
pub record Trade : Type 0 where
  pub symbol : ℕ
  pub event_ms : ℕ
  pub receipt_ms : ℕ
  pub trade_id : ℕ
  pub side : Side
  pub price : Decimal
  pub size : Decimal
  pub exchange : ℕ
