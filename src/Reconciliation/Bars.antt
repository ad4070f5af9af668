-- ===== src/Reconciliation/Bars.antt =====
-- Bars (`Candle` of src/bybit_flow/models.py), their checks, and the order in which they are read.
use bybitflow.Prelude.{
  ℕ, suc, ◌+◌, Bool, ◌&&◌, Option, none, some, List, [], ◌∷◌, leb, if◌then◌else◌, min, max,
}
use bybitflow.Prelude.Int.{pos}
use bybitflow.Orderflow.Types.{Decimal, finite}

pub record Candle : Type 0 where
  pub start : ℕ
  pub interval : ℕ
  pub open_price : Decimal
  pub high : Decimal
  pub low : Decimal
  pub close : Decimal

-- `Candle.end`
abbrev pub end_of : Candle → ℕ
end_of b = b.start + b.interval

-- `math.isfinite(x) and x > 0`, with the value.
abbrev pub positive : Decimal → Option ℕ
positive (finite (pos (suc n))) = some (suc n)
positive _ = none

-- The values of a valid bar.
pub record Values : Type 0 where
  pub open_price : ℕ
  pub high : ℕ
  pub low : ℕ
  pub close : ℕ

abbrev pub ordered : ℕ → ℕ → ℕ → ℕ → Bool
ordered o h l c = leb l (min o c) && leb (max o c) h

-- The values of a bar, if all are finite and positive and lie in order; `none` where the code gives
-- up with "Invalid historical OHLC".
unfoldable pub values : Candle → Option Values
values b = elim (positive b.open_price) [
  | none ↦ none
  | some o ↦ elim (positive b.high) [
    | none ↦ none
    | some h ↦ elim (positive b.low) [
      | none ↦ none
      | some l ↦ elim (positive b.close) [
        | none ↦ none
        | some c ↦
            if ordered o h l c
            then some (record { open_price = o; high = h; low = l; close = c })
            else none
      ]
    ]
  ]
]

-- `sorted(bars, key=lambda b: b.start)`, which keeps the order of equal keys.
unfoldable pub insert_bar : Candle → List Candle → List Candle
insert_bar b [] = b ∷ []
insert_bar b (c ∷ cs) = if leb b.start c.start then b ∷ c ∷ cs else c ∷ insert_bar b cs

unfoldable pub sort_bars : List Candle → List Candle
sort_bars [] = []
sort_bars (b ∷ bs) = insert_bar b (sort_bars bs)
