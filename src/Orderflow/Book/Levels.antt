-- ===== src/Orderflow/Book/Levels.antt =====
-- One side of the book: a dict from price to quantity, and the wire's changes to it.
use bybitflow.Prelude.{
  ℕ, zero, suc, Option, none, some, List, [], ◌∷◌, ◌==◌, if◌then◌else◌, max, min,
}
use bybitflow.Prelude.Int.{ℤ, pos, negsuc, ◌-ℤ◌}

-- Prices and quantities are positive decimals, counted in the units of the symbol.
abbrev pub Levels : Type 0
Levels = List (ℕ × ℕ)

abbrev pub lookup : ℕ → Levels → Option ℕ
lookup p [] = none
lookup p ((k, q) ∷ ls) = if k == p then some q else lookup p ls

-- `book[p] = q`
abbrev pub put : ℕ → ℕ → Levels → Levels
put p q [] = (p, q) ∷ []
put p q ((k, v) ∷ ls) = if k == p then (p, q) ∷ ls else (k, v) ∷ put p q ls

-- `book.pop(p, None)`
abbrev pub remove : ℕ → Levels → Levels
remove p [] = []
remove p ((k, v) ∷ ls) = if k == p then ls else (k, v) ∷ remove p ls

-- `max(self.bids)` and `min(self.asks)`, `none` on an empty side.
abbrev pub best_bid : Levels → Option ℕ
best_bid [] = none
best_bid ((k, _) ∷ ls) = elim (best_bid ls) [ none ↦ some k | some m ↦ some (max k m) ]

abbrev pub best_ask : Levels → Option ℕ
best_ask [] = none
best_ask ((k, _) ∷ ls) = elim (best_ask ls) [ none ↦ some k | some m ↦ some (min k m) ]

pub data BookSide : Type 0 where
  bid ask : BookSide

-- An entry of `changes` without its receipt time: side, price and signed quantity.
pub record Change : Type 0 where
  pub side : BookSide
  pub price : ℕ
  pub amount : ℤ

abbrev pub or_zero : Option ℕ → ℕ
or_zero none = 0
or_zero (some q) = q

-- One level of a message: the new side, and the signed change; `none` is an invalid price or
-- quantity (p <= 0 or q < 0).
unfoldable pub apply_level : BookSide → ℤ × ℤ → Levels → Option (Levels × Change)
apply_level side (pos zero, _) ls = none
apply_level side (negsuc _, _) ls = none
apply_level side (pos (suc p), negsuc _) ls = none
apply_level side (pos (suc p), pos q) ls = some (
  if q == 0 then remove (suc p) ls else put (suc p) q ls,
  record { side = side; price = suc p; amount = pos q -ℤ pos (or_zero (lookup (suc p) ls)) },
)

-- The loop over one side of a message, in order.
unfoldable pub apply_levels : BookSide → List (ℤ × ℤ) → Levels → Option (Levels × List Change)
apply_levels side [] ls = some (ls, [])
apply_levels side (m ∷ ms) ls = elim (apply_level side m ls) [
  | none ↦ none
  | some (ls', c) ↦ elim (apply_levels side ms ls') [
    | none ↦ none
    | some (ls'', cs) ↦ some (ls'', c ∷ cs)
  ]
]
