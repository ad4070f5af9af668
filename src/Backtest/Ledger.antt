-- ===== src/Backtest/Ledger.antt =====
-- The books of a paper position add up, and it stays within its plan.
use bybitflow.Prelude.{
  ℕ, ◌+◌, ◌*◌, ◌≤◌, ◌≡◌, true, false, Option, none, some, List, [], ◌∷◌, if◌then◌else◌, All,
}
use bybitflow.Backtest.Position.{
  Setting, ExitReason, Fill, Position, is_unreasoned, ready_ms, entry_end_ms,
}

-- The sum of a number over the fills.
abbrev pub total : (Fill → ℕ) → List Fill → ℕ
total g [] = 0
total g (f ∷ fs) = g f + total g fs

abbrev pub entry_quantity : Fill → ℕ
entry_quantity f = if f.is_entry then f.quantity else 0

abbrev pub exit_quantity : Fill → ℕ
exit_quantity f = if f.is_entry then 0 else f.quantity

abbrev pub entry_cost : Fill → ℕ
entry_cost f = if f.is_entry then f.quantity * f.price else 0

abbrev pub exit_proceeds : Fill → ℕ
exit_proceeds f = if f.is_entry then 0 else f.quantity * f.price

abbrev pub fee_of : Setting → Fill → ℕ
fee_of c f = f.quantity * f.price * c.fee

-- A fill is not before the plan is ready; an entry is within its window.
abbrev pub IsTimely : Setting → Fill → Type 0
IsTimely c f = (ready_ms c ≤ f.at_ms) × (f.is_entry ≡ true → f.at_ms ≤ entry_end_ms c)

-- At its end a position has nothing left, and a reason.
abbrev pub IsEnded : ℕ → ℕ → Option ExitReason → Option ℕ → Type 0
IsEnded quantity exited_qty r none = Unit
IsEnded quantity exited_qty r (some t) = (quantity ≤ exited_qty) × (is_unreasoned r ≡ false)

pub record IsLedger (c : Setting) (s : Position) : Type 0 where
  pub bounded : (s.exited_qty ≤ s.quantity) × (s.quantity ≤ c.requested_qty)
  pub quantities :
      (total entry_quantity s.fills ≡ s.quantity) × (total exit_quantity s.fills ≡ s.exited_qty)
  pub values :
      (total entry_cost s.fills ≡ s.entry_value) × (total exit_proceeds s.fills ≡ s.exit_value)
  pub costs : total (fee_of c) s.fills ≡ s.fees
  pub timely : All (IsTimely c) s.fills
  pub unreasoned : is_unreasoned s.exit_reason ≡ true → s.exited_qty ≡ 0
  pub ended : IsEnded s.quantity s.exited_qty s.exit_reason s.exit_ms
