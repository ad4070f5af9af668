-- ===== src/Lifecycle/Marks.antt =====
-- The price move of a mark of `expiry_mark`, and the class that its sign gives.
use bybitflow.Prelude.{
  ℕ, ◌+◌, ◌<◌, ◌≡◌, true, false, Option, some, arith, if◌then◌else◌, refl, Bool-cases, inl, inr,
}
use bybitflow.Prelude.Int.{ℤ, pos, ◌-ℤ◌, ltb_ℤ}
use bybitflow.Orderflow.Types.{Decimal, finite}
use bybitflow.Lifecycle.Signal.{
  Direction, long, short, Classification, favorable_gross, unfavorable_gross, flat_gross,
  estimated_profit, estimated_loss, estimated_flat,
}

-- `(1 if LONG else -1) * (price - entry)`
unfoldable pub gross_move : Direction → ℕ → ℕ → ℤ
gross_move long entry price = pos price -ℤ pos entry
gross_move short entry price = pos entry -ℤ pos price

abbrev pub by_sign : ℤ → Classification → Classification → Classification → Classification
by_sign z up down flat = if ltb_ℤ (pos 0) z then up else if ltb_ℤ z (pos 0) then down else flat

-- The price has moved by more than `c` in the plan's favour.
abbrev pub Gains : Direction → ℕ → ℕ → ℕ → Type 0
Gains long entry price c = entry + c < price
Gains short entry price c = price + c < entry

-- The price has moved by less than `c` in the plan's favour.
abbrev pub FallsShort : Direction → ℕ → ℕ → ℕ → Type 0
FallsShort long entry price c = price < entry + c
FallsShort short entry price c = entry < price + c

-- What a class of result says of the prices: the net classes against the frozen cost, the gross
-- ones only of the move itself.
abbrev pub Says : Direction → ℕ → ℕ → Option Decimal → Classification → Type 0
Says d entry price cost favorable_gross = Gains d entry price 0
Says d entry price cost unfavorable_gross = FallsShort d entry price 0
Says d entry price cost flat_gross = price ≡ entry
Says d entry price cost estimated_profit =
    (c : ℕ) × (cost ≡ some (finite (pos c))) × Gains d entry price c
Says d entry price cost estimated_loss =
    (c : ℕ) × (cost ≡ some (finite (pos c))) × FallsShort d entry price c
Says d entry price cost estimated_flat =
    (c : ℕ) × (cost ≡ some (finite (pos c)))
    × (¬ Gains d entry price c)
    × (¬ FallsShort d entry price c)

pub gross-Says :
    (d : Direction) (entry price : ℕ) (cost : Option Decimal)
    → Says d entry price cost
        (by_sign (gross_move d entry price) favorable_gross unfavorable_gross flat_gross)
unfolding gross_move ◌-ℤ◌
gross-Says long entry price cost = ground arith
gross-Says short entry price cost = ground arith

by_sign-elim :
    (z : ℤ) (P : Classification → Type 0) (up down flat : Classification)
    → (ltb_ℤ (pos 0) z ≡ true → P up)
    → (ltb_ℤ z (pos 0) ≡ true → P down)
    → (ltb_ℤ (pos 0) z ≡ false → ltb_ℤ z (pos 0) ≡ false → P flat)
    → P (by_sign z up down flat)
by_sign-elim z P up down flat u d f = elim (Bool-cases (ltb_ℤ (pos 0) z)) [
  | inl e ↦ rw e (u e)
  | inr e ↦ elim (Bool-cases (ltb_ℤ z (pos 0))) [
    | inl e' ↦ rw (e, e') (d e')
    | inr e' ↦ rw (e, e') (f e e')
  ]
]

net-Gains :
    (d : Direction) (entry price c : ℕ)
    → ltb_ℤ (pos 0) (gross_move d entry price -ℤ pos c) ≡ true
    → Gains d entry price c
unfolding gross_move ◌-ℤ◌
net-Gains long entry price c h = ground arith
net-Gains short entry price c h = ground arith

net-FallsShort :
    (d : Direction) (entry price c : ℕ)
    → ltb_ℤ (gross_move d entry price -ℤ pos c) (pos 0) ≡ true
    → FallsShort d entry price c
unfolding gross_move ◌-ℤ◌
net-FallsShort long entry price c h = ground arith
net-FallsShort short entry price c h = ground arith

net-flat :
    (d : Direction) (entry price c : ℕ)
    → ltb_ℤ (pos 0) (gross_move d entry price -ℤ pos c) ≡ false
    → ltb_ℤ (gross_move d entry price -ℤ pos c) (pos 0) ≡ false
    → (¬ Gains d entry price c) × (¬ FallsShort d entry price c)
unfolding gross_move ◌-ℤ◌
net-flat long entry price c h k = (λ g. ground arith, λ g. ground arith)
net-flat short entry price c h k = (λ g. ground arith, λ g. ground arith)

pub net-Says :
    (d : Direction) (entry price c : ℕ)
    → Says d entry price
        (some (finite (pos c)))
        (by_sign (gross_move d entry price -ℤ pos c) estimated_profit estimated_loss estimated_flat)
net-Says d entry price c =
    by_sign-elim (gross_move d entry price -ℤ pos c) (Says d entry price (some (finite (pos c))))
      estimated_profit estimated_loss estimated_flat (λ h. (c, refl, net-Gains d entry price c h))
      (λ h. (c, refl, net-FallsShort d entry price c h))
      (λ h k. let (a, b) = net-flat d entry price c h k in (c, refl, a, b))
