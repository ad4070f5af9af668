-- ===== src/Backtest/Result.antt =====
-- The end of a paper position and its net result.
use bybitflow.Prelude.{
  ℕ, ◌-◌, ◌*◌, ◌≤◌, ◌≡◌, refl, sym, subst, ap, ◌∙◌, Bool, true, false, not, ◌&&◌, ◌||◌, Option,
  none, some, List, [], ◌∷◌, arith, ◌==◌, ltb, if◌then◌else◌,
}
use bybitflow.Prelude.Int.{ℤ, pos, sub_ℕ, ◌-ℤ◌}
use bybitflow.Backtest.Position.{
  Setting, Position, new_position, is_set, remaining, on_trade, on_funding, on_mark, is_stressed,
  sign_of, ready_ms, enters, entered, entry_fill, missed, exit_for, reason_after,
}
use bybitflow.Backtest.Outcome.{
  Event, trade, fund, mark_price, gap, handle, handle_all, is_complete, is_clean, net_pnl,
}
use bybitflow.Backtest.Books.{with_funding-IsLedger, paper-IsLedger}
use bybitflow.Backtest.Ledger.{
  total, entry_quantity, exit_quantity, entry_cost, exit_proceeds, fee_of, IsLedger, IsEnded,
}

-- A position that has ended, up to its gaps.
abbrev with_gaps : Position → List ℕ → Position
with_gaps s gs = record s { data_gaps = gs }

nothing_left :
    (c : Setting) (s : Position) (t : ℕ)
    → IsLedger c s
    → s.exit_ms ≡ some t
    → (remaining s == 0) ≡ true
nothing_left c s t h e = zero_left s.quantity s.exited_qty (bound s.exit_ms e h.ended)
  where
    bound :
        (o : Option ℕ)
        → o ≡ some t
        → IsEnded s.quantity s.exited_qty s.exit_reason o
        → s.quantity ≤ s.exited_qty
    bound none f k = cc
    bound (some x) f k = k.0

    zero_left : (n m : ℕ) → n ≤ m → (n - m == 0) ≡ true
    zero_left n m k = ground arith

closed_funding :
    (a b z : Bool) (x y : Position) → b ≡ true → (if (a && not b) && z then x else y) ≡ y
closed_funding true true z x y e = refl
closed_funding true false z x y e = cc
closed_funding false b z x y e = refl

closed_mark : (b z : Bool) (x y : Position) → b ≡ true → (if not b && z then x else y) ≡ y
closed_mark true z x y e = refl
closed_mark false z x y e = cc

handle_ended :
    (c : Setting) (e : Event) (s : Position) (t : ℕ)
    → IsLedger c s
    → s.exit_ms ≡ some t
    → (gs : List ℕ) × (handle c e s ≡ with_gaps s gs)
unfolding handle on_trade on_funding on_mark
handle_ended c (trade x) s t h e = (s.data_gaps, unchanged (x.symbol == c.symbol) s.exit_ms e)
  where
    unchanged :
        (b : Bool) (o : Option ℕ)
        → o ≡ some t
        → (if not b || is_set o
            then s
            else if ltb x.event_ms (ready_ms c)
            then s
            else if enters c x s
            then entered c (entry_fill c x s) s
            else if s.quantity == 0
            then missed c x s
            else exit_for c x s (reason_after c x s.exit_reason))
          ≡ s
    unchanged false o f = refl
    unchanged true none f = cc
    unchanged true (some y) f = refl
handle_ended c (fund at rate mark) s t h e = (
  s.data_gaps,
  closed_funding (not (s.quantity == 0)) (remaining s == 0) _ _ s (nothing_left c s t h e),
)
handle_ended c (mark_price mark leverage maintenance) s t h e = (
  s.data_gaps,
  closed_mark (remaining s == 0) (is_stressed c mark leverage maintenance s) _ s
      (nothing_left c s t h e),
)
handle_ended c (gap g) s t h e = (g ∷ s.data_gaps, refl)

-- From the end of a position on, whatever comes changes nothing of it but the list of its gaps.
pub handle_all_ended :
    (c : Setting) (es : List Event) (s : Position) (t : ℕ)
    → IsLedger c s
    → s.exit_ms ≡ some t
    → (gs : List ℕ) × (handle_all c es s ≡ record s { data_gaps = gs })
unfolding handle_all
handle_all_ended c [] s t h e = (s.data_gaps, refl)
handle_all_ended c (x ∷ es) s t h e =
    go (λ gs k. handle_all_ended c es (with_gaps s gs) t k e) (handle_ended c x s t h e)
  where
    go :
        ((gs : List ℕ)
          → IsLedger c (with_gaps s gs)
          → (ks : List ℕ) × (handle_all c es (with_gaps s gs) ≡ with_gaps s ks))
        → (gs : List ℕ) × (handle c x s ≡ with_gaps s gs)
        → (gs : List ℕ) × (handle_all c es (handle c x s) ≡ with_gaps s gs)
    go ih (gs, f) =
        let k : IsLedger c (with_gaps s gs) =
          with_funding-IsLedger c s s.funding s.funding_timestamps gs h in
        let n = ih gs k in (n.0, ap (λ y. handle_all c es y) f ∙ n.1)

-- The position has an end, something was bought, and its data has no gaps.
abbrev pub IsFinished : Position → Type 0
IsFinished s =
    ((t : ℕ) × (s.exit_ms ≡ some t)) × (1 ≤ total entry_quantity s.fills) × (s.data_gaps ≡ [])

-- Where `outcome` gives a net result, the position has its end, entered with something, given up
-- all that it held and met no gap of its data, and the result is what the exits brought less what the entries cost, for a short position the other
-- way round, less the fees of all fills and the funding.
pub net_pnl_of_fills :
    (c : Setting) (es : List Event) (v : ℤ)
    → net_pnl c (handle_all c es new_position) ≡ some v
    → IsFinished (handle_all c es new_position)
      × (total exit_quantity (handle_all c es new_position).fills
          ≡ total entry_quantity (handle_all c es new_position).fills)
      × (v
          ≡ sign_of c (
              sub_ℕ
                (total exit_proceeds (handle_all c es new_position).fills * c.unit)
                (total entry_cost (handle_all c es new_position).fills * c.unit))
            -ℤ pos (total (fee_of c) (handle_all c es new_position).fills)
            -ℤ (handle_all c es new_position).funding)
unfolding net_pnl is_complete
net_pnl_of_fills c es v e =
    by_complete (handle_all c es new_position) (paper-IsLedger c es)
      (is_complete (handle_all c es new_position)) refl e
  where
    same_value : {a : ℤ} → some a ≡ some v → v ≡ a
    same_value k = cc

    by_complete :
        (s : Position)
        → IsLedger c s
        → (b : Bool) → is_complete s ≡ b
        → (if b
            then some (
                sign_of c (sub_ℕ (s.exit_value * c.unit) (s.entry_value * c.unit))
                -ℤ pos s.fees
                -ℤ s.funding)
            else none)
          ≡ some v
        → IsFinished s
          × (total exit_quantity s.fills ≡ total entry_quantity s.fills)
          × (v
              ≡ sign_of c
                  (sub_ℕ (total exit_proceeds s.fills * c.unit) (total entry_cost s.fills * c.unit))
                -ℤ pos (total (fee_of c) s.fills)
                -ℤ s.funding)
    by_complete s h false f k = cc
    by_complete s h true f k = (
      finished s f h.quantities.0,
      h.quantities.1
          ∙ (flat s.quantity s.exited_qty h.bounded.0 (all_out s f) ∙ sym h.quantities.0),
      same_value k ∙ sums s h,
    )
      where
        finished :
            (x : Position)
            → is_complete x ≡ true
            → total entry_quantity x.fills ≡ x.quantity
            → IsFinished x
        finished x g q = (
          set_time x.exit_ms (parts x.exit_ms x.quantity x.data_gaps (remaining x == 0) g).0,
          subst (λ n. 1 ≤ n) (sym q)
              (parts x.exit_ms x.quantity x.data_gaps (remaining x == 0) g).1.0,
          clean x.data_gaps (parts x.exit_ms x.quantity x.data_gaps (remaining x == 0) g).1.1,
        )
          where
            parts :
                (o : Option ℕ) (n : ℕ) (gs : List ℕ) (b : Bool)
                → ((is_set o && not (n == 0)) && (b && is_clean gs)) ≡ true
                → (is_set o ≡ true) × ((1 ≤ n) × (is_clean gs ≡ true))
            parts o n gs b j = (ground arith, (ground arith, ground arith))

            set_time : (o : Option ℕ) → is_set o ≡ true → (t : ℕ) × (o ≡ some t)
            set_time none j = cc
            set_time (some t) j = (t, refl)

            clean : (gs : List ℕ) → is_clean gs ≡ true → gs ≡ []
            clean [] j = refl
            clean (x ∷ gs) j = cc

        all_out : (x : Position) → is_complete x ≡ true → (remaining x == 0) ≡ true
        all_out x g =
            parts (is_set x.exit_ms && not (x.quantity == 0)) (remaining x == 0)
              (is_clean x.data_gaps) (complete x g)
          where
            parts : (p q r : Bool) → (p && (q && r)) ≡ true → q ≡ true
            parts p q r j = ground arith

            complete :
                (y : Position)
                → is_complete y ≡ true
                → ((is_set y.exit_ms && not (y.quantity == 0))
                    && ((remaining y == 0) && is_clean y.data_gaps))
                  ≡ true
            complete y j = j

        flat : (n m : ℕ) → m ≤ n → (n - m == 0) ≡ true → m ≡ n
        flat n m a g = ground arith

        sums :
            (x : Position)
            → IsLedger c x
            → sign_of c (sub_ℕ (x.exit_value * c.unit) (x.entry_value * c.unit))
                -ℤ pos x.fees
                -ℤ x.funding
              ≡ sign_of c
                  (sub_ℕ (total exit_proceeds x.fills * c.unit) (total entry_cost x.fills * c.unit))
                -ℤ pos (total (fee_of c) x.fills)
                -ℤ x.funding
        sums x g = sym (
            ap
              (λ a.
                sign_of c (sub_ℕ (a * c.unit) (total entry_cost x.fills * c.unit))
                -ℤ pos (total (fee_of c) x.fills)
                -ℤ x.funding)
              g.values.1
            ∙ (ap
                  (λ a.
                    sign_of c (sub_ℕ (x.exit_value * c.unit) (a * c.unit))
                    -ℤ pos (total (fee_of c) x.fills)
                    -ℤ x.funding)
                  g.values.0
                ∙ ap
                    (λ a.
                      sign_of c (sub_ℕ (x.exit_value * c.unit) (x.entry_value * c.unit))
                      -ℤ pos a
                      -ℤ x.funding)
                    g.costs))
