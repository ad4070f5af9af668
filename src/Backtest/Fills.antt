-- ===== src/Backtest/Fills.antt =====
-- A trade keeps the books of a paper position.
use bybitflow.Prelude.{
  ℕ, ◌+◌, ◌-◌, ◌*◌, ◌≤◌, ◌≡◌, refl, sym, subst, ap, ◌∙◌, Bool, true, false, not, ◌&&◌, ◌||◌, Option,
  none, some, List, [], ◌∷◌, ◌++◌, arith, ◌==◌, leb, ltb, if◌then◌else◌, All-append,
}
use bybitflow.Backtest.Position.{
  Setting, ExitReason, missed_fill, Fill, Position, new_position, Trade, is_set, is_unreasoned,
  ready_ms, entry_end_ms, enters, entry_fill, exit_fill, entered, reason_after, ended_ms, exited,
  exit_for, missed, on_trade,
}
use bybitflow.Backtest.Ledger.{
  total, entry_quantity, exit_quantity, entry_cost, exit_proceeds, fee_of, IsTimely, IsEnded,
  IsLedger,
}

total-append :
    (g : Fill → ℕ) (fs : List Fill) (f : Fill) → total g (fs ++ f ∷ []) ≡ total g fs + g f
total-append g [] f = omega arith
total-append g (x ∷ fs) f = omega (arith, total-append g fs f)

pub new-IsLedger : (c : Setting) → IsLedger c new_position
new-IsLedger c = record {
  bounded = (omega arith, omega arith);
  quantities = (refl, refl);
  values = (refl, refl);
  costs = refl;
  timely = tt;
  unreasoned = λ e. refl;
  ended = tt;
}

entered-IsLedger :
    (c : Setting) (t : Trade) (s : Position)
    → IsLedger c s
    → s.exit_ms ≡ none
    → ready_ms c ≤ t.event_ms
    → enters c t s ≡ true
    → IsLedger c (entered c (entry_fill c t s) s)
unfolding entered enters
entered-IsLedger c t s h n r e = record {
  bounded = (omega (arith, h.bounded), omega (arith, h.bounded, p.1.1));
  quantities = (
    total-append entry_quantity s.fills f ∙ ap (λ x. x + f.quantity) h.quantities.0,
    total-append exit_quantity s.fills f
        ∙ (ap (λ x. x + 0) h.quantities.1 ∙ plus_zero s.exited_qty),
  );
  values = (
    total-append entry_cost s.fills f ∙ ap (λ x. x + f.quantity * f.price) h.values.0,
    total-append exit_proceeds s.fills f ∙ (ap (λ x. x + 0) h.values.1 ∙ plus_zero s.exit_value),
  );
  costs = total-append (fee_of c) s.fills f ∙ ap (λ x. x + fee_of c f) h.costs;
  timely = All-append (IsTimely c) s.fills (f ∷ []) h.timely ((r, (λ k. p.0)), tt);
  unreasoned = λ k. h.unreasoned p.1.0;
  ended = subst (λ o. IsEnded (s.quantity + f.quantity) s.exited_qty s.exit_reason o) (sym n) tt;
}
  where
    f : Fill
    f = entry_fill c t s

    plus_zero : (x : ℕ) → x + 0 ≡ x
    plus_zero x = omega arith

    parts :
        (x y q v : ℕ) (u z : Bool)
        → ((leb x y && u) && (ltb q v && z)) ≡ true
        → (x ≤ y) × ((u ≡ true) × (q ≤ v))
    parts x y q v u z k = ground arith

    p :
        (t.event_ms ≤ entry_end_ms c)
        × ((is_unreasoned s.exit_reason ≡ true) × (s.quantity ≤ c.requested_qty))
    p =
        parts t.event_ms (entry_end_ms c) s.quantity c.requested_qty (is_unreasoned s.exit_reason)
          (leb c.zone.0 t.price && leb t.price c.zone.1) e

ended_ms-IsEnded : (q x at : ℕ) (r : ExitReason) → IsEnded q x (some r) (ended_ms (q - x) at none)
unfolding ended_ms
ended_ms-IsEnded q x at r = go (q - x == 0) refl
  where
    nothing_left : (n m : ℕ) → (n - m == 0) ≡ true → n ≤ m
    nothing_left n m k = ground arith

    go : (b : Bool) → (q - x == 0) ≡ b → IsEnded q x (some r) (if b then some at else none)
    go true k = (nothing_left q x k, refl)
    go false k = tt

exited-IsLedger :
    (c : Setting) (t : Trade) (r : ExitReason) (s : Position)
    → IsLedger c s
    → s.exit_ms ≡ none
    → ready_ms c ≤ t.event_ms
    → IsLedger c (exited c (exit_fill c t s) r s)
unfolding exited
exited-IsLedger c t r s h n l = record {
  bounded = (omega (arith, h.bounded), h.bounded.1);
  quantities = (
    total-append entry_quantity s.fills f ∙ (ap (λ x. x + 0) h.quantities.0 ∙ plus_zero s.quantity),
    total-append exit_quantity s.fills f ∙ ap (λ x. x + f.quantity) h.quantities.1,
  );
  values = (
    total-append entry_cost s.fills f ∙ (ap (λ x. x + 0) h.values.0 ∙ plus_zero s.entry_value),
    total-append exit_proceeds s.fills f ∙ ap (λ x. x + f.quantity * f.price) h.values.1,
  );
  costs = total-append (fee_of c) s.fills f ∙ ap (λ x. x + fee_of c f) h.costs;
  timely = All-append (IsTimely c) s.fills (f ∷ []) h.timely ((l, (λ k. cc)), tt);
  unreasoned = λ k. cc;
  ended =
      subst
        (λ o.
          IsEnded s.quantity (s.exited_qty + f.quantity) (some r)
            (ended_ms (s.quantity - (s.exited_qty + f.quantity)) t.event_ms o))
        (sym n) (ended_ms-IsEnded s.quantity (s.exited_qty + f.quantity) t.event_ms r);
}
  where
    f : Fill
    f = exit_fill c t s

    plus_zero : (x : ℕ) → x + 0 ≡ x
    plus_zero x = omega arith

missed-IsLedger :
    (c : Setting) (t : Trade) (s : Position)
    → IsLedger c s
    → s.quantity ≡ 0
    → IsLedger c (missed c t s)
unfolding missed
missed-IsLedger c t s h z = go (ltb (ready_ms c + c.fill_window_ms) t.event_ms)
  where
    gone : s.quantity ≤ s.exited_qty
    gone = omega (arith, z)

    unfilled : s.exited_qty ≡ 0
    unfilled = omega (arith, z, h.bounded)

    go :
        (b : Bool)
        → IsLedger c (
            if b then record s { exit_reason = some missed_fill; exit_ms = some t.event_ms } else s)
    go true = record {
      bounded = h.bounded;
      quantities = h.quantities;
      values = h.values;
      costs = h.costs;
      timely = h.timely;
      unreasoned = λ k. unfilled;
      ended = (gone, refl);
    }
    go false = h

pub on_trade-IsLedger :
    (c : Setting) (t : Trade) (s : Position) → IsLedger c s → IsLedger c (on_trade c t s)
unfolding on_trade exit_for
on_trade-IsLedger c t s h = by_symbol (t.symbol == c.symbol) s.exit_ms refl
  where
    exit_case :
        s.exit_ms ≡ none
        → ready_ms c ≤ t.event_ms
        → (o : Option ExitReason) → IsLedger c (exit_for c t s o)
    exit_case n l none = h
    exit_case n l (some r) = exited-IsLedger c t r s h n l

    by_quantity :
        s.exit_ms ≡ none
        → ready_ms c ≤ t.event_ms
        → (b : Bool) → (s.quantity == 0) ≡ b
        → IsLedger c (if b then missed c t s else exit_for c t s (reason_after c t s.exit_reason))
    by_quantity n l true e = missed-IsLedger c t s h (zero_of s.quantity e)
      where
        zero_of : (q : ℕ) → (q == 0) ≡ true → q ≡ 0
        zero_of q k = ground arith
    by_quantity n l false e = exit_case n l (reason_after c t s.exit_reason)

    by_entry :
        s.exit_ms ≡ none
        → ready_ms c ≤ t.event_ms
        → (b : Bool) → enters c t s ≡ b
        → IsLedger c (
            if b
            then entered c (entry_fill c t s) s
            else if s.quantity == 0
            then missed c t s
            else exit_for c t s (reason_after c t s.exit_reason))
    by_entry n l true e = entered-IsLedger c t s h n l e
    by_entry n l false e = by_quantity n l (s.quantity == 0) refl

    by_time :
        s.exit_ms ≡ none
        → (b : Bool) → ltb t.event_ms (ready_ms c) ≡ b
        → IsLedger c (
            if b
            then s
            else if enters c t s
            then entered c (entry_fill c t s) s
            else if s.quantity == 0
            then missed c t s
            else exit_for c t s (reason_after c t s.exit_reason))
    by_time n true e = h
    by_time n false e = by_entry n (late t.event_ms (ready_ms c) e) (enters c t s) refl
      where
        late : (x y : ℕ) → ltb x y ≡ false → y ≤ x
        late x y k = ground arith

    by_symbol :
        (b : Bool) (o : Option ℕ)
        → s.exit_ms ≡ o
        → IsLedger c (
            if not b || is_set o
            then s
            else if ltb t.event_ms (ready_ms c)
            then s
            else if enters c t s
            then entered c (entry_fill c t s) s
            else if s.quantity == 0
            then missed c t s
            else exit_for c t s (reason_after c t s.exit_reason))
    by_symbol false o e = h
    by_symbol true (some m) e = h
    by_symbol true none e = by_time e (ltb t.event_ms (ready_ms c)) refl
