-- ===== src/Orderflow/Tape/Coverage.antt =====
-- A window of the tape shows every trade that was taken in since the last reset.
use bybitflow.Prelude.{
  ℕ, ◌+◌, ◌≤◌, ◌<◌, ◌≡◌, ◌≢◌, refl, ap, ◌∙◌, sym, ◌&&◌, Option, List, [], ◌∷◌, ◌++◌, arith, ltb,
  leb, select, select-append, All, All-append, All-mono, max,
}
use bybitflow.Orderflow.Types.{Trade}
use bybitflow.Orderflow.Tape.State.{
  Tape, Added, added, duplicate, bad_trade, wrong_tape, out_of_order, bad_features, index_error,
  key_error, new, reset, add, window,
}
use bybitflow.Orderflow.Tape.Invariant.{IsValid}
use bybitflow.Orderflow.Tape.Accept.{Grown, appended, shifted, Outcome, add-Outcome}
use mathlib.Core.List.{append_assoc}

abbrev pub Before : ℕ → List Trade → Type 0
Before cov = All (λ x. x.event_ms < cov)

-- The tape holds all of the history but a first part, which ends before the coverage begins.
pub record Covers (ts : List Trade) (cov : ℕ) (hist : List Trade) : Type 0 where
  pub lost : List Trade
  pub split : hist ≡ lost ++ ts
  pub early : Before cov lost

-- The trades taken in since the last reset, after one more call of `add`.
abbrev pub history : Trade → Added → List Trade → List Trade
history t added hist = hist ++ t ∷ []
history t bad_features hist = hist ++ t ∷ []
history t out_of_order hist = []
history t _ hist = hist

Before-mono : (m n : ℕ) (xs : List Trade) → m ≤ n → Before m xs → Before n xs
Before-mono m n xs h = All-mono (λ (x : Trade). x.event_ms < m) _ (λ x e. omega arith) xs

Grown-Covers :
    {E : Type 0} (s : Tape E) (t : Trade) (ts : List Trade) (cov : ℕ) (hist : List Trade)
    → Grown s t ts cov
    → Covers s.trades s.coverage_start hist
    → Covers ts cov (hist ++ t ∷ [])
Grown-Covers s t ts cov hist (appended fits e f) c = record {
  lost = c.lost;
  split = rw (e, c.split) (append_assoc c.lost s.trades (t ∷ []));
  early = rw f c.early;
}
Grown-Covers s t ts cov hist (shifted x xs e f g) c = record {
  lost = c.lost ++ x ∷ [];
  split = rw f (
      ap (λ h. h ++ t ∷ []) (c.split ∙ ap (λ r. c.lost ++ r) e)
      ∙ append_assoc c.lost (x ∷ xs) (t ∷ [])
      ∙ sym (append_assoc c.lost (x ∷ []) (xs ++ t ∷ [])));
  early = rw g (
      All-append (λ (y : Trade). y.event_ms < max s.coverage_start (x.event_ms + 1)) c.lost (x ∷ [])
        (Before-mono s.coverage_start _ c.lost (omega arith) c.early) (omega arith, tt));
}

select-Before :
    (cov start end : ℕ) (xs : List Trade)
    → cov ≤ start
    → Before cov xs
    → select (λ t. leb start t.event_ms && ltb t.event_ms end) xs ≡ []
select-Before cov start end [] h b = refl
select-Before cov start end (x ∷ xs) h b = ground (arith, select-Before cov start end xs h b.1)

pub Covers-window :
    {E : Type 0} (s : Tape E) (hist : List Trade) (start end : ℕ)
    → Covers s.trades s.coverage_start hist
    → s.coverage_start ≤ start
    → window s start end ≡ select (λ t. leb start t.event_ms && ltb t.event_ms end) hist
unfolding window
Covers-window s hist start end c h =
    rw
      (
        c.split,
        select-append (λ (t : Trade). leb start t.event_ms && ltb t.event_ms end) c.lost s.trades,
        select-Before s.coverage_start start end c.lost h c.early,
      )
      refl

module _ {E : Type 0} (fresh : E) (feed : E → Trade → Option E) where
  -- A tape in use: calls of `add` and `reset` in any order, with the trades that were taken in since
  -- the last reset. A summary that raises ends the use until the caller resets.
  pub data Fed : Tape E → List Trade → Type 0 where
    opened : (cap : ℕ) (owner : Option (ℕ × ℕ)) → 0 < cap → Fed (new fresh cap owner) []
    cleared : {s : Tape E} {hist : List Trade} (at : ℕ) → Fed s hist → Fed (reset fresh at s) []
    offered :
        {s : Tape E} {hist : List Trade} (t : Trade)
        → Fed s hist
        → (add fresh feed s t).0 ≢ bad_features
        → Fed (add fresh feed s t).1 (history t (add fresh feed s t).0 hist)

  pub reset-IsValid : (at : ℕ) (s : Tape E) → IsValid s → IsValid (reset fresh at s)
  unfolding reset
  reset-IsValid at s v = record {
    room = v.room;
    bounded = omega arith;
    keyed = refl;
    distinct = tt;
    ordered = tt;
    timely = tt;
  }

  reset-Covers :
      (at : ℕ) (s : Tape E) → Covers (reset fresh at s).trades (reset fresh at s).coverage_start []
  unfolding reset
  reset-Covers at s = record { lost = []; split = refl; early = tt }

  -- Both invariants after a call whose outcome is known.
  outcome_keeps :
      (s : Tape E) (t : Trade) (hist : List Trade) (r : Added) (s' : Tape E)
      → Outcome fresh feed s t (r, s')
      → r ≢ bad_features
      → IsValid s
      → Covers s.trades s.coverage_start hist
      → IsValid s' × Covers s'.trades s'.coverage_start (history t r hist)
  outcome_keeps s t hist added s' o n v c = (o.0, Grown-Covers s t _ _ hist o.1 c)
  outcome_keeps s t hist duplicate s' o n v c = rw o.0 (v, c)
  outcome_keeps s t hist bad_trade s' o n v c = rw o.0 (v, c)
  outcome_keeps s t hist wrong_tape s' o n v c = rw o.0 (v, c)
  outcome_keeps s t hist out_of_order s' o n v c =
      rw o.0 (reset-IsValid t.receipt_ms s v, reset-Covers t.receipt_ms s)
  outcome_keeps s t hist bad_features s' o n v c = absurd (n refl)
  outcome_keeps s t hist index_error s' o n v c = absurd o
  outcome_keeps s t hist key_error s' o n v c = absurd o

  pub Fed-keeps :
      {s : Tape E} {hist : List Trade}
      → Fed s hist
      → IsValid s × Covers s.trades s.coverage_start hist
  unfolding new
  Fed-keeps (opened cap owner h) = (
    record {
      room = h;
      bounded = omega arith;
      keyed = refl;
      distinct = tt;
      ordered = tt;
      timely = tt;
    },
    record { lost = []; split = refl; early = tt },
  )
  Fed-keeps (cleared {s} at f) = (reset-IsValid at s (Fed-keeps f).0, reset-Covers at s)
  Fed-keeps (offered {s} {hist} t f n) =
      let (v, c) = Fed-keeps f in
      outcome_keeps s t hist (add fresh feed s t).0 (add fresh feed s t).1
        (add-Outcome fresh feed s t v) n v c

  -- In any use of a tape, a window that begins at or after the coverage start shows exactly the
  -- trades of that window that were taken in since the last reset, in order, although the bounded
  -- tape may have dropped older ones.
  pub Fed-window :
      {s : Tape E} {hist : List Trade} (start end : ℕ)
      → Fed s hist
      → s.coverage_start ≤ start
      → window s start end ≡ select (λ t. leb start t.event_ms && ltb t.event_ms end) hist
  Fed-window {s} {hist} start end f h = Covers-window s hist start end (Fed-keeps f).1 h
