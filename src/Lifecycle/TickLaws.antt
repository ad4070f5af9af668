-- ===== src/Lifecycle/TickLaws.antt =====
-- What one pass of `tick` makes of the active plans.
use bybitflow.Prelude.{
  ℕ, ◌+◌, ◌≤◌, ◌≡◌, refl, sym, subst, ap, ◌∙◌, Bool, true, false, not, ◌||◌, ◌&&◌, none, some, List,
  [], ◌∷◌, arith, leb, if◌then◌else◌, length, Bool-cases, Option-cases, inl, inr, ◌⊎◌,
}
use bybitflow.Orderflow.Types.{Trade}
use bybitflow.Orderflow.Tape.State.{Tape}
use bybitflow.Lifecycle.Signal.{
  Signal, State, MonitorStatus, expired, resolved, invalidated, is_alerted, is_terminal, deadline,
  source_unavailable,
}
use bybitflow.Lifecycle.Trades.{advance_trades, path}
use bybitflow.Lifecycle.TradeLaws.{
  Verdict, remained, finished, by_stop, by_target, View, view, advance_trades-Verdict,
}
use bybitflow.Lifecycle.Causality.{Plan, plan, advance_trades-causal}
use bybitflow.Lifecycle.Tick.{
  Settings, Feed, has_gap, tape_fresh, trades_of, paused, expire, expire_if_due, with_status,
  read_tape, track, tick_all, is_fresh, is_missing, one_if,
}

-- How one pass may move the state of an active plan.
pub data Moves : State → State → Type 0 where
  stay : {a b : State} → b ≡ a → Moves a b
  invalidate : {a b : State} → b ≡ invalidated → Moves a b
  resolve : {a b : State} → is_alerted a ≡ true → b ≡ resolved → Moves a b
  lapse : {a b : State} → b ≡ expired → Moves a b

Verdict-Moves :
    (s w : Signal) (now limit : ℕ) (ts : List Trade)
    → Verdict (view s) now limit ts w
    → Moves s.state w.state
Verdict-Moves s w now limit ts (remained cs v) = stay (ap (λ (p : View). p.state) v)
Verdict-Moves s w now limit ts (finished b a t e cs k (by_stop h v)) =
    invalidate (ap (λ (p : View). p.state) v)
Verdict-Moves s w now limit ts (finished b a t e cs k (by_target h i j l m v)) =
    resolve j (ap (λ (p : View). p.state) v)

-- A plan that `advance_trades` leaves open keeps its deadline.
deadline_of : Plan → State → ℕ
deadline_of p st =
    if is_alerted st
    then bybitflow.Lifecycle.Signal.or_else p.holding_deadline_ms p.expires_ms
    else bybitflow.Lifecycle.Signal.or_else p.trigger_expires_ms p.expires_ms

deadline-same : (s w : Signal) → plan w ≡ plan s → w.state ≡ s.state → deadline w ≡ deadline s
unfolding deadline_of
deadline-same s w p e = ap (λ q. deadline_of q w.state) p ∙ ap (deadline_of (plan s)) e

module _ (c : Settings) (now : ℕ) where
  expired-Moves :
      (usable : Bool) (s w : Signal)
      → Moves s.state w.state
      → plan w ≡ plan s
      → Moves s.state (expire_if_due c now usable w).state
        × (plan (expire_if_due c now usable w) ≡ plan s)
  unfolding expire_if_due expire
  expired-Moves usable s w m p =
      elim (Bool-cases (not (is_terminal w.state) && leb (deadline w) now)) [
        | inl e ↦ rw e (lapse refl, p)
        | inr e ↦ rw e (m, p)
      ]

  due_expires :
      (usable : Bool) (w : Signal)
      → deadline w ≤ now
      → is_terminal (expire_if_due c now usable w).state ≡ true
  unfolding expire_if_due expire
  due_expires usable w h = elim (Bool-cases (not (is_terminal w.state) && leb (deadline w) now)) [
    | inl e ↦ rw e refl
    | inr e ↦ rw e (ground arith)
  ]

  terminal_stays :
      (usable : Bool) (w : Signal)
      → is_terminal w.state ≡ true
      → is_terminal (expire_if_due c now usable w).state ≡ true
  unfolding expire_if_due expire
  terminal_stays usable w h =
      elim (Bool-cases (not (is_terminal w.state) && leb (deadline w) now)) [
        | inl e ↦ rw e refl
        | inr e ↦ rw e h
      ]

  moved_ends :
      (usable : Bool) (s w : Signal)
      → Moves s.state w.state
      → plan w ≡ plan s
      → deadline s ≤ now
      → is_terminal (expire_if_due c now usable w).state ≡ true
  moved_ends usable s w (stay e) p h =
      due_expires usable w (subst (λ d. d ≤ now) (sym (deadline-same s w p e)) h)
  moved_ends usable s w (invalidate e) p h = terminal_stays usable w (rw e refl)
  moved_ends usable s w (resolve k e) p h = terminal_stays usable w (rw e refl)
  moved_ends usable s w (lapse e) p h = terminal_stays usable w (rw e refl)

counted_once :
    (b m : Bool) → m ≡ false → (one_if b + 0 + one_if (not b && not m) ≡ 1) × (one_if m ≡ 0)
counted_once true false h = (refl, refl)
counted_once false false h = (refl, refl)
counted_once b true h = cc

module _ {E : Type 0} (c : Settings) (now : ℕ) (healthy : Bool) where
  -- A plan whose tape is read has a tape.
  tape_there :
      (f : Feed E) (s : Signal)
      → (f.pending || has_gap f.tape s) ≡ false
      → is_missing c now healthy f ≡ false
  tape_there f s e = elim (Option-cases f.tape) [ inl n ↦ ground arith | inr (t, n) ↦ rw n refl ]

  -- The plan after its trades were read, if its tape is fresh.
  abbrev advanced : Feed E → Signal → Signal
  advanced f s = if tape_fresh c now f.tape then trades_of f.tape s now else s

  advanced-Moves :
      (f : Feed E) (s : Signal)
      → Moves s.state (advanced f s).state × (plan (advanced f s) ≡ plan s)
  advanced-Moves f s = elim (Bool-cases (tape_fresh c now f.tape)) [
    | inl e ↦ rw e (read (Option-cases f.tape))
    | inr e ↦ rw e (stay refl, refl)
  ]
    where
      read :
          (f.tape ≡ none) ⊎ ((t : Tape E) × (f.tape ≡ some t))
          → Moves s.state (trades_of f.tape s now).state × (plan (trades_of f.tape s now) ≡ plan s)
      read (inl e) = rw e (stay refl, refl)
      read (inr (t, e)) = rw e (
        Verdict-Moves s (advance_trades s t.trades now) now (deadline s) (path s t.trades)
            (advance_trades-Verdict s t.trades now),
        (advance_trades-causal s t.trades now).0,
      )

  -- In one pass a plan keeps its state, is invalidated, is resolved if it was alerted, or expires;
  -- and nothing of the published plan changes.
  pub track-Moves :
      (f : Feed E) (s : Signal)
      → Moves s.state (track c now healthy f s).signal.state
        × (plan (track c now healthy f s).signal ≡ plan s)
  unfolding track paused read_tape
  track-Moves f s = elim (Bool-cases (f.pending || has_gap f.tape s)) [
    | inl e ↦ rw e (stay refl, refl)
    | inr e ↦ rw e (
        let (m, p) = advanced-Moves f s in
        expired-Moves c now (is_fresh c now healthy f) s
          (with_status (is_fresh c now healthy f) (is_missing c now healthy f) (advanced f s)) m p)
  ]

  -- An active plan whose tape is read at or after its deadline has ended after the pass, and a plan
  -- that waits for reconciliation keeps its state, its reason, all of its evidence and the published
  -- plan.
  pub track_ends :
      (f : Feed E) (s : Signal)
      → ((track c now healthy f s).pending ≡ false
          → deadline s ≤ now
          → is_terminal (track c now healthy f s).signal.state ≡ true)
        × ((track c now healthy f s).pending ≡ true
            → (view (track c now healthy f s).signal ≡ view s)
              × ((track c now healthy f s).signal.evidence ≡ s.evidence)
              × (plan (track c now healthy f s).signal ≡ plan s))
  unfolding track paused read_tape
  track_ends f s = elim (Bool-cases (f.pending || has_gap f.tape s)) [
    | inl e ↦ rw e (λ k. cc, λ k. (refl, refl, refl))
    | inr e ↦ rw e (
      λ k h.
          moved_ends c now (is_fresh c now healthy f) s
            (with_status (is_fresh c now healthy f) (is_missing c now healthy f) (advanced f s))
            (advanced-Moves f s).0 (advanced-Moves f s).1 h,
      λ k. cc,
    )
  ]

  -- Each plan is counted once, and never as unavailable: a plan without a tape waits for
  -- reconciliation.
  track_counts :
      (f : Feed E) (s : Signal)
      → let n = (track c now healthy f s).counts in
        (n.ready + n.pending + n.stale ≡ 1) × (n.unavailable ≡ 0)
  unfolding track
  track_counts f s = elim (Bool-cases (f.pending || has_gap f.tape s)) [
    | inl e ↦ rw e (refl, refl)
    | inr e ↦ rw e (counted_once (is_fresh c now healthy f) _ (tape_there f s e))
  ]

-- One pass counts every active plan once, as ready, waiting for reconciliation or stale, and none
-- as unavailable; it writes every plan back once.
pub tick_all_counts :
    {E : Type 0} (c : Settings) (now : ℕ) (healthy : Bool) (plans : List (Feed E × Signal))
    → let (n, ws) = tick_all c now healthy plans in
      (n.ready + n.pending + n.stale ≡ length plans)
      × (n.unavailable ≡ 0)
      × (length ws ≡ length plans)
unfolding tick_all
tick_all_counts c now healthy [] = (refl, refl, refl)
tick_all_counts c now healthy ((f, s) ∷ rest) =
    let (a, b, d) = tick_all_counts c now healthy rest in
    let (x, y) = track_counts c now healthy f s in (omega arith, omega arith, omega arith)
