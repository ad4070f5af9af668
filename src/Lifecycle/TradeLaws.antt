-- ===== src/Lifecycle/TradeLaws.antt =====
-- How a plan ends on the executed path: at the first trade that crosses its stop, or at its target.
use bybitflow.Prelude.{
  ℕ, ◌≡◌, refl, subst, ap, ◌∙◌, Bool, true, false, ◌&&◌, Option, some, List, [], ◌∷◌, ◌++◌, arith,
  leb, All, Bool-cases, inl, inr, ◌⊎◌,
}
use bybitflow.Orderflow.Types.{Trade}
use bybitflow.Lifecycle.Signal.{
  Direction, Signal, State, HorizonProfile, Outcome, TerminalEvent, Reason, invalidated, resolved,
  stop, target, live_executed_trade, planned_stop_crossed, planned_target_crossed, is_alerted,
  is_legacy, is_some, in_zone, trigger_deadline, deadline, crosses_adverse, reaches,
}
use bybitflow.Lifecycle.Trades.{
  price_of, is_skipped, noted, entered, touched, path, has_entered, stop_hit, is_decisive, ended,
  observe, walk, advance_trades,
}

-- What of a plan decides how it ends, and how it has ended.
pub record View : Type 0 where
  pub direction : Direction
  pub stop : ℕ
  pub tp1 : ℕ
  pub source : ℕ
  pub horizon_profile : HorizonProfile
  pub state : State
  pub invalidation : Reason
  pub terminal_reason : Option Reason
  pub primary_outcome : Option Outcome
  pub terminal_event : Option TerminalEvent

abbrev pub view : Signal → View
view s = record {
  direction = s.direction;
  stop = s.stop;
  tp1 = s.tp1;
  source = s.source;
  horizon_profile = s.horizon_profile;
  state = s.state;
  invalidation = s.invalidation;
  terminal_reason = s.coverage.terminal_reason;
  primary_outcome = s.evidence.primary_outcome;
  terminal_event = s.evidence.terminal_event;
}

pub entered-view : (t : Trade) (s : Signal) → view (entered t s) ≡ view s
unfolding entered
entered-view t s =
    elim (Bool-cases (in_zone s (price_of t.price) && leb t.event_ms (trigger_deadline s))) [
      | inl e ↦ elim (Bool-cases (is_some s.evidence.observed_entry_ms)) [
        | inl f ↦ rw (e, f, entered) refl
        | inr f ↦ rw (e, f, entered) refl
      ]
      | inr e ↦ rw (e, entered) refl
    ]

pub observe-view : (t : Trade) (s : Signal) → view (observe t s) ≡ view s
unfolding noted touched observe entered
observe-view t s = entered-view t (noted t s)

-- The view of a plan that trade `t` ends at its stop, and at its target.
abbrev pub stopped : View → ℕ → Trade → View
stopped p now t = record p {
  state = invalidated;
  invalidation = planned_stop_crossed;
  terminal_reason = some planned_stop_crossed;
  primary_outcome = some stop;
  terminal_event = some (record {
    effective_ms = t.event_ms;
    detected_ms = now;
    event_price = some (price_of t.price);
    reference_price = p.stop;
    source = p.source;
    method = live_executed_trade;
    ambiguous = false;
  });
}

abbrev pub reached : View → ℕ → Trade → View
reached p now t = record p {
  state = resolved;
  invalidation = planned_target_crossed;
  terminal_reason = some planned_target_crossed;
  primary_outcome = some target;
  terminal_event = some (record {
    effective_ms = t.event_ms;
    detected_ms = now;
    event_price = some (price_of t.price);
    reference_price = p.tp1;
    source = p.source;
    method = live_executed_trade;
    ambiguous = false;
  });
}

abbrev pub crosses_stop : View → Trade → Bool
crosses_stop p t = crosses_adverse p.direction p.stop (price_of t.price)

-- Trade `t` is skipped or does not cross the stop.
abbrev pub Clear : View → ℕ → ℕ → Trade → Type 0
Clear p now limit t = is_skipped now limit t ≡ false → crosses_stop p t ≡ false

-- Trade `t` ends the plan `p`, which becomes `w`.
pub data EndsAt (p : View) (now : ℕ) (t : Trade) (w : Signal) : Type 0 where
  by_stop : crosses_stop p t ≡ true → view w ≡ stopped p now t → EndsAt p now t w
  by_target :
      crosses_stop p t ≡ false
      → reaches p.direction p.tp1 (price_of t.price) ≡ true
      → is_alerted p.state ≡ true
      → is_legacy p.horizon_profile ≡ false
      → has_entered w ≡ true
      → view w ≡ reached p now t
      → EndsAt p now t w

-- What became of the plan `p` on the trades `ts`.
pub data Verdict (p : View) (now limit : ℕ) (ts : List Trade) (w : Signal) : Type 0 where
  remained : All (Clear p now limit) ts → view w ≡ p → Verdict p now limit ts w
  finished :
      (before after : List Trade) (t : Trade)
      → ts ≡ before ++ t ∷ after
      → All (Clear p now limit) before
      → is_skipped now limit t ≡ false
      → EndsAt p now t w
      → Verdict p now limit ts w

-- A trade that does not end the plan goes before those that may.
Verdict-cons :
    (p : View) (now limit : ℕ) (t : Trade) (ts : List Trade) (w : Signal)
    → Clear p now limit t
    → Verdict p now limit ts w
    → Verdict p now limit (t ∷ ts) w
Verdict-cons p now limit t ts w c (remained cs v) = remained (c, cs) v
Verdict-cons p now limit t ts w c (finished before after x e cs a d) =
    finished (t ∷ before) after x (ap (λ r. t ∷ r) e) (c, cs) a d

-- Ending a plan at a decisive trade.
ended-EndsAt :
    (p : View) (now : ℕ) (t : Trade) (s : Signal)
    → view s ≡ p
    → is_decisive t s ≡ true
    → EndsAt p now t (ended now t s)
unfolding ended
ended-EndsAt p now t s v d =
    subst (λ q. EndsAt q now t (ended now t s)) v (own (Bool-cases (stop_hit t s)))
  where
    own : (stop_hit t s ≡ true) ⊎ (stop_hit t s ≡ false) → EndsAt (view s) now t (ended now t s)
    own (inl e) = by_stop e (rw (e, ended) refl)
    own (inr e) =
        by_target e (ground arith) (ground arith) (ground arith) (ground arith) (rw (e, ended) refl)

walk-Verdict :
    (p : View) (now limit : ℕ) (ts : List Trade) (s : Signal)
    → view s ≡ p
    → Verdict p now limit ts (walk now limit ts s)
unfolding walk
walk-Verdict p now limit [] s v = remained tt v
walk-Verdict p now limit (t ∷ ts) s v = elim (Bool-cases (is_skipped now limit t)) [
  | inl e ↦
      rw (e, walk)
        (Verdict-cons p now limit t ts (walk now limit ts s) (λ a. cc)
          (walk-Verdict p now limit ts s v))
  | inr e ↦ elim (Bool-cases (is_decisive t (observe t s))) [
    | inl d ↦
        rw (e, d, walk)
          (finished [] ts t refl tt e (ended-EndsAt p now t (observe t s) (observe-view t s ∙ v) d))
    | inr d ↦
        rw (e, d, walk)
          (Verdict-cons p now limit t ts (walk now limit ts (observe t s))
            (λ a. subst (λ q. crosses_stop q t ≡ false) (observe-view t s ∙ v) (ground arith))
            (walk-Verdict p now limit ts (observe t s) (observe-view t s ∙ v)))
  ]
]

-- On the unread path of the tape, with the trades from after `now` or the deadline left out, a plan
-- ends at most at one trade, and no trade before that one crosses the stop. It ends at its stop if
-- the trade crosses that, and else at its target, which asks that the plan is alerted and not of
-- the legacy profile, that an entry is observed and that the trade reaches the target. Its state,
-- reason, outcome and terminal event are then those of that trade. If no trade ends it, none of
-- them crosses the stop, and all of these stay as they were.
pub advance_trades-Verdict :
    (s : Signal) (trades : List Trade) (now : ℕ)
    → Verdict (view s) now (deadline s) (path s trades) (advance_trades s trades now)
unfolding advance_trades
advance_trades-Verdict s trades now =
    touch_monitor (walk-Verdict (view s) now (deadline s) (path s trades) s refl)
  where
    touch_monitor :
        Verdict (view s) now (deadline s) (path s trades) (walk now (deadline s) (path s trades) s)
        → Verdict (view s) now (deadline s) (path s trades) (advance_trades s trades now)
    touch_monitor (remained cs v) = remained cs v
    touch_monitor (finished b a t e cs k (by_stop h v)) = finished b a t e cs k (by_stop h v)
    touch_monitor (finished b a t e cs k (by_target h i j l m v)) =
        finished b a t e cs k (by_target h i j l m v)
