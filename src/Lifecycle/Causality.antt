-- ===== src/Lifecycle/Causality.antt =====
-- What monitoring may change of a plan, and from which trades an entry comes.
use bybitflow.Prelude.{
  ℕ, ◌≤◌, ◌≡◌, refl, sym, subst, ◌∙◌, Bool, true, false, ◌&&◌, Option, none, some, List, [], ◌∷◌,
  Memᴰ, arith, leb, Bool-cases, Option-cases, inl, inr,
}
use bybitflow.Orderflow.Types.{Decimal, Trade}
use bybitflow.Lifecycle.Signal.{
  Direction, Signal, HorizonProfile, is_some, set_default, in_zone, trigger_deadline, deadline,
}
use bybitflow.Lifecycle.Trades.{
  price_of, is_skipped, noted, entered, touched, is_decisive, ended, observe, walk, path,
  advance_trades,
}

-- The published plan: what monitoring never changes.
pub record Plan : Type 0 where
  pub id : ℕ
  pub symbol : ℕ
  pub direction : Direction
  pub created_ms : ℕ
  pub expires_ms : ℕ
  pub source : ℕ
  pub horizon_profile : HorizonProfile
  pub trigger_expires_ms : Option ℕ
  pub holding_deadline_ms : Option ℕ
  pub entry : ℕ
  pub zone : ℕ × ℕ
  pub stop : ℕ
  pub tp1 : ℕ
  pub tp2 : ℕ
  pub cost_per_base : Option Decimal

abbrev pub plan : Signal → Plan
plan s = record {
  id = s.id;
  symbol = s.symbol;
  direction = s.direction;
  created_ms = s.created_ms;
  expires_ms = s.expires_ms;
  source = s.source;
  horizon_profile = s.horizon_profile;
  trigger_expires_ms = s.trigger_expires_ms;
  holding_deadline_ms = s.holding_deadline_ms;
  entry = s.entry;
  zone = s.zone;
  stop = s.stop;
  tp1 = s.tp1;
  tp2 = s.tp2;
  cost_per_base = s.cost_per_base;
}

entered-plan : (t : Trade) (s : Signal) → plan (entered t s) ≡ plan s
unfolding entered
entered-plan t s =
    elim (Bool-cases (in_zone s (price_of t.price) && leb t.event_ms (trigger_deadline s))) [
      | inl e ↦ elim (Bool-cases (is_some s.evidence.observed_entry_ms)) [
        | inl f ↦ rw (e, f, entered) refl
        | inr f ↦ rw (e, f, entered) refl
      ]
      | inr e ↦ rw (e, entered) refl
    ]

observe-plan : (t : Trade) (s : Signal) → plan (observe t s) ≡ plan s
unfolding noted touched observe entered
observe-plan t s = entered-plan t (noted t s)

walk-plan : (now limit : ℕ) (ts : List Trade) (s : Signal) → plan (walk now limit ts s) ≡ plan s
unfolding walk ended
walk-plan now limit [] s = refl
walk-plan now limit (t ∷ ts) s = elim (Bool-cases (is_skipped now limit t)) [
  | inl e ↦ rw (e, walk) (walk-plan now limit ts s)
  | inr e ↦ elim (Bool-cases (is_decisive t (observe t s))) [
    | inl d ↦ rw (e, d, walk) (observe-plan t s)
    | inr d ↦ rw (e, d, walk) (walk-plan now limit ts (observe t s) ∙ observe-plan t s)
  ]
]

-- The plan's trigger deadline and zone, read off the plan.
abbrev pub trigger_of : Plan → ℕ
trigger_of p = bybitflow.Lifecycle.Signal.or_else p.trigger_expires_ms p.expires_ms

abbrev pub zone_holds : Plan → ℕ → Bool
zone_holds p price = leb p.zone.0 price && leb price p.zone.1

-- How the observed entry of `w` comes from that of `s`: it is the same, or `s` had none and the
-- entry is the time, price and id of one of the trades `ts`, which lies in the zone, was there at
-- `now` and happened by the trigger deadline.
pub data EntryFrom (p : Plan) (now : ℕ) (ts : List Trade) (s w : Signal) : Type 0 where
  same :
      w.evidence.observed_entry_ms ≡ s.evidence.observed_entry_ms
      → w.evidence.observed_entry_price ≡ s.evidence.observed_entry_price
      → w.evidence.observed_entry_trade_id ≡ s.evidence.observed_entry_trade_id
      → EntryFrom p now ts s w
  first :
      (t : Trade)
      → Memᴰ t ts
      → s.evidence.observed_entry_ms ≡ none
      → w.evidence.observed_entry_ms ≡ some t.event_ms
      → w.evidence.observed_entry_price ≡ some (price_of t.price)
      → w.evidence.observed_entry_trade_id ≡ some t.trade_id
      → (t.event_ms ≤ now) × (t.receipt_ms ≤ now)
      → t.event_ms ≤ trigger_of p
      → zone_holds p (price_of t.price) ≡ true
      → EntryFrom p now ts s w

EntryFrom-trans :
    (p : Plan) (now : ℕ) (ts : List Trade) (s m w : Signal)
    → EntryFrom p now ts s m
    → EntryFrom p now ts m w
    → EntryFrom p now ts s w
EntryFrom-trans p now ts s m w (same a b k) (same c d l) = same (c ∙ a) (d ∙ b) (l ∙ k)
EntryFrom-trans p now ts s m w (same a b k) (first t x n e f g h i j) =
    first t x (sym a ∙ n) e f g h i j
EntryFrom-trans p now ts s m w (first t x n e f g h i j) (same c d l) =
    first t x n (c ∙ e) (d ∙ f) (l ∙ g) h i j
EntryFrom-trans p now ts s m w (first t x n e f g h i j) (first t' x' n' e' f' g' h' i' j') =
    absurd (ground arith)

-- More trades.
EntryFrom-cons :
    (p : Plan) (now : ℕ) (t : Trade) (ts : List Trade) (s w : Signal)
    → EntryFrom p now ts s w
    → EntryFrom p now (t ∷ ts) s w
EntryFrom-cons p now t ts s w (same a b k) = same a b k
EntryFrom-cons p now t ts s w (first u x n e f g h i j) = first u (Memᴰ.tail x) n e f g h i j

entered-EntryFrom :
    (now : ℕ) (t : Trade) (ts : List Trade) (s : Signal)
    → (t.event_ms ≤ now) × (t.receipt_ms ≤ now)
    → EntryFrom (plan s) now (t ∷ ts) s (entered t s)
unfolding entered
entered-EntryFrom now t ts s h =
    elim (Bool-cases (in_zone s (price_of t.price) && leb t.event_ms (trigger_deadline s))) [
      | inl e ↦ elim (Option-cases s.evidence.observed_entry_ms) [
        | inl n ↦
            let k : is_some s.evidence.observed_entry_ms ≡ false = rw n refl in
            rw (e, k, entered)
              (first t (Memᴰ.head refl) n refl refl refl h (ground arith) (ground arith))
        | inr (a, n) ↦
            let k : is_some s.evidence.observed_entry_ms ≡ true = rw n refl in
            rw (e, k, entered) (same refl refl refl)
      ]
      | inr e ↦ rw (e, entered) (same refl refl refl)
    ]

observe-EntryFrom :
    (p : Plan) (now : ℕ) (t : Trade) (ts : List Trade) (s : Signal)
    → plan s ≡ p
    → (t.event_ms ≤ now) × (t.receipt_ms ≤ now)
    → EntryFrom p now (t ∷ ts) s (observe t s)
unfolding noted touched observe entered
observe-EntryFrom p now t ts s e h =
    subst (λ q. EntryFrom q now (t ∷ ts) s (observe t s)) e
      (elim (entered-EntryFrom now t ts (noted t s) h) [
        | same a b k ↦ same a b k
        | first t' x n e' f g h' i j ↦ first t' x n e' f g h' i j
      ])

walk-EntryFrom :
    (p : Plan) (now limit : ℕ) (ts : List Trade) (s : Signal)
    → plan s ≡ p
    → EntryFrom p now ts s (walk now limit ts s)
unfolding walk ended
walk-EntryFrom p now limit [] s e = same refl refl refl
walk-EntryFrom p now limit (t ∷ ts) s e = elim (Bool-cases (is_skipped now limit t)) [
  | inl k ↦ rw (k, walk) (EntryFrom-cons p now t ts s _ (walk-EntryFrom p now limit ts s e))
  | inr k ↦ elim (Bool-cases (is_decisive t (observe t s))) [
    | inl d ↦
        rw (k, d, walk)
          (EntryFrom-trans p now (t ∷ ts) s (observe t s) (ended now t (observe t s))
            (observe-EntryFrom p now t ts s e (ground arith, ground arith)) (same refl refl refl))
    | inr d ↦
        rw (k, d, walk)
          (EntryFrom-trans p now (t ∷ ts) s (observe t s) (walk now limit ts (observe t s))
            (observe-EntryFrom p now t ts s e (ground arith, ground arith))
            (EntryFrom-cons p now t ts _ _
              (walk-EntryFrom p now limit ts (observe t s) (observe-plan t s ∙ e))))
  ]
]

-- Monitoring changes nothing of the published plan. An observed entry is never replaced, and a new
-- one is the time, price and id of a trade of the unread path: one in the zone, that is neither
-- from after `now` nor received after it, and not from after the trigger deadline.
pub advance_trades-causal :
    (s : Signal) (trades : List Trade) (now : ℕ)
    → (plan (advance_trades s trades now) ≡ plan s)
      × EntryFrom (plan s) now (path s trades) s (advance_trades s trades now)
unfolding advance_trades
advance_trades-causal s trades now = (
  walk-plan now (deadline s) (path s trades) s,
  elim (walk-EntryFrom (plan s) now (deadline s) (path s trades) s refl) [
    | same a b k ↦ same a b k
    | first t x n e f g h i j ↦ first t x n e f g h i j
  ],
)
