-- ===== src/Lifecycle/Expiry.antt =====
-- `expiry_mark`: the frozen plan's value at expiry, without a claim of an account fill.
use bybitflow.Prelude.{
  ℕ, ◌+◌, ◌-◌, ◌≤◌, ◌<◌, ◌≡◌, Bool, true, false, not, ◌&&◌, Option, none, some, arith, ltb, leb,
  if◌then◌else◌, ◌≢◌, max, min, refl, subst, inl, inr, Option-cases, ◌⊎◌,
}
use bybitflow.Prelude.Int.{ℤ, pos, negsuc, ◌-ℤ◌, ◌*ℤ◌}
use bybitflow.Orderflow.Types.{Decimal, finite, nonfinite}
use bybitflow.Lifecycle.Signal.{
  Signal, Direction, long, short, Classification, Mark, Method, favorable_gross, unfavorable_gross,
  flat_gross, estimated_profit, estimated_loss, estimated_flat,
}
use bybitflow.Lifecycle.Marks.{gross_move, by_sign, Says, gross-Says, net-Says}

abbrev pub distance : Signal → ℕ
distance s = max s.entry s.stop - min s.entry s.stop

-- The part of the result that no cost enters.
abbrev pub gross_mark : Signal → ℕ → ℕ → ℕ → Method → ℕ → Mark
gross_mark s price price_ms deadline_ms method entered =
    let move = gross_move s.direction s.entry price in
    record {
      method = method;
      mark_price = price;
      mark_ms = price_ms;
      deadline_ms = deadline_ms;
      observed_entry_ms = entered;
      gross_pct = (pos 100 *ℤ move, s.entry);
      gross_r = (move, distance s);
      estimated_net_r = none;
      estimated_net_pct = none;
      classification = by_sign move favorable_gross unfavorable_gross flat_gross;
      account_fill_verified = false;
    }

-- A cost that is a number, finite and not negative gives the estimated net result.
unfoldable pub with_cost : Signal → ℕ → Option Decimal → Mark → Mark
with_cost s price none m = m
with_cost s price (some nonfinite) m = m
with_cost s price (some (finite (negsuc _))) m = m
with_cost s price (some (finite (pos cost))) m =
    let net = gross_move s.direction s.entry price -ℤ pos cost in
    record m {
      estimated_net_r = some (net, distance s);
      estimated_net_pct = some (pos 100 *ℤ net, s.entry);
      classification = by_sign net estimated_profit estimated_loss estimated_flat;
    }

-- The body once the entry, the price and its time are there.
unfoldable pub mark_at : Signal → ℕ → ℕ → ℕ → ℕ → Method → ℕ → Option Mark
mark_at s price price_ms deadline_ms max_age method entered =
    if not (ltb entered price_ms && leb price_ms deadline_ms)
    then none
    else if ltb max_age (deadline_ms - price_ms)
    then none
    else if not (ltb 0 price && (ltb 0 s.entry && ltb 0 (distance s)))
    then none
    else some
        (with_cost s price s.cost_per_base (gross_mark s price price_ms deadline_ms method entered))

-- `expiry_mark(signal, price, price_ms, deadline_ms, max_age_ms, method, entered_ms)`
unfoldable pub expiry_mark : Signal → Option ℕ → Option ℕ → ℕ → ℕ → Method → Option ℕ → Option Mark
expiry_mark s price price_ms deadline_ms max_age method entered_ms = elim entered_ms [
  | some e ↦ elim price_ms [
    | none ↦ none
    | some t ↦ elim price [ none ↦ none | some p ↦ mark_at s p t deadline_ms max_age method e ]
  ]
  | none ↦ elim s.evidence.observed_entry_ms [
    | none ↦ none
    | some e ↦ elim price_ms [
      | none ↦ none
      | some t ↦ elim price [ none ↦ none | some p ↦ mark_at s p t deadline_ms max_age method e ]
    ]
  ]
]

abbrev pub is_net_class : Classification → Bool
is_net_class favorable_gross = false
is_net_class unfavorable_gross = false
is_net_class flat_gross = false
is_net_class estimated_profit = true
is_net_class estimated_loss = true
is_net_class estimated_flat = true

-- `z` is how far the price has moved in the plan's favour.
abbrev pub IsMove : Direction → ℕ → ℕ → ℤ → Type 0
IsMove long entry price z = z ≡ pos price -ℤ pos entry
IsMove short entry price z = z ≡ pos entry -ℤ pos price

-- A mark that is in time, claims no fill, divides by no zero, and whose gross result is the move of
-- the price over the distance of the stop and, in percent, over the entry.
pub record IsMark (s : Signal) (deadline_ms max_age : ℕ) (m : Mark) : Type 0 where
  pub after_entry : m.observed_entry_ms < m.mark_ms
  pub by_deadline : m.mark_ms ≤ deadline_ms
  pub recent : deadline_ms ≤ m.mark_ms + max_age
  pub no_fill : m.account_fill_verified ≡ false
  pub moved : IsMove s.direction s.entry m.mark_price m.gross_r.0
  pub r_distance : m.gross_r.1 ≡ distance s
  pub pct : m.gross_pct ≡ (pos 100 *ℤ m.gross_r.0, s.entry)
  pub pct_denominator : 0 < m.gross_pct.1
  pub r_denominator : 0 < m.gross_r.1

-- The net result of a mark: with a frozen cost that is finite and not negative it is the gross one
-- less the cost, over the same denominators, and the class is a net one; else there is none.
pub data IsNet (s : Signal) (m : Mark) : Type 0 where
  costed :
      (c : ℕ)
      → s.cost_per_base ≡ some (finite (pos c))
      → m.estimated_net_r ≡ some (m.gross_r.0 -ℤ pos c, m.gross_r.1)
      → m.estimated_net_pct ≡ some (pos 100 *ℤ (m.gross_r.0 -ℤ pos c), m.gross_pct.1)
      → is_net_class m.classification ≡ true
      → IsNet s m
  uncosted :
      ((c : ℕ) → s.cost_per_base ≢ some (finite (pos c)))
      → m.estimated_net_r ≡ none
      → m.estimated_net_pct ≡ none
      → is_net_class m.classification ≡ false
      → IsNet s m

pub record IsHonest (s : Signal) (deadline_ms max_age : ℕ) (m : Mark) : Type 0 where
  pub mark : IsMark s deadline_ms max_age m
  pub net : IsNet s m
  pub says : Says s.direction s.entry m.mark_price s.cost_per_base m.classification

net_class : (z : ℤ) → is_net_class (by_sign z estimated_profit estimated_loss estimated_flat) ≡ true
net_class z = ground arith

gross_class :
    (z : ℤ) → is_net_class (by_sign z favorable_gross unfavorable_gross flat_gross) ≡ false
gross_class z = ground arith

gross_move-IsMove :
    (d : Direction) (entry price : ℕ) → IsMove d entry price (gross_move d entry price)
unfolding gross_move
gross_move-IsMove long entry price = refl
gross_move-IsMove short entry price = refl

module _ (s : Signal) (price deadline_ms max_age : ℕ) (m : Mark)
    (h : IsMark s deadline_ms max_age m) (f : m.mark_price ≡ price)
    (g : m.gross_r.0 ≡ gross_move s.direction s.entry price)
    (u : (m.estimated_net_r ≡ none)
      × (m.estimated_net_pct ≡ none)
      × (is_net_class m.classification ≡ false))
    (y : Says s.direction s.entry m.mark_price s.cost_per_base m.classification) where
  no_cost : ((c : ℕ) → s.cost_per_base ≢ some (finite (pos c))) → IsHonest s deadline_ms max_age m
  no_cost n = record { mark = h; net = uncosted n u.0 u.1 u.2; says = y }

  with_cost-IsHonest :
      (cost : Option Decimal)
      → s.cost_per_base ≡ cost
      → IsHonest s deadline_ms max_age (with_cost s price cost m)
  unfolding with_cost
  with_cost-IsHonest none e = no_cost (λ c k. cc)
  with_cost-IsHonest (some nonfinite) e = no_cost (λ c k. cc)
  with_cost-IsHonest (some (finite (negsuc n))) e = no_cost (λ c k. cc)
  with_cost-IsHonest (some (finite (pos c))) e = record {
    mark = record {
      after_entry = h.after_entry;
      by_deadline = h.by_deadline;
      recent = h.recent;
      no_fill = h.no_fill;
      moved = h.moved;
      r_distance = h.r_distance;
      pct = h.pct;
      pct_denominator = h.pct_denominator;
      r_denominator = h.r_denominator;
    };
    net =
        costed c e (rw (g, h.r_distance) refl) (rw (g, h.pct) refl)
          (net_class (gross_move s.direction s.entry price -ℤ pos c));
    says = rw (e, f) (net-Says s.direction s.entry price c);
  }

-- The guards of `mark_at` passed, if it gives a mark.
guards_passed {ℓ} :
    {A : Type ℓ} (a b c : Bool) (w m : A)
    → ◌≡◌ {A = Option A}
        (if not a then none else if b then none else if not c then none else some w)
        (some m)
    → (a ≡ true) × (b ≡ false) × (c ≡ true) × (w ≡ m)
guards_passed true false true w m h = (refl, refl, refl, cc)
guards_passed true false false w m h = cc
guards_passed true true c w m h = cc
guards_passed false b c w m h = cc

mark_at-IsHonest :
    (s : Signal) (price price_ms deadline_ms max_age : ℕ) (method : Method) (entered : ℕ) (m : Mark)
    → mark_at s price price_ms deadline_ms max_age method entered ≡ some m
    → IsHonest s deadline_ms max_age m
unfolding mark_at
mark_at-IsHonest s price price_ms deadline_ms max_age method entered m h =
    let g = gross_mark s price price_ms deadline_ms method entered in
    let (a, b, c, e) =
      guards_passed (ltb entered price_ms && leb price_ms deadline_ms)
        (ltb max_age (deadline_ms - price_ms))
        (ltb 0 price && (ltb 0 s.entry && ltb 0 (distance s))) (with_cost s price s.cost_per_base g)
        m h in
    subst (IsHonest s deadline_ms max_age) e (
      with_cost-IsHonest s price deadline_ms max_age g
        (record {
          after_entry = ground arith;
          by_deadline = ground arith;
          recent = ground arith;
          no_fill = refl;
          moved = gross_move-IsMove s.direction s.entry price;
          r_distance = refl;
          pct = refl;
          pct_denominator = ground arith;
          r_denominator = ground arith;
        })
        refl refl (refl, refl, gross_class (gross_move s.direction s.entry price))
        (gross-Says s.direction s.entry price s.cost_per_base) s.cost_per_base refl)

-- Whatever it is given, a mark lies after the observed entry, at or before the deadline and not
-- longer than `max_age` before it; it claims no fill and divides by no zero. Its gross result is the
-- move of the price in the plan's favour, over the distance of the stop and in percent of the entry.
-- With a frozen cost that is finite and not negative its net result is that less the cost, over the
-- same denominators, and its class is profit where the price moved by more than the cost, loss by
-- less, flat by neither; without one there is no net result, and its class says that of no cost.
pub expiry_mark-IsHonest :
    (s : Signal) (price price_ms : Option ℕ) (deadline_ms max_age : ℕ) (method : Method)
    (entered_ms : Option ℕ) (m : Mark)
    → expiry_mark s price price_ms deadline_ms max_age method entered_ms ≡ some m
    → IsHonest s deadline_ms max_age m
unfolding expiry_mark
expiry_mark-IsHonest s price none deadline_ms max_age method (some e) m h = cc
expiry_mark-IsHonest s none (some t) deadline_ms max_age method (some e) m h = cc
expiry_mark-IsHonest s (some p) (some t) deadline_ms max_age method (some e) m h =
    mark_at-IsHonest s p t deadline_ms max_age method e m h
expiry_mark-IsHonest s price price_ms deadline_ms max_age method none m h =
    from_evidence (Option-cases s.evidence.observed_entry_ms) price price_ms h
  where
    from_evidence :
        (s.evidence.observed_entry_ms ≡ none) ⊎ ((e : ℕ) × (s.evidence.observed_entry_ms ≡ some e))
        → (p t : Option ℕ) → expiry_mark s p t deadline_ms max_age method none ≡ some m
        → IsHonest s deadline_ms max_age m
    from_evidence (inl n) p t k = absurd (ground arith)
    from_evidence (inr (e, n)) p none k = absurd (ground arith)
    from_evidence (inr (e, n)) none (some t) k = absurd (ground arith)
    from_evidence (inr (e, n)) (some p) (some t) k =
        mark_at-IsHonest s p t deadline_ms max_age method e m (ground arith)
