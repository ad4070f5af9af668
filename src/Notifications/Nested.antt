-- ===== src/Notifications/Nested.antt =====
-- Beside which visible plans an initial message may go out.
use bybitflow.Prelude.{
  ℕ, ◌+◌, ◌<◌, ◌≤◌, ◌≡◌, refl, sym, ap, ◌∙◌, Bool, true, false, ◌&&◌, Option, none, some, List, [],
  ◌∷◌, ◌++◌, arith, ◌==◌, leb, ltb, all, All, Memᴰ,
}
use bybitflow.Lifecycle.Signal.{HorizonProfile}
use bybitflow.Notifications.Visibility.{Plan, View, opposes, initial_delivery_block}
use bybitflow.Notifications.Conflicts.{
  Side, Settings, Failure, is_recent, hold_max, end_of, nested_profiles, is_fresh_and_stable,
  has_distinct_structure, stays_inside, levels, is_between, unless, assess, is_allowed,
}
use bybitflow.Notifications.Clear.{Current, IsClear, unblocked_iff}

-- The counter-plan lives inside the original: for a shorter time, up to no later end, on the prices
-- of one venue, with every level strictly between the stop and the first target of the original,
-- which was monitored within `trade_stale_ms`.
pub record IsNested (c : Settings) (now : ℕ) (p o : Side) : Type 0 where
  pub shorter :
      (new : HorizonProfile) × ((old : HorizonProfile) × ((p.horizon_profile ≡ some new)
          × ((o.horizon_profile ≡ some old) × (hold_max new < hold_max old))))
  pub ends_first : end_of p ≤ end_of o
  pub one_venue : p.source ≡ o.source
  pub monitored :
      (at : ℕ) × ((o.last_monitor_ms ≡ some at) × ((at ≤ now) × (now ≤ at + c.trade_stale_ms)))
  pub inside :
      (a : ℕ) × ((b : ℕ) × ((o.stop ≡ some a)
          × ((o.tp1 ≡ some b) × (all (is_between a b) (levels p) ≡ true))))

unless_empty :
    (b : Bool) (f : Failure) (fs : List Failure)
    → is_allowed (unless b f ++ fs) ≡ true
    → (b ≡ true) × (is_allowed fs ≡ true)
unfolding is_allowed
unless_empty true f fs h = (refl, h)
unless_empty false f fs h = cc

profiles_shorter :
    (p o : Side) (x y : Option HorizonProfile)
    → nested_profiles p o x y ≡ true
    → ((new : HorizonProfile) × ((old : HorizonProfile) × ((x ≡ some new)
            × ((y ≡ some old) × (hold_max new < hold_max old)))))
      × (end_of p ≤ end_of o)
unfolding nested_profiles
profiles_shorter p o (some new) (some old) h =
    let t = parts (hold_max new) (hold_max old) (end_of p) (end_of o) _ _ _ h in
    ((new, (old, (refl, (refl, t.0)))), t.1)
  where
    parts :
        (a b e f : ℕ) (u v w : Bool)
        → ((u && ltb a b) && (v && (w && leb e f))) ≡ true
        → (a < b) × (e ≤ f)
    parts a b e f u v w k = ground arith
profiles_shorter p o (some new) none h = cc
profiles_shorter p o none y h = cc

fresh_monitor :
    (now ttl : ℕ) (x : Option ℕ) (u v : Bool)
    → ((u && is_recent now (some ttl) x) && v) ≡ true
    → (at : ℕ) × ((x ≡ some at) × ((at ≤ now) × (now ≤ at + ttl)))
unfolding is_recent
fresh_monitor now ttl none u v h = elim (never u v h) [ ]
  where
    never : (a b : Bool) → ((a && false) && b) ≡ true → ⊥
    never true b k = cc
    never false b k = cc
fresh_monitor now ttl (some at) u v h = (at, (refl, parts at now (at + ttl) u v h))
  where
    parts : (a n e : ℕ) (x y : Bool) → ((x && (leb a n && leb n e)) && y) ≡ true → (a ≤ n) × (n ≤ e)
    parts a n e x y k = ground arith

inside_levels :
    (xs : List (Option ℕ)) (x y : Option ℕ)
    → stays_inside xs x y ≡ true
    → (a : ℕ) × ((b : ℕ) × ((x ≡ some a) × ((y ≡ some b) × (all (is_between a b) xs ≡ true))))
unfolding stays_inside
inside_levels xs (some a) (some b) h = (a, (b, (refl, (refl, h))))
inside_levels xs (some a) none h = cc
inside_levels xs none y h = cc

allowed-IsNested :
    (c : Settings) (now : ℕ) (p o : Side)
    → is_allowed (assess c now p o) ≡ true
    → IsNested c now p o
unfolding assess is_fresh_and_stable
allowed-IsNested c now p o h =
    let t0 = unless_empty (nested_profiles p o p.horizon_profile o.horizon_profile) _ _ h in
    let t1 = unless_empty (p.source == o.source) _ _ t0.1 in
    let t2 = unless_empty (is_fresh_and_stable c now o) _ _ t1.1 in
    let t3 = unless_empty (has_distinct_structure now p o) _ _ t2.1 in
    let t4 = unless_empty (stays_inside (levels p) o.stop o.tp1) _ _ t3.1 in
    let s = profiles_shorter p o p.horizon_profile o.horizon_profile t0.0 in
    record {
      shorter = s.0;
      ends_first = s.1;
      one_venue = same p.source o.source t1.0;
      monitored = fresh_monitor now c.trade_stale_ms o.last_monitor_ms o.is_monitored _ t2.0;
      inside = inside_levels (levels p) o.stop o.tp1 t4.0;
    }
  where
    same : (a b : ℕ) → (a == b) ≡ true → a ≡ b
    same a b k = ground arith

-- `detail` gives what `assess` reads of a plan. An initial message that is not blocked goes out
-- beside a visible active plan of the opposite direction only if it is nested in that plan: for a
-- shorter time and to no later end, on the same venue, with every level strictly between the stop
-- and the first target of that plan, which was monitored within `trade_stale_ms`.
pub unblocked-IsNested :
    (c : Settings) (detail : Plan → Side) (v : View) (id : ℕ) (signal : Option Plan)
    → initial_delivery_block (λ p q. is_allowed (assess c v.now (detail p) (detail q))) v id signal
      ≡ none
    → (p : Plan) × (Current v id signal p
        × ((q : Plan)
            → Memᴰ q v.signals
            → opposes v p q ≡ true
            → IsNested c v.now (detail p) (detail q)))
unblocked-IsNested c detail v id signal h = go ((unblocked_iff _ v id signal).0 h)
  where
    ok : Plan → Plan → Bool
    ok p q = is_allowed (assess c v.now (detail p) (detail q))

    at :
        (p : Plan) (qs : List Plan)
        → All (λ q. opposes v p q ≡ true → ok p q ≡ true) qs
        → (q : Plan) → Memᴰ q qs
        → opposes v p q ≡ true
        → ok p q ≡ true
    at p [] k q m e = elim m [ ]
    at p (r ∷ rs) k q (Memᴰ.head f) e = ap (ok p) f ∙ k.0 (ap (opposes v p) (sym f) ∙ e)
    at p (r ∷ rs) k q (Memᴰ.tail m) e = at p rs k.1 q m e

    go :
        (p : Plan) × (Current v id signal p × IsClear ok v p)
        → (p : Plan) × (Current v id signal p
            × ((q : Plan)
                → Memᴰ q v.signals
                → opposes v p q ≡ true
                → IsNested c v.now (detail p) (detail q)))
    go (p, (k, clear)) = (
      p,
      (
        k,
        λ q m e.
            allowed-IsNested c v.now (detail p) (detail q) (at p v.signals clear.may_coexist q m e),
      ),
    )
