-- ===== src/Notifications/Twins.antt =====
-- The economic duplicate of `claim`: what the loop over the members finds, told without the loop.
use bybitflow.Prelude.{
  ℕ, ◌≡◌, ◌≢◌, refl, sym, ap, ◌∙◌, ◌↔◌, inl, inr, Bool, true, false, not, ◌&&◌, ◌||◌, Option, none,
  some, List, [], ◌∷◌, Memᴰ, arith, any, ◌==◌, ==_iff, Bool-cases,
}
use bybitflow.Lifecycle.Signal.{is_terminal}
use bybitflow.Notifications.Opportunity.{Opportunity, same_v22_execution_event}
use bybitflow.Notifications.Claims.{
  Claim, Member, Ledger, Rival, Scan, has_prior, plan_of, comes_first, insert_rival, joined, rivals,
  suspected, is_primary, scan, nothing_found, found,
}
use bybitflow.Notifications.Events.{IsSameEvent, IsSameEvent-iff, IsOpenClaim, any_iff, prior_iff}

module _ (rounded : Opportunity → ℕ → ℕ) (claims : List Claim) (o : Opportunity) where
  is_twin : Opportunity → Bool
  is_twin p = not (p.id == o.id) && (same_v22_execution_event rounded o p && has_prior p.id claims)

  -- Only a plan of v22 has duplicates.
  no_twin : (rs : List Rival) → o.is_v22 ≡ false → any (λ (r : Rival). is_twin r.plan) rs ≡ false
  unfolding is_twin same_v22_execution_event
  no_twin [] e = refl
  no_twin (r ∷ rs) e = elim (Bool-cases (r.plan.id == o.id)) [
    | inl f ↦ rw f (no_twin rs e)
    | inr f ↦ rw (f, e) (no_twin rs e)
  ]

  scan_duplicate :
      (rs : List Rival) (acc : Scan)
      → (scan rounded claims o rs acc).economic_duplicate
        ≡ (acc.economic_duplicate || any (λ (r : Rival). is_twin r.plan) rs)
  unfolding scan is_twin suspected is_primary
  scan_duplicate [] acc = ground arith
  scan_duplicate (r ∷ rs) acc = elim (Bool-cases (r.plan.id == o.id)) [
    | inl e ↦ rw (scan, e) (scan_duplicate rs acc)
    | inr e ↦ elim (Bool-cases (is_primary rounded claims o r acc)) [
      | inr f ↦
          rw (scan, e, f)
            (scan_duplicate rs (suspected rounded claims o r acc)
              ∙ assoc acc.economic_duplicate _ _)
      | inl f ↦ elim (Bool-cases o.is_v22) [
        | inl g ↦ rw (scan, e, f, g) (scan_duplicate rs _ ∙ assoc acc.economic_duplicate _ _)
        | inr g ↦ rw (scan, e, f, g, no_twin rs g) (no_more acc.economic_duplicate _)
      ]
    ]
  ]
    where
      assoc : (a b c : Bool) → ((a || b) || c) ≡ (a || (b || c))
      assoc a b c = ground arith

      no_more : (a b : Bool) → (a || b) ≡ (a || (b || false))
      no_more a b = ground arith

  twin_at : Option Opportunity → Bool
  twin_at none = false
  twin_at (some p) = ((p.symbol == o.symbol) && not (is_terminal p.state)) && is_twin p

  insert_twin :
      (q : Rival) (rs : List Rival)
      → any (λ (r : Rival). is_twin r.plan) (insert_rival q rs)
        ≡ (is_twin q.plan || any (λ (r : Rival). is_twin r.plan) rs)
  unfolding insert_rival
  insert_twin q [] = refl
  insert_twin q (r ∷ rs) = elim (Bool-cases (comes_first q r)) [
    | inl e ↦ rw (insert_rival, e) refl
    | inr e ↦
        rw (insert_rival, e)
          (ap (λ b. is_twin r.plan || b) (insert_twin q rs) ∙ swap (is_twin r.plan) _ _)
  ]
    where
      swap : (a b c : Bool) → (a || (b || c)) ≡ (b || (a || c))
      swap a b c = ground arith

  joined_twin :
      (m : Member) (x : Option Opportunity) (rs : List Rival)
      → any (λ (r : Rival). is_twin r.plan) (joined o.symbol m x rs)
        ≡ (twin_at x || any (λ (r : Rival). is_twin r.plan) rs)
  unfolding joined twin_at
  joined_twin m none rs = refl
  joined_twin m (some p) rs =
      elim (Bool-cases ((p.symbol == o.symbol) && not (is_terminal p.state))) [
        | inl e ↦ rw e (insert_twin _ rs)
        | inr e ↦ rw e refl
      ]

  rivals_twin :
      (signals : List Opportunity) (ms : List Member)
      → any (λ (r : Rival). is_twin r.plan) (rivals signals o.symbol ms)
        ≡ any (λ (m : Member). twin_at (plan_of m.signal_id signals)) ms
  unfolding rivals
  rivals_twin signals [] = refl
  rivals_twin signals (m ∷ ms) =
      joined_twin m (plan_of m.signal_id signals) (rivals signals o.symbol ms)
      ∙ ap (λ b. twin_at (plan_of m.signal_id signals) || b) (rivals_twin signals ms)

-- Another plan `p` of the symbol, which has joined a message as `m` and has not ended, has the same
-- execution event, and its claim `c` is open.
pub record IsTwin (rounded : Opportunity → ℕ → ℕ) (signals : List Opportunity) (l : Ledger)
    (o : Opportunity) (m : Member) (p : Opportunity) (c : Claim) : Type 0 where
  pub member : Memᴰ m l.members
  pub plan : plan_of m.signal_id signals ≡ some p
  pub symbol : p.symbol ≡ o.symbol
  pub active : is_terminal p.state ≡ false
  pub other : p.id ≢ o.id
  pub event : IsSameEvent rounded o p
  pub claim : IsOpenClaim p.id l.claims c

abbrev pub HasTwin : (Opportunity → ℕ → ℕ) → List Opportunity → Ledger → Opportunity → Type 0
HasTwin rounded signals l o =
    (m : Member) × ((p : Opportunity) × ((c : Claim) × IsTwin rounded signals l o m p c))

module _ (rounded : Opportunity → ℕ → ℕ) (fingerprint : Opportunity → ℕ)
    (signals : List Opportunity) (l : Ledger) (o : Opportunity) where
  at_member :
      (m : Member) (x : Option Opportunity)
      → Memᴰ m l.members
      → plan_of m.signal_id signals ≡ x
      → twin_at rounded l.claims o x ≡ true
      → HasTwin rounded signals l o
  unfolding twin_at is_twin
  at_member m none i e h = cc
  at_member m (some p) i e h =
      let (y, a, n, v, k) =
        parts (p.symbol == o.symbol) (is_terminal p.state) (p.id == o.id)
          (same_v22_execution_event rounded o p) (has_prior p.id l.claims) h in
      let (c, q) = (prior_iff p.id l.claims).0 k in
      (
        m,
        (
          p,
          (
            c,
            record {
              member = i;
              plan = e;
              symbol = (==_iff p.symbol o.symbol).0 y;
              active = a;
              other = ground arith;
              event = (IsSameEvent-iff rounded o p).0 v;
              claim = q;
            },
          ),
        ),
      )
    where
      parts :
          (y a n v k : Bool)
          → ((y && not a) && (not n && (v && k))) ≡ true
          → (y ≡ true) × (a ≡ false) × (n ≡ false) × (v ≡ true) × (k ≡ true)
      parts true false false true true e = (refl, refl, refl, refl, refl)
      parts true false false true false e = cc
      parts true false false false k e = cc
      parts true false true v k e = cc
      parts true true n v k e = cc
      parts false a n v k e = cc

  pub duplicate_iff :
      ((found rounded fingerprint signals l o).economic_duplicate ≡ true)
      ↔ HasTwin rounded signals l o
  unfolding twin_at is_twin
  duplicate_iff = (forth, back)
    where
      told :
          (found rounded fingerprint signals l o).economic_duplicate
          ≡ any (λ (m : Member). twin_at rounded l.claims o (plan_of m.signal_id signals)) l.members
      told =
          scan_duplicate rounded l.claims o (rivals signals o.symbol l.members) nothing_found
          ∙ rivals_twin rounded l.claims o signals l.members

      forth :
          (found rounded fingerprint signals l o).economic_duplicate ≡ true
          → HasTwin rounded signals l o
      forth h =
          let (m, (i, k)) =
            (any_iff (λ (m : Member). twin_at rounded l.claims o (plan_of m.signal_id signals))
                l.members).0
              (sym told ∙ h) in
          at_member m (plan_of m.signal_id signals) i refl k

      back :
          HasTwin rounded signals l o
          → (found rounded fingerprint signals l o).economic_duplicate ≡ true
      back (m, (p, (c, t))) =
          told
          ∙ (any_iff (λ (m : Member). twin_at rounded l.claims o (plan_of m.signal_id signals))
                l.members).1
              (m, (t.member, ap (λ x. twin_at rounded l.claims o x) t.plan ∙ at_plan))
        where
          differs : (p.id == o.id) ≡ false
          differs = elim (Bool-cases (p.id == o.id)) [
            | inl e ↦ absurd (t.other ((==_iff p.id o.id).0 e))
            | inr e ↦ e
          ]

          at_plan : twin_at rounded l.claims o (some p) ≡ true
          at_plan =
              rw
                (
                  (==_iff p.symbol o.symbol).1 t.symbol,
                  t.active,
                  differs,
                  (IsSameEvent-iff rounded o p).1 t.event,
                  (prior_iff p.id l.claims).1 (c, t.claim),
                )
                refl
