-- ===== src/Notifications/Grants.antt =====
-- Which claims are granted.
use bybitflow.Prelude.{
  arith, ◌==◌, ==_iff, ◌&&◌, Bool-cases, ℕ, ◌≡◌, refl, sym, ap, ◌∙◌, ◌↔◌, ◌⊎◌, inl, inr, Bool, true,
  false, Option, none, some, List, ◌∷◌, if◌then◌else◌,
}
use bybitflow.Notifications.Keys.{
  Refusal, Status, sending, sent, uncertain, rate_limited, rejected, refused, is_retryable,
  is_blocked,
}
use bybitflow.Notifications.Opportunity.{Opportunity}
use bybitflow.Notifications.Claims.{
  Claim, Ledger, Scan, claim_of, reclaimed, can_reclaim, found, new_claim, recorded, try_again,
  claim_found, claim_alert,
}
use bybitflow.Notifications.Twins.{HasTwin, duplicate_iff}

module _ (rounded : Opportunity → ℕ → ℕ) (fingerprint : Opportunity → ℕ) where
  try_again_granted :
      (retry : Bool) (at_ms : ℕ) (o : Opportunity) (f : Scan) (l : Ledger)
      → ((try_again rounded fingerprint retry at_ms o f l).0 ≡ true)
        ↔ ((retry ≡ true) × (can_reclaim o.id (claim_of (fingerprint o) l.claims) ≡ true))
  unfolding try_again recorded
  try_again_granted true at_ms o f l = go (can_reclaim o.id (claim_of (fingerprint o) l.claims))
    where
      go :
          (b : Bool)
          → ((if b
                then recorded rounded fingerprint true at_ms o f
                    (reclaimed (fingerprint o) o.id l.claims)
                    l
                else recorded rounded fingerprint false at_ms o f l.claims l).0
              ≡ true)
            ↔ ((true ≡ true) × (b ≡ true))
      go true = ((λ h. (refl, refl)), (λ h. refl))
      go false = ((λ h. cc), (λ h. h.1))
  try_again_granted false at_ms o f l = ((λ h. cc), (λ h. h.0))

  -- The branches of the claim.
  pub claimed_iff :
      (signals : List Opportunity) (retry : Bool) (at_ms : ℕ) (o : Opportunity) (l : Ledger)
      → ((claim_alert rounded fingerprint signals retry at_ms o l).0 ≡ true) ↔ (
          ((claim_of (fingerprint o) l.claims ≡ none)
            × ((found rounded fingerprint signals l o).economic_duplicate ≡ false))
          ⊎ ((retry ≡ true) × (can_reclaim o.id (claim_of (fingerprint o) l.claims) ≡ true)))
  unfolding claim_alert claim_found recorded can_reclaim
  claimed_iff signals retry at_ms o l = by_row (claim_of (fingerprint o) l.claims) refl
    where
      f : Scan
      f = found rounded fingerprint signals l o

      again :
          ((try_again rounded fingerprint retry at_ms o f l).0 ≡ true)
          ↔ ((retry ≡ true) × (can_reclaim o.id (claim_of (fingerprint o) l.claims) ≡ true))
      again = try_again_granted retry at_ms o f l

      by_row :
          (c : Option Claim)
          → claim_of (fingerprint o) l.claims ≡ c
          → ((claim_found rounded fingerprint retry at_ms o f c l).0 ≡ true) ↔ (
              ((c ≡ none) × (f.economic_duplicate ≡ false))
              ⊎ ((retry ≡ true) × (can_reclaim o.id c ≡ true)))
      by_row (some c) e =
          ((λ h. let g = again.0 h in inr (g.0, ap (λ x. can_reclaim o.id x) (sym e) ∙ g.1)), back)
        where
          back :
              ((some c ≡ none) × (f.economic_duplicate ≡ false))
                ⊎ ((retry ≡ true) × (can_reclaim o.id (some c) ≡ true))
              → (try_again rounded fingerprint retry at_ms o f l).0 ≡ true
          back (inl (k, d)) = cc
          back (inr (r, k)) = again.1 (r, ap (λ x. can_reclaim o.id x) e ∙ k)
      by_row none e = by_duplicate f.economic_duplicate
        where
          absurd : {A : Type 0} → false ≡ true → A
          absurd k = cc

          by_duplicate :
              (d : Bool)
              → ((if d
                    then try_again rounded fingerprint retry at_ms o f l
                    else recorded rounded fingerprint true at_ms o f
                        (new_claim rounded fingerprint at_ms o f ∷ l.claims)
                        l).0
                  ≡ true)
                ↔ (((◌≡◌ {A = Option Claim} none none) × (d ≡ false))
                    ⊎ ((retry ≡ true) × (can_reclaim o.id none ≡ true)))
          by_duplicate true =
              ((λ h. absurd (sym (ap (λ x. can_reclaim o.id x) e) ∙ (again.0 h).1)), none_granted)
            where
              none_granted :
                  ((◌≡◌ {A = Option Claim} none none) × (true ≡ false))
                    ⊎ ((retry ≡ true) × (can_reclaim o.id none ≡ true))
                  → (try_again rounded fingerprint retry at_ms o f l).0 ≡ true
              none_granted (inl (x, k)) = absurd (sym k)
              none_granted (inr (r, k)) = absurd k
          by_duplicate false = ((λ h. inl (refl, refl)), (λ h. refl))

  -- The row of the fingerprint is the plan's own, with a blocked delivery.
  abbrev pub OwnsBlocked : Opportunity → Ledger → Type 0
  OwnsBlocked o l =
      (c : Claim) × ((claim_of (fingerprint o) l.claims ≡ some c)
        × (c.signal_id ≡ o.id)
        × ((b : Refusal) × ((c.delivery_status ≡ refused b) × (is_blocked b ≡ true))))

  reclaim_iff :
      (o : Opportunity) (l : Ledger)
      → (can_reclaim o.id (claim_of (fingerprint o) l.claims) ≡ true) ↔ OwnsBlocked o l
  unfolding can_reclaim is_retryable
  reclaim_iff o l = (forth (claim_of (fingerprint o) l.claims) refl, back)
    where
      blocked :
          (st : Status)
          → is_retryable st ≡ true
          → (b : Refusal) × ((st ≡ refused b) × (is_blocked b ≡ true))
      blocked sending h = cc
      blocked sent h = cc
      blocked uncertain h = cc
      blocked rate_limited h = cc
      blocked rejected h = cc
      blocked (refused b) h = (b, (refl, h))

      both : (x y : Bool) → (x && y) ≡ true → (x ≡ true) × (y ≡ true)
      both x y e = ground arith

      forth :
          (x : Option Claim)
          → claim_of (fingerprint o) l.claims ≡ x
          → can_reclaim o.id x ≡ true
          → OwnsBlocked o l
      forth none e h = cc
      forth (some c) e h =
          let (i, k) = both (c.signal_id == o.id) (is_retryable c.delivery_status) h in
          (c, (e, (==_iff c.signal_id o.id).0 i, blocked c.delivery_status k))

      back : OwnsBlocked o l → can_reclaim o.id (claim_of (fingerprint o) l.claims) ≡ true
      back (c, (e, i, (b, (f, k)))) =
          ap (λ x. can_reclaim o.id x) e ∙ rw ((==_iff c.signal_id o.id).1 i, f, k) refl

  -- A claim is granted exactly if the fingerprint has no row, and no other plan of the symbol that
  -- has joined a message and has not ended has the same execution event and an open claim; or if it
  -- is a retry and the row of the fingerprint is the plan's own with a blocked delivery. The retry
  -- does not ask about the execution event.
  pub granted_iff :
      (signals : List Opportunity) (retry : Bool) (at_ms : ℕ) (o : Opportunity) (l : Ledger)
      → ((claim_alert rounded fingerprint signals retry at_ms o l).0 ≡ true) ↔ (
          ((claim_of (fingerprint o) l.claims ≡ none) × (¬ HasTwin rounded signals l o))
          ⊎ ((retry ≡ true) × OwnsBlocked o l))
  granted_iff signals retry at_ms o l = (forth, back)
    where
      f : Scan
      f = found rounded fingerprint signals l o

      twins : (f.economic_duplicate ≡ true) ↔ HasTwin rounded signals l o
      twins = duplicate_iff rounded fingerprint signals l o

      forth :
          (claim_alert rounded fingerprint signals retry at_ms o l).0 ≡ true
          → ((claim_of (fingerprint o) l.claims ≡ none) × (¬ HasTwin rounded signals l o))
            ⊎ ((retry ≡ true) × OwnsBlocked o l)
      forth h = elim ((claimed_iff signals retry at_ms o l).0 h) [
        | inl (e, d) ↦ inl (e, λ t. alone d (twins.1 t))
        | inr (r, k) ↦ inr (r, (reclaim_iff o l).0 k)
      ]
        where
          alone : {b : Bool} → b ≡ false → b ≡ true → ⊥
          alone d k = cc

      back :
          ((claim_of (fingerprint o) l.claims ≡ none) × (¬ HasTwin rounded signals l o))
            ⊎ ((retry ≡ true) × OwnsBlocked o l)
          → (claim_alert rounded fingerprint signals retry at_ms o l).0 ≡ true
      back (inr (r, k)) = (claimed_iff signals retry at_ms o l).1 (inr (r, (reclaim_iff o l).1 k))
      back (inl (e, n)) = elim (Bool-cases f.economic_duplicate) [
        | inl d ↦ absurd (n (twins.0 d))
        | inr d ↦ (claimed_iff signals retry at_ms o l).1 (inl (e, d))
      ]
