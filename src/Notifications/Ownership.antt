-- ===== src/Notifications/Ownership.antt =====
-- One fingerprint is granted to one plan.
use bybitflow.Prelude.{
  ℕ, ◌≡◌, refl, sym, ap, ◌∙◌, ◌⊎◌, inl, inr, Bool, true, false, ◌&&◌, Option, none, some, List, [],
  ◌∷◌, arith, ◌==◌, if◌then◌else◌, Bool-cases, ==_iff,
}
use bybitflow.Notifications.Keys.{Status, is_retryable, sending}
use bybitflow.Notifications.Opportunity.{Opportunity}
use bybitflow.Notifications.Claims.{
  Claim, Ledger, Scan, claim_of, reclaimed, can_reclaim, found, new_claim, recorded, try_again,
  claim_found, claim_alert, delivered,
}
use bybitflow.Notifications.Grants.{claimed_iff}

abbrev pub owner_id : Option Claim → Option ℕ
owner_id none = none
owner_id (some c) = some c.signal_id

-- The plan that a fingerprint is claimed for.
abbrev pub owner : ℕ → List Claim → Option ℕ
owner fp cs = owner_id (claim_of fp cs)

-- A change of a claim that keeps whose it is.
owner-cons :
    (fp : ℕ) (c d : Claim) (cs ds : List Claim)
    → d.fingerprint ≡ c.fingerprint
    → d.signal_id ≡ c.signal_id
    → owner fp ds ≡ owner fp cs
    → owner fp (d ∷ ds) ≡ owner fp (c ∷ cs)
unfolding claim_of
owner-cons fp c d cs ds f i e = elim (Bool-cases (c.fingerprint == fp)) [
  | inl h ↦ rw (claim_of, ap (λ x. x == fp) f ∙ h, h) (ap some i)
  | inr h ↦ rw (claim_of, ap (λ x. x == fp) f ∙ h, h) e
]

reclaimed_owner : (f id fp : ℕ) (cs : List Claim) → owner fp (reclaimed f id cs) ≡ owner fp cs
unfolding claim_of reclaimed
reclaimed_owner f id fp [] = refl
reclaimed_owner f id fp (c ∷ cs) =
    go (reclaimed_owner f id fp cs)
      ((c.fingerprint == f) && ((c.signal_id == id) && is_retryable c.delivery_status))
  where
    go :
        owner fp (reclaimed f id cs) ≡ owner fp cs
        → (b : Bool)
        → owner fp ((if b then record c { delivery_status = sending } else c) ∷ reclaimed f id cs)
          ≡ owner fp (c ∷ cs)
    go ih true =
        owner-cons fp c (record c { delivery_status = sending }) cs (reclaimed f id cs) refl refl ih
    go ih false = owner-cons fp c c cs (reclaimed f id cs) refl refl ih

owner-delivered :
    (st : Status) (m : Option ℕ) (f fp : ℕ) (cs : List Claim)
    → owner fp (delivered st m f cs) ≡ owner fp cs
unfolding claim_of delivered
owner-delivered st m f fp [] = refl
owner-delivered st m f fp (c ∷ cs) = go (owner-delivered st m f fp cs) (c.fingerprint == f)
  where
    go :
        owner fp (delivered st m f cs) ≡ owner fp cs
        → (b : Bool)
        → owner fp (
            (if b then record c { delivery_status = st; message_id = m } else c)
            ∷ delivered st m f cs)
          ≡ owner fp (c ∷ cs)
    go ih true =
        owner-cons fp c (record c { delivery_status = st; message_id = m }) cs (delivered st m f cs)
          refl refl ih
    go ih false = owner-cons fp c c cs (delivered st m f cs) refl refl ih

module _ (rounded : Opportunity → ℕ → ℕ) (fingerprint : Opportunity → ℕ) where
  try_again_owner :
      (retry : Bool) (at_ms fp : ℕ) (o : Opportunity) (f : Scan) (l : Ledger)
      → owner fp (try_again rounded fingerprint retry at_ms o f l).1.claims ≡ owner fp l.claims
  unfolding try_again recorded
  try_again_owner true at_ms fp o f l = go (can_reclaim o.id (claim_of (fingerprint o) l.claims))
    where
      go :
          (b : Bool)
          → owner fp
              (if◌then◌else◌ {A = Bool × Ledger} b
                (recorded rounded fingerprint true at_ms o f
                  (reclaimed (fingerprint o) o.id l.claims)
                  l)
                (recorded rounded fingerprint false at_ms o f l.claims l)).1.claims
            ≡ owner fp l.claims
      go true = reclaimed_owner (fingerprint o) o.id fp l.claims
      go false = refl
  try_again_owner false at_ms fp o f l = refl

  claim_owner :
      (signals : List Opportunity) (retry : Bool) (at_ms fp id : ℕ) (o : Opportunity) (l : Ledger)
      → owner fp l.claims ≡ some id
      → owner fp (claim_alert rounded fingerprint signals retry at_ms o l).1.claims ≡ some id
  unfolding claim_alert claim_found recorded claim_of
  claim_owner signals retry at_ms fp id o l h = by_row (claim_of (fingerprint o) l.claims) refl
    where
      f : Scan
      f = found rounded fingerprint signals l o

      absurd : {A : Type 0} → none ≡ some id → A
      absurd k = cc

      equal : (fingerprint o == fp) ≡ true → fingerprint o ≡ fp
      equal k = (==_iff (fingerprint o) fp).0 k

      fresh :
          (b : Bool)
          → (fingerprint o == fp) ≡ b
          → claim_of (fingerprint o) l.claims ≡ none
          → owner_id
              (if b then some (new_claim rounded fingerprint at_ms o f) else claim_of fp l.claims)
            ≡ some id
      fresh true e m =
          absurd (sym (ap (λ x. owner_id x) m) ∙ (ap (λ x. owner x l.claims) (equal e) ∙ h))
      fresh false e m = h

      by_duplicate :
          (d : Bool)
          → claim_of (fingerprint o) l.claims ≡ none
          → owner fp
              (if◌then◌else◌ {A = Bool × Ledger} d
                (try_again rounded fingerprint retry at_ms o f l)
                (recorded rounded fingerprint true at_ms o f
                  (new_claim rounded fingerprint at_ms o f ∷ l.claims)
                  l)).1.claims
            ≡ some id
      by_duplicate true m = try_again_owner retry at_ms fp o f l ∙ h
      by_duplicate false m = fresh (fingerprint o == fp) refl m

      by_row :
          (c : Option Claim)
          → claim_of (fingerprint o) l.claims ≡ c
          → owner fp (claim_found rounded fingerprint retry at_ms o f c l).1.claims ≡ some id
      by_row none m = by_duplicate f.economic_duplicate m
      by_row (some c) m = try_again_owner retry at_ms fp o f l ∙ h

  -- A claim of any plan at any time, and the result of a delivery that is written to a claim.
  pub data Step (l : Ledger) : Ledger → Type 0 where
    attempt :
        (signals : List Opportunity) (retry : Bool) (at_ms : ℕ) (o : Opportunity)
        → Step l (claim_alert rounded fingerprint signals retry at_ms o l).1
    settle :
        (st : Status) (m : Option ℕ) (fp : ℕ)
        → Step l (record l { claims = delivered st m fp l.claims })

  pub data Reach (l : Ledger) : Ledger → Type 0 where
    begin : Reach l l
    next : {m n : Ledger} → Reach l m → Step m n → Reach l n

  Step-owner :
      (fp id : ℕ) (l m : Ledger)
      → Step l m
      → owner fp l.claims ≡ some id
      → owner fp m.claims ≡ some id
  Step-owner fp id l _ (attempt signals retry at_ms o) h =
      claim_owner signals retry at_ms fp id o l h
  Step-owner fp id l _ (settle st m f) h = owner-delivered st m f fp l.claims ∙ h

  Reach-owner :
      (fp id : ℕ) (l m : Ledger)
      → Reach l m
      → owner fp l.claims ≡ some id
      → owner fp m.claims ≡ some id
  Reach-owner fp id l _ begin h = h
  Reach-owner fp id l _ (next {m = m} {n = n} r st) h =
      Step-owner fp id m n st (Reach-owner fp id l m r h)

  granted_owner :
      (signals : List Opportunity) (retry : Bool) (at_ms : ℕ) (o : Opportunity) (l : Ledger)
      → (claim_alert rounded fingerprint signals retry at_ms o l).0 ≡ true
      → owner (fingerprint o) (claim_alert rounded fingerprint signals retry at_ms o l).1.claims
        ≡ some o.id
  unfolding claim_alert claim_found recorded claim_of can_reclaim
  granted_owner signals retry at_ms o l h =
      by_cause ((claimed_iff rounded fingerprint signals retry at_ms o l).0 h)
    where
      f : Scan
      f = found rounded fingerprint signals l o

      same : (o.id == o.id) ≡ true
      same = (==_iff o.id o.id).1 refl

      own : (c : Option Claim) → can_reclaim o.id c ≡ true → owner_id c ≡ some o.id
      own none k = cc
      own (some c) k = ap some (equal c.signal_id o.id (is_retryable c.delivery_status) k)
        where
          equal : (x y : ℕ) (b : Bool) → ((x == y) && b) ≡ true → x ≡ y
          equal x y b e = ground arith

      by_cause :
          ((claim_of (fingerprint o) l.claims ≡ none) × (f.economic_duplicate ≡ false))
            ⊎ ((retry ≡ true) × (can_reclaim o.id (claim_of (fingerprint o) l.claims) ≡ true))
          → owner (fingerprint o) (claim_alert rounded fingerprint signals retry at_ms o l).1.claims
            ≡ some o.id
      by_cause (inl (m, d)) = fresh (claim_of (fingerprint o) l.claims) f.economic_duplicate m d
        where
          fresh :
              (c : Option Claim) (b : Bool)
              → c ≡ none
              → b ≡ false
              → owner (fingerprint o) (claim_found rounded fingerprint retry at_ms o f c l).1.claims
                ≡ some o.id
          fresh c b x y =
              rw
                (
                  x,
                  claim_found,
                  d,
                  recorded,
                  claim_of,
                  (==_iff (fingerprint o) (fingerprint o)).1 refl,
                )
                refl
      by_cause (inr (r, k)) =
          claim_owner signals retry at_ms (fingerprint o) o.id o l
            (own (claim_of (fingerprint o) l.claims) k)

  -- After a claim was granted, and whatever claims and deliveries follow, a later claim of the same
  -- fingerprint is granted to the same plan only.
  pub one_plan_per_fingerprint :
      (signals later : List Opportunity) (retry again : Bool) (at_ms now : ℕ) (o p : Opportunity)
      (l m : Ledger)
      → (claim_alert rounded fingerprint signals retry at_ms o l).0 ≡ true
      → Reach (claim_alert rounded fingerprint signals retry at_ms o l).1 m
      → fingerprint p ≡ fingerprint o
      → (claim_alert rounded fingerprint later again now p m).0 ≡ true
      → p.id ≡ o.id
  one_plan_per_fingerprint signals later retry again at_ms now o p l m g r e h = same_id (
      sym (granted_owner later again now p m h)
      ∙ (ap (λ x. owner x (claim_alert rounded fingerprint later again now p m).1.claims) e
          ∙ claim_owner later again now (fingerprint o) o.id p m
              (Reach-owner (fingerprint o) o.id _ m r (granted_owner signals retry at_ms o l g))))
    where
      same_id : some p.id ≡ some o.id → p.id ≡ o.id
      same_id k = cc
