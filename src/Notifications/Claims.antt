-- ===== src/Notifications/Claims.antt =====
-- `claim` of src/bybit_flow/identity.py: one visible message for one opportunity. `fingerprint` is
-- a hash of the plan, and `rounded` the quotient of a price and the tick of a plan.
use bybitflow.Prelude.{
  ℕ, Bool, true, false, not, ◌&&◌, ◌||◌, Option, none, some, List, [], ◌∷◌, ◌==◌, leb, ltb,
  if◌then◌else◌, any,
}
use bybitflow.Lifecycle.Signal.{is_terminal}
use bybitflow.Notifications.Keys.{
  Status, sending, sent, uncertain, rate_limited, rejected, refused, is_retryable,
}
use bybitflow.Notifications.Opportunity.{
  Opportunity, Relationship, materially_different_plan, conflicting_horizon, stronger_replacement,
  confirming_horizon, relationship, same_v22_execution_event,
}

-- initial_alert_claims, alert_members and real_delivery_attempts. A status of a claim that is none
-- of the outbox's is `refused (refused_by n)`.
pub record Claim : Type 0 where
  pub fingerprint : ℕ
  pub signal_id : ℕ
  pub cluster_id : ℕ
  pub claimed_ms : ℕ
  pub delivery_status : Status
  pub message_id : Option ℕ

pub record Member : Type 0 where
  pub signal_id : ℕ
  pub fingerprint : ℕ
  pub cluster_id : ℕ
  pub relation : Relationship
  pub created_ms : ℕ

-- `granted` is whether the status is "sending", else it is "duplicate-plan-suppressed".
pub record Attempt : Type 0 where
  pub signal_id : ℕ
  pub at_ms : ℕ
  pub fingerprint : ℕ
  pub granted : Bool
  pub relation : Relationship

pub record Ledger : Type 0 where
  pub claims : List Claim
  pub members : List Member
  pub attempts : List Attempt

unfoldable pub claim_of : ℕ → List Claim → Option Claim
claim_of fp [] = none
claim_of fp (c ∷ cs) = if c.fingerprint == fp then some c else claim_of fp cs

-- `delivery_status IN ('sent','uncertain','sending')`
unfoldable pub is_open : Status → Bool
is_open sending = true
is_open sent = true
is_open uncertain = true
is_open rate_limited = false
is_open rejected = false
is_open (refused b) = false

unfoldable pub has_prior : ℕ → List Claim → Bool
has_prior id cs = any (λ (c : Claim). (c.signal_id == id) && is_open c.delivery_status) cs

-- A row of the query `members`: what it takes of a member, and the plan of that member.
pub record Rival : Type 0 where
  pub cluster_id : ℕ
  pub created_ms : ℕ
  pub plan : Opportunity

unfoldable pub plan_of : ℕ → List Opportunity → Option Opportunity
plan_of id [] = none
plan_of id (o ∷ os) = if o.id == id then some o else plan_of id os

-- ORDER BY quality DESC, created_ms DESC.
unfoldable pub comes_first : Rival → Rival → Bool
comes_first a b =
    ltb b.plan.quality a.plan.quality
    || ((a.plan.quality == b.plan.quality) && leb b.created_ms a.created_ms)

unfoldable pub insert_rival : Rival → List Rival → List Rival
insert_rival r [] = r ∷ []
insert_rival r (q ∷ qs) = if comes_first r q then r ∷ q ∷ qs else q ∷ insert_rival r qs

unfoldable pub joined : ℕ → Member → Option Opportunity → List Rival → List Rival
joined symbol m none rs = rs
joined symbol m (some o) rs =
    if (o.symbol == symbol) && not (is_terminal o.state)
    then insert_rival (record { cluster_id = m.cluster_id; created_ms = m.created_ms; plan = o }) rs
    else rs

-- The active plans of the symbol that have a cluster.
unfoldable pub rivals : List Opportunity → ℕ → List Member → List Rival
rivals signals symbol [] = []
rivals signals symbol (m ∷ ms) =
    joined symbol m (plan_of m.signal_id signals) (rivals signals symbol ms)

-- What the loop over the members has found.
pub record Scan : Type 0 where
  pub economic_duplicate : Bool
  pub primary : Option Rival
  pub relation : Relationship

unfoldable pub is_related : Relationship → Bool
is_related materially_different_plan = false
is_related conflicting_horizon = true
is_related stronger_replacement = true
is_related confirming_horizon = true

abbrev pub is_none : Option Rival → Bool
is_none none = true
is_none (some r) = false

module _ (rounded : Opportunity → ℕ → ℕ) (claims : List Claim) (signal : Opportunity) where
  -- The duplicate test of one member.
  unfoldable pub suspected : Rival → Scan → Scan
  suspected r acc = record acc {
    economic_duplicate =
        acc.economic_duplicate
        || (same_v22_execution_event rounded signal r.plan && has_prior r.plan.id claims);
  }

  unfoldable pub is_primary : Rival → Scan → Bool
  is_primary r acc = is_related (relationship signal r.plan) && is_none acc.primary

  -- The loop, which ends at the first related plan unless the new plan is of v22.
  unfoldable pub scan : List Rival → Scan → Scan
  scan [] acc = acc
  scan (r ∷ rs) acc =
      let other : Scan = scan rs acc in
      let on : Scan = scan rs (suspected r acc) in
      let related : Scan = record (suspected r acc) {
        primary = some r;
        relation = relationship signal r.plan;
      } in
      let further : Scan = scan rs related in
      if r.plan.id == signal.id
      then other
      else if is_primary r acc
      then (if signal.is_v22 then further else related)
      else on

abbrev pub nothing_found : Scan
nothing_found = record {
  economic_duplicate = false;
  primary = none;
  relation = materially_different_plan;
}

abbrev pub cluster_of : Opportunity → Option Rival → ℕ
cluster_of o none = o.id
cluster_of o (some r) = r.cluster_id

-- INSERT OR IGNORE INTO alert_members.
unfoldable pub with_member : Member → List Member → List Member
with_member m ms = if any (λ (n : Member). n.signal_id == m.signal_id) ms then ms else m ∷ ms

-- UPDATE … SET delivery_status='sending' WHERE fingerprint AND signal_id AND LIKE 'blocked:%'.
unfoldable pub reclaimed : ℕ → ℕ → List Claim → List Claim
reclaimed fp id [] = []
reclaimed fp id (c ∷ cs) =
    (if (c.fingerprint == fp) && ((c.signal_id == id) && is_retryable c.delivery_status)
      then record c { delivery_status = sending }
      else c)
    ∷ reclaimed fp id cs

unfoldable pub can_reclaim : ℕ → Option Claim → Bool
can_reclaim id none = false
can_reclaim id (some c) = (c.signal_id == id) && is_retryable c.delivery_status

module _ (rounded : Opportunity → ℕ → ℕ) (fingerprint : Opportunity → ℕ) where
  abbrev pub found : List Opportunity → Ledger → Opportunity → Scan
  found signals l o = scan rounded l.claims o (rivals signals o.symbol l.members) nothing_found

  abbrev pub new_claim : ℕ → Opportunity → Scan → Claim
  new_claim at_ms o f = record {
    fingerprint = fingerprint o;
    signal_id = o.id;
    cluster_id = cluster_of o f.primary;
    claimed_ms = at_ms;
    delivery_status = sending;
    message_id = none;
  }

  -- The row of real_delivery_attempts and, where the claim is granted, that of alert_members.
  unfoldable pub recorded : Bool → ℕ → Opportunity → Scan → List Claim → Ledger → Bool × Ledger
  recorded granted at_ms o f claims l = (
    granted,
    record {
      claims = claims;
      members =
          if granted
          then with_member
              (record {
                signal_id = o.id;
                fingerprint = fingerprint o;
                cluster_id = cluster_of o f.primary;
                relation = f.relation;
                created_ms = at_ms;
              })
              l.members
          else l.members;
      attempts =
          (record {
            signal_id = o.id;
            at_ms = at_ms;
            fingerprint = fingerprint o;
            granted = granted;
            relation = f.relation;
          })
          ∷ l.attempts;
    },
  )

  -- Where nothing was inserted: a retry of the plan's own claim, if it may.
  unfoldable pub try_again : Bool → ℕ → Opportunity → Scan → Ledger → Bool × Ledger
  try_again true at_ms o f l =
      if can_reclaim o.id (claim_of (fingerprint o) l.claims)
      then recorded true at_ms o f (reclaimed (fingerprint o) o.id l.claims) l
      else recorded false at_ms o f l.claims l
  try_again false at_ms o f l = recorded false at_ms o f l.claims l

  unfoldable pub claim_found : Bool → ℕ → Opportunity → Scan → Option Claim → Ledger → Bool × Ledger
  claim_found retry at_ms o f none l =
      if f.economic_duplicate
      then try_again retry at_ms o f l
      else recorded true at_ms o f (new_claim at_ms o f ∷ l.claims) l
  claim_found retry at_ms o f (some c) l = try_again retry at_ms o f l

  -- `claim`: whether it is granted, and the tables. `retry` is `retry_unattempted` and that the
  -- plan's `dispatched` is False.
  unfoldable pub claim_alert : List Opportunity → Bool → ℕ → Opportunity → Ledger → Bool × Ledger
  claim_alert signals retry at_ms o l =
      claim_found retry at_ms o (found signals l o) (claim_of (fingerprint o) l.claims) l

-- UPDATE initial_alert_claims SET delivery_status,message_id WHERE fingerprint, after a delivery.
unfoldable pub delivered : Status → Option ℕ → ℕ → List Claim → List Claim
delivered st m fp [] = []
delivered st m fp (c ∷ cs) =
    (if c.fingerprint == fp then record c { delivery_status = st; message_id = m } else c)
    ∷ delivered st m fp cs
