-- ===== src/Notifications/Initial.antt =====
-- `Notifier.deliver_initial` of src/bybit_flow/notifications.py: the checks, the claim of the
-- opportunity, the delivery and the result that is written to the claim. Left out are the metrics,
-- the texts of the cards, and the updates of terminal_events and real_delivery_attempts.
use bybitflow.Prelude.{ℕ, Bool, true, false, not, ◌&&◌, Option, none, some, List, if◌then◌else◌}
use bybitflow.Notifications.Keys.{Key, initial_key, Refusal, refused, Row, row_of}
use bybitflow.Notifications.Visibility.{Plan, initial_delivery_block}
use bybitflow.Notifications.Outbox.{
  Store, Request, Inputs, Phase, started, done, already_attempted, not_official, raised, answered,
  deliver, view, is_marked_unsent,
}
use bybitflow.Notifications.Opportunity.{Opportunity}
use bybitflow.Notifications.Claims.{Ledger, claim_alert, delivered}

-- What one call reads: the channel, the webhook, what it reads at its first check and in the steps
-- of its delivery, whether the live checks are set, what `prepare_initial` answers, whether the
-- macro pause is on, the plans in the store, and the time of the claim.
pub record Call : Type 0 where
  pub channel : ℕ
  pub official : Bool
  pub webhook : ℕ
  pub payload : ℕ
  pub first : Inputs
  pub steps : ℕ → Inputs
  pub live_checks : Bool
  pub prepare_initial : Option Refusal
  pub macro_pause : Bool
  pub plans : List Opportunity
  pub at_ms : ℕ

pub data InitialAnswer : Type 0 where
  not_sent : Refusal → InitialAnswer
  live_check_unavailable macro_paused duplicate_plan_suppressed : InitialAnswer
  attempted : Phase → InitialAnswer

pub record Called : Type 0 where
  pub answer : InitialAnswer
  pub store : Store
  pub ledger : Ledger

abbrev pub request_of : Call → Opportunity → Request
request_of c o = record {
  key = initial_key c.channel o.id;
  has_factory = o.is_v22;
  official = c.official;
  webhook = c.webhook;
  payload = c.payload;
}

abbrev pub message_of : Option Row → Option ℕ
message_of none = none
message_of (some r) = r.message_id

-- UPDATE initial_alert_claims with the answer, unless the delivery raised. The text
-- "already-attempted" stands for itself.
unfoldable pub settled : ℕ → Key → Phase → Store → Ledger → Ledger
settled fp k (done (answered st)) s l = record l {
  claims = delivered st (message_of (row_of k s.rows)) fp l.claims;
}
settled fp k (done already_attempted) s l = record l {
  claims = delivered (refused (Refusal.refused_by 0)) (message_of (row_of k s.rows)) fp l.claims;
}
settled fp k (done not_official) s l = l
settled fp k (done raised) s l = l
settled fp k ph s l = l

-- `retry_unattempted` is given for v22 plans, and asks for `dispatched` to be False.
abbrev pub may_retry : Opportunity → Store → Bool
may_retry o s = o.is_v22 && is_marked_unsent (s.dispatched o.id)

module _ (allowed : Plan → Plan → Bool) (rounded : Opportunity → ℕ → ℕ)
    (fingerprint : Opportunity → ℕ) where
  unfoldable pub with_claim : Call → Opportunity → Store → Bool × Ledger → Called
  with_claim c o s (false, l) = record { answer = duplicate_plan_suppressed; store = s; ledger = l }
  with_claim c o s (true, l) =
      let x : Phase × Store = deliver allowed 8 c.steps (request_of c o) started s in
      record {
        answer = attempted x.0;
        store = x.1;
        ledger = settled (fingerprint o) (initial_key c.channel o.id) x.0 x.1 l;
      }

  unfoldable pub prepared : Call → Opportunity → Store → Ledger → Option Refusal → Called
  prepared c o s l (some b) = record { answer = not_sent b; store = s; ledger = l }
  prepared c o s l none =
      if c.macro_pause
      then record { answer = macro_paused; store = s; ledger = l }
      else with_claim c o s (claim_alert rounded fingerprint c.plans (may_retry o s) c.at_ms o l)

  unfoldable pub unblocked : Call → Opportunity → Store → Ledger → Option Refusal → Called
  unblocked c o s l (some b) = record { answer = not_sent b; store = s; ledger = l }
  unblocked c o s l none =
      if o.is_v22 && not c.live_checks
      then record { answer = live_check_unavailable; store = s; ledger = l }
      else prepared c o s l (if o.is_v22 then c.prepare_initial else none)

  unfoldable pub deliver_initial : Call → Opportunity → Store → Ledger → Called
  deliver_initial c o s l =
      unblocked c o s l
        (initial_delivery_block allowed (view c.first s) o.id c.first.initial_signal)
