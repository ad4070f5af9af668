-- ===== src/Notifications/ClaimTests.antt =====
-- The theorems on claims at concrete plans.
use bybitflow.Prelude.{ℕ, ◌≡◌, refl, true, false, none, some, [], ◌∷◌, ◌↔◌, ◌⊎◌}
use bybitflow.Lifecycle.Signal.{long, alerted}
use bybitflow.Notifications.Keys.{
  Key, initial_key, Row, Status, sent, refused, opposing_visible_active_setup,
}
use bybitflow.Notifications.Visibility.{Plan, View, initial_delivery_block}
use bybitflow.Notifications.Outbox.{
  Store, Request, Inputs, success, Phase, started, marked, posted, done, Answer, advance, deliver,
  view, start, claim,
}
use bybitflow.Notifications.Opportunity.{Opportunity, Relationship}
use bybitflow.Notifications.Claims.{Ledger, claim_of, can_reclaim, found, claim_alert}
use bybitflow.Notifications.Grants.{OwnsBlocked, granted_iff}
use bybitflow.Notifications.Twins.{HasTwin}
use bybitflow.Notifications.Initial.{Call, deliver_initial}
use bybitflow.Notifications.Ownership
use bybitflow.Notifications.OneMessage.{one_message_per_fingerprint}
use bybitflow.Notifications.Tests.{allow_none, no_store, at_noon}

abbrev by_horizon : Opportunity → ℕ
by_horizon o = o.horizon_profile

abbrev in_ticks : Opportunity → ℕ → ℕ
in_ticks o price = price

abbrev breakout : Opportunity
breakout = record {
  id = 1;
  source = 0;
  symbol = 5;
  direction = long;
  horizon_profile = 3;
  state = alerted;
  is_v22 = true;
  score_profile = none;
  quality = 8000;
  entry = 100;
  zone = (99, 101);
  stop = 90;
  tp1 = 120;
  created_ms = 30000;
  expires_ms = 90000;
  holding_deadline_ms = 0;
  event_start_ms = some 20000;
  trigger_bar_end = some 25000;
}

-- The same execution event, claimed and sent under an older fingerprint in the ledger below.
abbrev twin : Opportunity
twin = record breakout { id = 2; horizon_profile = 3; quality = 7000; created_ms = 31000 }

abbrev ledger : Ledger
ledger = record {
  claims =
      (record {
        fingerprint = 3;
        signal_id = 1;
        cluster_id = 1;
        claimed_ms = 30000;
        delivery_status = refused opposing_visible_active_setup;
        message_id = none;
      })
      ∷ (record {
        fingerprint = 4;
        signal_id = 2;
        cluster_id = 2;
        claimed_ms = 31000;
        delivery_status = sent;
        message_id = some 70;
      })
      ∷ [];
  members =
      (record {
        signal_id = 2;
        fingerprint = 4;
        cluster_id = 2;
        relation = Relationship.materially_different_plan;
        created_ms = 31000;
      })
      ∷ [];
  attempts = [];
}

-- The retry is granted although a plan with the same execution event was sent.
retry_after_twin :
    ((found in_ticks by_horizon (twin ∷ []) ledger breakout).economic_duplicate ≡ true)
    × ((claim_alert in_ticks by_horizon (twin ∷ []) true 40000 breakout ledger).0 ≡ true)
unfolding claim_alert bybitflow.Notifications.Claims.claim_found
    bybitflow.Notifications.Claims.try_again bybitflow.Notifications.Claims.recorded
    bybitflow.Notifications.Claims.claim_of bybitflow.Notifications.Claims.can_reclaim
    bybitflow.Notifications.Claims.scan bybitflow.Notifications.Claims.rivals
    bybitflow.Notifications.Claims.joined bybitflow.Notifications.Claims.plan_of
    bybitflow.Notifications.Claims.insert_rival bybitflow.Notifications.Claims.suspected
    bybitflow.Notifications.Claims.is_primary bybitflow.Notifications.Claims.has_prior
    bybitflow.Notifications.Claims.is_open bybitflow.Notifications.Claims.is_related
    bybitflow.Notifications.Opportunity.relationship
    bybitflow.Notifications.Opportunity.same_v22_execution_event
    bybitflow.Notifications.Opportunity.is_far bybitflow.Notifications.Opportunity.same_rubric
    bybitflow.Notifications.Keys.is_retryable bybitflow.Notifications.Keys.is_blocked
    bybitflow.Notifications.Visibility.same_direction
retry_after_twin = (refl, refl)

granted_iff_example :
    ((claim_alert in_ticks by_horizon (twin ∷ []) true 40000 breakout ledger).0 ≡ true) ↔ (
      ((claim_of 3 ledger.claims ≡ none) × (¬ HasTwin in_ticks (twin ∷ []) ledger breakout))
      ⊎ ((true ≡ true) × OwnsBlocked in_ticks by_horizon breakout ledger))
granted_iff_example = granted_iff in_ticks by_horizon (twin ∷ []) true 40000 breakout ledger

abbrev no_claims : Ledger
no_claims = record { claims = []; members = []; attempts = [] }

abbrev call_at_noon : Call
call_at_noon = record {
  channel = 0;
  official = true;
  webhook = 9;
  payload = 1;
  first = at_noon;
  steps = λ n. at_noon;
  live_checks = true;
  prepare_initial = none;
  macro_pause = false;
  plans = [];
  at_ms = 40000;
}

one_message_per_fingerprint_example :
    (deliver_initial allow_none in_ticks by_horizon call_at_noon twin no_store
      (deliver_initial allow_none in_ticks by_horizon call_at_noon breakout no_store
        no_claims).ledger).store.posts
    ≡ []
unfolding deliver advance bybitflow.Notifications.Outbox.start
    bybitflow.Notifications.Outbox.existing_phase bybitflow.Notifications.Outbox.safe_retry
    bybitflow.Notifications.Outbox.is_update_unseen bybitflow.Notifications.Outbox.initial_block
    bybitflow.Notifications.Outbox.refusal_phase bybitflow.Notifications.Outbox.claim
    bybitflow.Notifications.Outbox.claim_first bybitflow.Notifications.Outbox.claim_again
    bybitflow.Notifications.Outbox.put_dispatched bybitflow.Notifications.Outbox.inspect
    bybitflow.Notifications.Outbox.finalized bybitflow.Notifications.Outbox.checked
    bybitflow.Notifications.Outbox.dispatch bybitflow.Notifications.Outbox.receive
    bybitflow.Notifications.Outbox.close bybitflow.Notifications.Outbox.view
    bybitflow.Notifications.Visibility.initial_delivery_block
    bybitflow.Notifications.Visibility.current_block bybitflow.Notifications.Visibility.window_block
    bybitflow.Notifications.Visibility.opposed
    bybitflow.Notifications.Visibility.opposing_visible_setup
    bybitflow.Notifications.Visibility.opposing_among bybitflow.Notifications.Visibility.opposes
    bybitflow.Notifications.Visibility.stored
    bybitflow.Notifications.Visibility.was_initially_delivered
    bybitflow.Notifications.Visibility.is_delivered bybitflow.Notifications.Visibility.webhook_of
    bybitflow.Notifications.Visibility.destination_matches
    bybitflow.Notifications.Visibility.same_webhook
    bybitflow.Notifications.Visibility.same_direction bybitflow.Notifications.Keys.row_of
    bybitflow.Notifications.Keys.change bybitflow.Notifications.Keys.is_retryable
    bybitflow.Notifications.Keys.is_sent bybitflow.Notifications.Keys.is_blocked deliver_initial
    bybitflow.Notifications.Initial.unblocked bybitflow.Notifications.Initial.prepared
    bybitflow.Notifications.Initial.with_claim claim_alert
    bybitflow.Notifications.Claims.claim_found bybitflow.Notifications.Claims.recorded
    bybitflow.Notifications.Claims.claim_of bybitflow.Notifications.Claims.scan
    bybitflow.Notifications.Claims.rivals
one_message_per_fingerprint_example =
    one_message_per_fingerprint allow_none in_ticks by_horizon call_at_noon call_at_noon breakout
      twin no_store no_store no_claims _ (λ e. cc) Ownership.begin refl (λ e. cc)
