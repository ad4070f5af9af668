-- ===== src/Notifications/Tests.antt =====
-- The theorems on notifications at concrete inputs.
use bybitflow.Prelude.{◌≤◌, ◌≡◌, refl, Bool, true, false, none, some, [], ◌∷◌, ◌↔◌}
use bybitflow.Lifecycle.Signal.{long, short, alerted}
use bybitflow.Notifications.Keys.{
  Key, initial_key, Row, Status, sent, refused, opposing_visible_active_setup,
}
use bybitflow.Notifications.Visibility.{Plan, View, initial_delivery_block}
use bybitflow.Notifications.Outbox.{
  Store, Request, Inputs, success, Phase, started, posted, done, Answer, advance, deliver, view,
  start, claim,
}
use bybitflow.Notifications.Interleaving.{System, begin, next, call, run, posts_of}
use bybitflow.Notifications.AtMostOnce.{one_post_per_key}
use bybitflow.Notifications.Clear.{Current, IsClear, unblocked_iff}
use bybitflow.Notifications.Terminals.{
  TerminalStatus, TerminalRow, too_many_requests, retry_terminal,
}
use bybitflow.Notifications.Retries.{Retried, retry-Retried}

abbrev pub allow_none : Plan → Plan → Bool
allow_none p q = false

abbrev long_plan : Plan
long_plan = record {
  id = 1;
  symbol = 5;
  direction = long;
  state = alerted;
  expires_ms = 90000;
  trigger_expires_ms = 60000;
  holding_deadline_ms = 0;
}

abbrev pub no_store : Store
no_store = record {
  rows = [];
  dispatched = λ id. none;
  delivered_to = λ channel id. none;
  initial_webhook = λ id. none;
  posts = [];
}

abbrev pub at_noon : Inputs
at_noon = record {
  now = 40000;
  signals = long_plan ∷ [];
  current_webhook = some 9;
  initial_signal = some long_plan;
  finalize_initial = none;
  guard_initial = none;
  fresh_payload = 2;
  response = success (some 77);
}

abbrev card : Request
card = record {
  key = initial_key 0 1;
  has_factory = true;
  official = true;
  webhook = 9;
  payload = 1;
}

abbrev idle : System
idle = record { store = no_store; tasks = [] }

card_is_posted :
    (deliver allow_none 8 (λ n. at_noon) card started no_store).1.posts ≡ initial_key 0 1 ∷ []
unfolding deliver advance bybitflow.Notifications.Outbox.start
    bybitflow.Notifications.Outbox.existing_phase bybitflow.Notifications.Outbox.safe_retry
    bybitflow.Notifications.Outbox.is_update_unseen bybitflow.Notifications.Outbox.initial_block
    bybitflow.Notifications.Outbox.refusal_phase bybitflow.Notifications.Outbox.claim
    bybitflow.Notifications.Outbox.claim_first bybitflow.Notifications.Outbox.claim_again
    bybitflow.Notifications.Outbox.put_dispatched bybitflow.Notifications.Outbox.inspect
    bybitflow.Notifications.Outbox.finalized bybitflow.Notifications.Outbox.checked
    bybitflow.Notifications.Outbox.dispatch bybitflow.Notifications.Outbox.receive
    bybitflow.Notifications.Outbox.close bybitflow.Notifications.Outbox.view
    bybitflow.Notifications.Visibility.initial_delivery_block
    bybitflow.Notifications.Visibility.current_block bybitflow.Notifications.Visibility.window_block
    bybitflow.Notifications.Visibility.opposed
    bybitflow.Notifications.Visibility.opposing_visible_setup
    bybitflow.Notifications.Visibility.opposing_among bybitflow.Notifications.Visibility.opposes
    bybitflow.Notifications.Visibility.stored
    bybitflow.Notifications.Visibility.was_initially_delivered
    bybitflow.Notifications.Visibility.is_delivered bybitflow.Notifications.Visibility.webhook_of
    bybitflow.Notifications.Visibility.destination_matches
    bybitflow.Notifications.Visibility.same_webhook
    bybitflow.Notifications.Visibility.same_direction bybitflow.Notifications.Keys.row_of
    bybitflow.Notifications.Keys.change bybitflow.Notifications.Keys.is_retryable
    bybitflow.Notifications.Keys.is_sent bybitflow.Notifications.Keys.is_blocked
card_is_posted = refl

one_post_per_key_example : posts_of (initial_key 0 1) (initial_key 0 1 ∷ []) ≤ 1
unfolding deliver advance bybitflow.Notifications.Outbox.start
    bybitflow.Notifications.Outbox.existing_phase bybitflow.Notifications.Outbox.safe_retry
    bybitflow.Notifications.Outbox.is_update_unseen bybitflow.Notifications.Outbox.initial_block
    bybitflow.Notifications.Outbox.refusal_phase bybitflow.Notifications.Outbox.claim
    bybitflow.Notifications.Outbox.claim_first bybitflow.Notifications.Outbox.claim_again
    bybitflow.Notifications.Outbox.put_dispatched bybitflow.Notifications.Outbox.inspect
    bybitflow.Notifications.Outbox.finalized bybitflow.Notifications.Outbox.checked
    bybitflow.Notifications.Outbox.dispatch bybitflow.Notifications.Outbox.receive
    bybitflow.Notifications.Outbox.close bybitflow.Notifications.Outbox.view
    bybitflow.Notifications.Visibility.initial_delivery_block
    bybitflow.Notifications.Visibility.current_block bybitflow.Notifications.Visibility.window_block
    bybitflow.Notifications.Visibility.opposed
    bybitflow.Notifications.Visibility.opposing_visible_setup
    bybitflow.Notifications.Visibility.opposing_among bybitflow.Notifications.Visibility.opposes
    bybitflow.Notifications.Visibility.stored
    bybitflow.Notifications.Visibility.was_initially_delivered
    bybitflow.Notifications.Visibility.is_delivered bybitflow.Notifications.Visibility.webhook_of
    bybitflow.Notifications.Visibility.destination_matches
    bybitflow.Notifications.Visibility.same_webhook
    bybitflow.Notifications.Visibility.same_direction bybitflow.Notifications.Keys.row_of
    bybitflow.Notifications.Keys.change bybitflow.Notifications.Keys.is_retryable
    bybitflow.Notifications.Keys.is_sent bybitflow.Notifications.Keys.is_blocked
one_post_per_key_example =
    one_post_per_key allow_none [] (λ id. none) (λ channel id. none) (λ id. none) _
      (initial_key 0 1)
      (next
        (next
          (next
            (next
              (next (next (next begin (call card)) (run [] [] _ at_noon refl))
                (run [] [] _ at_noon refl))
              (run [] [] _ at_noon refl))
            (run [] [] _ at_noon refl))
          (run [] [] _ at_noon refl))
        (run [] [] _ at_noon refl))

abbrev claimed_store : Store
claimed_store = record no_store {
  rows =
      (record {
        key = initial_key 0 1;
        status = Status.sending;
        payload = 1;
        message_id = none;
        updated_ms = 39000;
      })
      ∷ [];
}

-- A visible short plan stands against the long one.
abbrev short_plan : Plan
short_plan = record long_plan { id = 2; direction = short }

abbrev pub contested : View
contested = record {
  now = 40000;
  signals = long_plan ∷ short_plan ∷ [];
  outbox =
      (record {
        key = initial_key 1 2;
        status = sent;
        payload = 1;
        message_id = some 70;
        updated_ms = 10000;
      })
      ∷ [];
  delivered_to = λ channel id. some 9;
  initial_webhook = λ id. none;
  current_webhook = some 9;
}

contested_is_blocked :
    initial_delivery_block allow_none contested 1 none ≡ some opposing_visible_active_setup
unfolding deliver advance bybitflow.Notifications.Outbox.start
    bybitflow.Notifications.Outbox.existing_phase bybitflow.Notifications.Outbox.safe_retry
    bybitflow.Notifications.Outbox.is_update_unseen bybitflow.Notifications.Outbox.initial_block
    bybitflow.Notifications.Outbox.refusal_phase bybitflow.Notifications.Outbox.claim
    bybitflow.Notifications.Outbox.claim_first bybitflow.Notifications.Outbox.claim_again
    bybitflow.Notifications.Outbox.put_dispatched bybitflow.Notifications.Outbox.inspect
    bybitflow.Notifications.Outbox.finalized bybitflow.Notifications.Outbox.checked
    bybitflow.Notifications.Outbox.dispatch bybitflow.Notifications.Outbox.receive
    bybitflow.Notifications.Outbox.close bybitflow.Notifications.Outbox.view
    bybitflow.Notifications.Visibility.initial_delivery_block
    bybitflow.Notifications.Visibility.current_block bybitflow.Notifications.Visibility.window_block
    bybitflow.Notifications.Visibility.opposed
    bybitflow.Notifications.Visibility.opposing_visible_setup
    bybitflow.Notifications.Visibility.opposing_among bybitflow.Notifications.Visibility.opposes
    bybitflow.Notifications.Visibility.stored
    bybitflow.Notifications.Visibility.was_initially_delivered
    bybitflow.Notifications.Visibility.is_delivered bybitflow.Notifications.Visibility.webhook_of
    bybitflow.Notifications.Visibility.destination_matches
    bybitflow.Notifications.Visibility.same_webhook
    bybitflow.Notifications.Visibility.same_direction bybitflow.Notifications.Keys.row_of
    bybitflow.Notifications.Keys.change bybitflow.Notifications.Keys.is_retryable
    bybitflow.Notifications.Keys.is_sent bybitflow.Notifications.Keys.is_blocked
contested_is_blocked = refl

unblocked_iff_example :
    (initial_delivery_block allow_none contested 1 none ≡ none)
    ↔ ((p : Plan) × (Current contested 1 none p × IsClear allow_none contested p))
unblocked_iff_example = unblocked_iff allow_none contested 1 none

abbrev ended : TerminalRow
ended = record { signal_id = 2; status = TerminalStatus.pending; attempts = 3; next_ms = 39000 }

limited_is_put_off :
    (retry_terminal contested true false (too_many_requests 120000) ended).row.next_ms ≡ 160000
unfolding retry_terminal bybitflow.Notifications.Terminals.retry_initial
    bybitflow.Notifications.Terminals.retry_message bybitflow.Notifications.Terminals.retry_sent
    bybitflow.Notifications.Terminals.first_initial bybitflow.Notifications.Terminals.earlier
    bybitflow.Notifications.Terminals.patched bybitflow.Notifications.Terminals.answered_row
    bybitflow.Notifications.Terminals.wait_ms
    bybitflow.Notifications.Visibility.was_initially_delivered
    bybitflow.Notifications.Visibility.is_delivered bybitflow.Notifications.Visibility.webhook_of
    bybitflow.Notifications.Visibility.destination_matches
    bybitflow.Notifications.Visibility.same_webhook bybitflow.Notifications.Keys.row_of
    bybitflow.Notifications.Keys.is_sent
limited_is_put_off = refl

retry-Retried_example :
    Retried contested true false
      (too_many_requests 120000)
      ended
      (retry_terminal contested true false (too_many_requests 120000) ended)
retry-Retried_example = retry-Retried contested true false (too_many_requests 120000) ended
