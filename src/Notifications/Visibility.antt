-- ===== src/Notifications/Visibility.antt =====
-- What makes a setup visible and what blocks its first message: `was_initially_delivered`,
-- `initial_delivery_block` and `opposing_visible_setup` of src/bybit_flow/notifications.py. Left
-- out is what they write for the dashboard and the evidence of an exception.
use bybitflow.Prelude.{
  ℕ, ◌+◌, Bool, true, false, not, ◌&&◌, ◌||◌, Option, none, some, List, [], ◌∷◌, ◌==◌, leb, ltb,
  if◌then◌else◌, min,
}
use bybitflow.Lifecycle.Signal.{State, Direction, long, short, is_terminal}
use bybitflow.Notifications.Keys.{
  Row, row_of, initial_key, is_sent, Refusal, terminal_setup, no_active_setup, entry_window_expired,
  entry_window_too_short, opposing_visible_active_setup,
}

-- What the checks read of a stored plan. A time that is missing is 0, which Python takes as false
-- like None.
pub record Plan : Type 0 where
  pub id : ℕ
  pub symbol : ℕ
  pub direction : Direction
  pub state : State
  pub expires_ms : ℕ
  pub trigger_expires_ms : ℕ
  pub holding_deadline_ms : ℕ

-- The tables at one instant, and the webhooks of the initial messages: by channel and plan, and by
-- plan only. The last is the webhook of the settings.
pub record View : Type 0 where
  pub now : ℕ
  pub signals : List Plan
  pub outbox : List Row
  pub delivered_to : ℕ → ℕ → Option ℕ
  pub initial_webhook : ℕ → Option ℕ
  pub current_webhook : Option ℕ

-- `delivery.get("webhook_id") or get("discord_initial_webhook_id:…")`
abbrev pub either : Option ℕ → Option ℕ → Option ℕ
either none o = o
either (some w) o = some w

unfoldable pub same_webhook : Option ℕ → Option ℕ → Bool
same_webhook none none = true
same_webhook none (some b) = false
same_webhook (some a) none = false
same_webhook (some a) (some b) = a == b

-- `not webhook_id or webhook_id == current_webhook_id`
unfoldable pub destination_matches : Option ℕ → Option ℕ → Bool
destination_matches none c = true
destination_matches (some w) c = same_webhook (some w) c

abbrev pub has_message : Option ℕ → Bool
has_message none = false
has_message (some m) = true

unfoldable pub is_delivered : Option Row → Bool
is_delivered none = false
is_delivered (some r) = is_sent r.status && has_message r.message_id

unfoldable pub webhook_of : View → ℕ → ℕ → Option ℕ
webhook_of v channel id = either (v.delivered_to channel id) (v.initial_webhook id)

unfoldable pub was_initially_delivered : View → ℕ → ℕ → Bool
was_initially_delivered v id channel =
    is_delivered (row_of (initial_key channel id) v.outbox)
    && destination_matches (webhook_of v channel id) v.current_webhook

-- `any(was_initially_delivered(ident, c) for c in ("research", "validated"))`
abbrev pub is_visible : View → ℕ → Bool
is_visible v id = was_initially_delivered v id 0 || was_initially_delivered v id 1

unfoldable pub stored : ℕ → List Plan → Option Plan
stored id [] = none
stored id (p ∷ ps) = if p.id == id then some p else stored id ps

unfoldable pub same_direction : Direction → Direction → Bool
same_direction long long = true
same_direction long short = false
same_direction short long = false
same_direction short short = true

abbrev pub or_else : ℕ → ℕ → ℕ
or_else a b = if a == 0 then b else a

-- The plans that `opposing_visible_setup` reviews.
unfoldable pub opposes : View → Plan → Plan → Bool
opposes v plan other =
    ((other.symbol == plan.symbol)
      && (not (is_terminal other.state)
          && (not (other.id == plan.id)
              && (not (same_direction other.direction plan.direction)
                  && ltb v.now (or_else other.holding_deadline_ms other.expires_ms)))))
    && is_visible v other.id

abbrev pub entry_deadline : Plan → ℕ
entry_deadline p = min p.expires_ms (or_else p.trigger_expires_ms p.expires_ms)

abbrev pub initial_request_timeout_ms : ℕ
initial_request_timeout_ms = 15000

unfoldable pub opposed : Option ℕ → Option Refusal
opposed none = none
opposed (some id) = some opposing_visible_active_setup

-- `allowed` is the "allowed" of `notification_conflicts.assess`.
module _ (allowed : Plan → Plan → Bool) where
  unfoldable pub opposing_among : View → Plan → List Plan → Option ℕ
  opposing_among v plan [] = none
  opposing_among v plan (other ∷ ps) =
      let rest = opposing_among v plan ps in
      if opposes v plan other && not (allowed plan other) then some other.id else rest

  unfoldable pub opposing_visible_setup : View → Plan → Option ℕ
  opposing_visible_setup v plan = opposing_among v plan v.signals

  unfoldable pub window_block : View → Plan → Option Refusal
  window_block v p =
      if leb (entry_deadline p) v.now
      then some entry_window_expired
      else if ltb (entry_deadline p) (v.now + initial_request_timeout_ms)
      then some entry_window_too_short
      else opposed (opposing_visible_setup v p)

  -- The stored plan, if there is one, else the one at hand.
  unfoldable pub current_block : View → Option Plan → Option Plan → Option Refusal
  current_block v (some p) signal =
      if is_terminal p.state then some terminal_setup else window_block v p
  current_block v none (some p) = window_block v p
  current_block v none none = some no_active_setup

  unfoldable pub initial_delivery_block : View → ℕ → Option Plan → Option Refusal
  initial_delivery_block v id signal = current_block v (stored id v.signals) signal
