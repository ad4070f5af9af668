-- ===== src/Notifications/Terminals.antt =====
-- `Notifier.retry_terminals` of src/bybit_flow/notifications.py for one row of terminal_events: the
-- edit of the initial message of a plan that has ended. Times are in ms; the text of the card and
-- the transport record are left out.
use bybitflow.Prelude.{
  ℕ, ◌+◌, ◌*◌, ◌^◌, max, min, Bool, true, false, ◌&&◌, Option, none, some, List, [], ◌∷◌, ◌==◌, leb,
  if◌then◌else◌,
}
use bybitflow.Notifications.Keys.{is_initial, is_sent, Row}
use bybitflow.Notifications.Visibility.{View, was_initially_delivered, webhook_of, same_webhook}

pub data TerminalStatus : Type 0 where
  unseen pending sent failed blocked_no_visible_initial : TerminalStatus

pub record TerminalRow : Type 0 where
  pub signal_id : ℕ
  pub status : TerminalStatus
  pub attempts : ℕ
  pub next_ms : ℕ

-- What the PATCH comes to. A 429 says how long to wait, 0 for what is not above the plan's own
-- delay; `unreadable` is a 429 without such a body, which raises.
pub data PatchResponse : Type 0 where
  success : PatchResponse
  too_many_requests : ℕ → PatchResponse
  unreadable client_error server_error transport_error : PatchResponse

-- How the turn of one row ends: the loop goes on, or it raises. `edited` is the message that was
-- edited, and `price_result` says that `send_price_result` was called; whether that raises is an
-- argument.
pub record Turn : Type 0 where
  pub row : TerminalRow
  pub edited : Option ℕ
  pub price_result : Bool
  pub raised : Bool

-- ORDER BY updated_ms LIMIT 1.
unfoldable pub earlier : Row → Option Row → Option Row
earlier r none = some r
earlier r (some q) = if leb r.updated_ms q.updated_ms then some r else some q

-- The first initial message of a plan that was sent.
unfoldable pub first_initial : ℕ → List Row → Option Row
first_initial id [] = none
first_initial id (r ∷ rs) =
    let rest = first_initial id rs in
    if (r.key.subject == id) && (is_initial r.key && is_sent r.status) then earlier r rest else rest

-- `min(300, 2 ** min(attempts + 1, 8))`, in ms.
abbrev pub delay_ms : ℕ → ℕ
delay_ms attempts = 1000 * min 300 (2 ^ min (attempts + 1) 8)

abbrev pub hour_ms : ℕ
hour_ms = 3600000

unfoldable pub status_of : PatchResponse → TerminalStatus
status_of success = sent
status_of (too_many_requests after) = pending
status_of unreadable = pending
status_of client_error = failed
status_of server_error = pending
status_of transport_error = pending

unfoldable pub wait_ms : ℕ → PatchResponse → ℕ
wait_ms attempts success = delay_ms attempts
wait_ms attempts (too_many_requests after) = max (delay_ms attempts) (min hour_ms after)
wait_ms attempts unreadable = delay_ms attempts
wait_ms attempts client_error = delay_ms attempts
wait_ms attempts server_error = delay_ms attempts
wait_ms attempts transport_error = delay_ms attempts

-- The update after the response.
unfoldable pub answered_row : ℕ → TerminalRow → PatchResponse → TerminalRow
answered_row now t x = record t {
  status = status_of x;
  attempts = t.attempts + 1;
  next_ms = now + wait_ms t.attempts x;
}

unfoldable pub is_success : PatchResponse → Bool
is_success success = true
is_success (too_many_requests after) = false
is_success unreadable = false
is_success client_error = false
is_success server_error = false
is_success transport_error = false

-- A turn that raises leaves the row as it was, and due.
abbrev pub raised_turn : TerminalRow → ℕ → Bool → Turn
raised_turn t message called = record {
  row = t;
  edited = some message;
  price_result = called;
  raised = true;
}

abbrev pub answered : ℕ → TerminalRow → ℕ → PatchResponse → Turn
answered now t message x = record {
  row = answered_row now t x;
  edited = some message;
  price_result = is_success x;
  raised = false;
}

unfoldable pub patched : ℕ → Bool → TerminalRow → ℕ → PatchResponse → Turn
patched now price_raises t message unreadable = raised_turn t message false
patched now price_raises t message success =
    if price_raises then raised_turn t message true else answered now t message success
patched now price_raises t message x = answered now t message x

abbrev pub kept_row : TerminalRow → Turn
kept_row t = record { row = t; edited = none; price_result = false; raised = false }

-- Where the webhook of the settings is not that of the message.
unfoldable pub misdirected : ℕ → TerminalRow → TerminalRow
misdirected now t = record t {
  status = blocked_no_visible_initial;
  attempts = t.attempts + 1;
  next_ms = now + delay_ms t.attempts;
}

abbrev pub is_current : View → ℕ → ℕ → Bool
is_current v channel id = same_webhook (webhook_of v channel id) v.current_webhook

module _ (v : View) (official price_raises : Bool) (x : PatchResponse) where
  -- For an initial message with its id.
  unfoldable pub retry_sent : TerminalRow → Row → ℕ → Turn
  retry_sent t q message =
      if was_initially_delivered v t.signal_id q.key.channel
      then if official
        then if is_current v q.key.channel t.signal_id
          then patched v.now price_raises t message x
          else kept_row (misdirected v.now t)
        else kept_row t
      else kept_row (record t { status = blocked_no_visible_initial })

  unfoldable pub retry_message : TerminalRow → Row → Option ℕ → Turn
  retry_message t q none = kept_row (record t { status = failed })
  retry_message t q (some message) = retry_sent t q message

  unfoldable pub retry_initial : TerminalRow → Option Row → Turn
  retry_initial t none = kept_row (record t { status = failed })
  retry_initial t (some q) = retry_message t q q.message_id

  -- The turn of one row of the query in `retry_terminals`.
  unfoldable pub retry_terminal : TerminalRow → Turn
  retry_terminal t = retry_initial t (first_initial t.signal_id v.outbox)

-- The rows of that query, before its LIMIT 20.
unfoldable pub is_pending : TerminalStatus → Bool
is_pending pending = true
is_pending unseen = false
is_pending sent = false
is_pending failed = false
is_pending blocked_no_visible_initial = false

unfoldable pub is_due : ℕ → TerminalRow → Bool
is_due now t = is_pending t.status && leb t.next_ms now
