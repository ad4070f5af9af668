-- ===== src/Notifications/Outbox.antt =====
-- `Notifier.deliver` of src/bybit_flow/notifications.py, cut where the process can stop or another
-- delivery can run: each clause of `advance` is one transaction or one request. Left out are the
-- metrics and the transport record, and `Store.monitor`, which changes no table of this model.
use bybitflow.Prelude.{
  ℕ, zero, suc, Bool, true, false, not, ◌&&◌, Option, none, some, List, ◌∷◌, ◌==◌, if◌then◌else◌,
}
use bybitflow.Notifications.Keys.{
  Key, is_card, is_initial, Refusal, no_visible_initial, Status, sending, sent, uncertain,
  rate_limited, rejected, refused, is_retryable, is_sent, Row, row_of, change,
}
use bybitflow.Notifications.Visibility.{
  Plan, View, was_initially_delivered, initial_delivery_block, has_message,
}

-- The durable state, and the POST requests made so far, newest first, which no code can read.
pub record Store : Type 0 where
  pub rows : List Row
  pub dispatched : ℕ → Option Bool
  pub delivered_to : ℕ → ℕ → Option ℕ
  pub initial_webhook : ℕ → Option ℕ
  pub posts : List Key

-- The arguments of `deliver`: whether the URL is an official webhook and its id, and whether
-- there is a `payload_factory`, which only `deliver_initial` gives.
pub record Request : Type 0 where
  pub key : Key
  pub has_factory : Bool
  pub official : Bool
  pub webhook : ℕ
  pub payload : ℕ

-- What the request comes to; `unreadable` is a success whose body is no JSON, which raises.
pub data Response : Type 0 where
  success : Option ℕ → Response
  too_many_requests failure transport_error unreadable : Response

-- What one step reads: the clock, the table signals, the settings, the plan of the card, what
-- `finalize_initial` and `guard_initial` answer, the payload of the factory and the response.
pub record Inputs : Type 0 where
  pub now : ℕ
  pub signals : List Plan
  pub current_webhook : Option ℕ
  pub initial_signal : Option Plan
  pub finalize_initial : Option Refusal
  pub guard_initial : Option Refusal
  pub fresh_payload : ℕ
  pub response : Response

pub data Answer : Type 0 where
  already_attempted not_official raised : Answer
  answered : Status → Answer

-- Where a delivery stands: at its start, before the claim, after it, after `dispatched` was put to
-- False, after the checks, after `dispatched` was put to True, after the POST, before the last
-- write, and at its end.
pub data Phase : Type 0 where
  started : Phase
  opened : Bool → Phase
  claimed reset passed marked posted : Phase
  closing : Status → Option ℕ → Phase
  done : Answer → Phase

unfoldable pub view : Inputs → Store → View
view i s = record {
  now = i.now;
  signals = i.signals;
  outbox = s.rows;
  delivered_to = s.delivered_to;
  initial_webhook = s.initial_webhook;
  current_webhook = i.current_webhook;
}

abbrev pub is_marked_unsent : Option Bool → Bool
is_marked_unsent none = false
is_marked_unsent (some b) = not b

-- `payload_factory and existing and existing[0].startswith("blocked:") and … is False`
unfoldable pub safe_retry : Request → Option Row → Option Bool → Bool
safe_retry r none d = false
safe_retry r (some row) d = r.has_factory && (is_retryable row.status && is_marked_unsent d)

abbrev pub or_refusal : Option Refusal → Option Refusal → Option Refusal
or_refusal none o = o
or_refusal (some b) o = some b

unfoldable pub refusal_phase : Phase → Option Refusal → Phase
refusal_phase p none = p
refusal_phase p (some b) = done (answered (refused b))

unfoldable pub is_update_unseen : Inputs → Request → Store → Bool
is_update_unseen i r s =
    (is_card r.key && not (is_initial r.key))
    && not (was_initially_delivered (view i s) r.key.subject r.key.channel)

abbrev pub sending_again : Inputs → Request → Row → Row
sending_again i r row = record row { status = sending; payload = r.payload; updated_ms = i.now }

abbrev pub first_row : Inputs → Request → Row
first_row i r = record {
  key = r.key;
  status = sending;
  payload = r.payload;
  message_id = none;
  updated_ms = i.now;
}

-- UPDATE … WHERE key AND status LIKE 'blocked:%', which counts the row only if it is there.
unfoldable pub claim_again : Inputs → Request → Store → Option Row → Phase × Store
claim_again i r s none = (done already_attempted, s)
claim_again i r s (some row) =
    if is_retryable row.status
    then (claimed, record s { rows = change (sending_again i r) r.key s.rows })
    else (done already_attempted, s)

-- INSERT OR IGNORE.
unfoldable pub claim_first : Inputs → Request → Store → Option Row → Phase × Store
claim_first i r s none = (claimed, record s { rows = first_row i r ∷ s.rows })
claim_first i r s (some row) = (done already_attempted, s)

unfoldable pub claim : Bool → Inputs → Request → Store → Phase × Store
claim true i r s = claim_again i r s (row_of r.key s.rows)
claim false i r s = claim_first i r s (row_of r.key s.rows)

unfoldable pub put_dispatched : Bool → Request → Store → Store
put_dispatched b r s =
    if r.has_factory
    then record s { dispatched = λ id. if id == r.key.subject then some b else s.dispatched id }
    else s

unfoldable pub checked : Phase → Option Refusal → Phase
checked p none = p
checked p (some b) = closing (refused b) none

abbrev pub with_payload : Inputs → Row → Row
with_payload i row = record row { payload = i.fresh_payload }

-- The last check and, if nothing blocks, the POST.
unfoldable pub dispatch : Request → Store → Option Refusal → Phase × Store
dispatch r s none = (posted, record s { posts = r.key ∷ s.posts })
dispatch r s (some b) = (closing (refused b) none, put_dispatched false r s)

unfoldable pub receive : Response → Phase
receive (success id) = closing sent id
receive too_many_requests = closing rate_limited none
receive failure = closing rejected none
receive transport_error = closing uncertain none
receive unreadable = done raised

abbrev pub with_status : Inputs → Status → Option ℕ → Row → Row
with_status i st m row = record row { status = st; message_id = m; updated_ms = i.now }

-- The last transaction, which also stores where an initial message went.
unfoldable pub close : Inputs → Request → Status → Option ℕ → Store → Store
close i r st m s =
    let t : Store = record s { rows = change (with_status i st m) r.key s.rows } in
    if is_initial r.key && (is_sent st && has_message m)
    then record t {
      delivered_to = λ channel id.
          if (channel == r.key.channel) && (id == r.key.subject)
          then some r.webhook
          else t.delivered_to channel id;
      initial_webhook = λ id. if id == r.key.subject then some r.webhook else t.initial_webhook id;
    }
    else t

module _ (allowed : Plan → Plan → Bool) where
  abbrev pub block : Inputs → Request → Store → Option Refusal
  block i r s = initial_delivery_block allowed (view i s) r.key.subject i.initial_signal

  -- `initial_delivery_block(…) if real_initial else None`
  unfoldable pub initial_block : Inputs → Request → Store → Option Refusal
  initial_block i r s = if is_initial r.key then block i r s else none

  unfoldable pub existing_phase : Inputs → Request → Store → Option Row → Phase
  existing_phase i r s none = refusal_phase (opened false) (initial_block i r s)
  existing_phase i r s (some row) =
      if safe_retry r (some row) (s.dispatched r.key.subject)
      then refusal_phase (opened true) (initial_block i r s)
      else done already_attempted

  unfoldable pub start : Inputs → Request → Store → Phase
  start i r s =
      if is_update_unseen i r s
      then done (answered (refused no_visible_initial))
      else if r.official
      then existing_phase i r s (row_of r.key s.rows)
      else done not_official

  -- The checks after the claim with a factory, for what `finalize_initial` answers: the new
  -- payload is stored before the block is read again.
  unfoldable pub finalized : Inputs → Request → Store → Option Refusal → Phase × Store
  finalized i r s (some b) = (closing (refused b) none, s)
  finalized i r s none =
      let t : Store = record s { rows = change (with_payload i) r.key s.rows } in
      (checked passed (or_refusal (block i r t) i.guard_initial), t)

  unfoldable pub inspect : Inputs → Request → Store → Option Refusal → Phase × Store
  inspect i r s (some b) = (closing (refused b) none, s)
  inspect i r s none = if r.has_factory then finalized i r s i.finalize_initial else (passed, s)

  abbrev pub last_block : Inputs → Request → Store → Option Refusal
  last_block i r s = if r.has_factory then or_refusal (block i r s) i.guard_initial else none

  -- The next step of a delivery.
  unfoldable pub advance : Inputs → Request → Phase → Store → Phase × Store
  advance i r started s = (start i r s, s)
  advance i r (opened safe) s = claim safe i r s
  advance i r claimed s = (reset, put_dispatched false r s)
  advance i r reset s = inspect i r s (initial_block i r s)
  advance i r passed s = (marked, put_dispatched true r s)
  advance i r marked s = dispatch r s (last_block i r s)
  advance i r posted s = (receive i.response, s)
  advance i r (closing st m) s = (done (answered st), close i r st m s)
  advance i r (done a) s = (done a, s)

  -- `deliver`: the steps of one delivery, at most `fuel` of them, each on what it reads then.
  unfoldable pub deliver : ℕ → (ℕ → Inputs) → Request → Phase → Store → Phase × Store
  deliver zero inputs r ph s = (ph, s)
  deliver (suc fuel) inputs r ph s =
      deliver fuel inputs r (advance (inputs fuel) r ph s).0 (advance (inputs fuel) r ph s).1
