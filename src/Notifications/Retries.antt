-- ===== src/Notifications/Retries.antt =====
-- What a retry of a terminal update may do.
use bybitflow.Prelude.{
  ℕ, zero, suc, ◌+◌, ◌^◌, ◌≤◌, ◌≡◌, refl, subst, min, Bool, true, false, ◌&&◌, Option, none, some,
  List, [], ◌∷◌, Memᴰ, arith, leb, ◌⊎◌, if◌then◌else◌, ◌==◌, inl, inr, ◌↔◌, Bool-cases,
}
use bybitflow.Notifications.Keys.{is_initial, is_sent, Row}
use bybitflow.Notifications.Visibility.{View, was_initially_delivered}
use bybitflow.Notifications.Terminals.{
  TerminalRow, PatchResponse, success, too_many_requests, unreadable, client_error, server_error,
  transport_error, Turn, earlier, first_initial, delay_ms, wait_ms, is_current, retry_sent,
  retry_message, retry_initial, retry_terminal, patched, kept_row, is_due, is_pending, answered_row,
  hour_ms, misdirected, blocked_no_visible_initial, failed, pending, sent, TerminalStatus,
}

two_pow : (n : ℕ) → 2 ≤ 2 ^ (suc n)
two_pow zero = omega arith
two_pow (suc n) = omega (arith, two_pow n)

delay_bounds : (n : ℕ) → (2000 ≤ delay_ms n) × (delay_ms n ≤ 300000)
delay_bounds n =
    let e : min (n + 1) 8 ≡ suc (min n 7) = omega arith in
    rw e (omega (arith, two_pow (min n 7)), omega arith)

wait_bounds : (n : ℕ) (x : PatchResponse) → (2000 ≤ wait_ms n x) × (wait_ms n x ≤ hour_ms)
unfolding wait_ms
wait_bounds n success = omega (arith, delay_bounds n)
wait_bounds n (too_many_requests after) = omega (arith, delay_bounds n)
wait_bounds n unreadable = omega (arith, delay_bounds n)
wait_bounds n client_error = omega (arith, delay_bounds n)
wait_bounds n server_error = omega (arith, delay_bounds n)
wait_bounds n transport_error = omega (arith, delay_bounds n)

-- A message of the plan's own initial card: sent, in the outbox, and visible where the settings
-- now point.
pub record IsVisibleMessage (v : View) (id message : ℕ) (q : Row) : Type 0 where
  pub stored : Memᴰ q v.outbox
  pub own : (q.key.subject ≡ id) × ((is_initial q.key ≡ true) × (is_sent q.status ≡ true))
  pub text : q.message_id ≡ some message
  pub visible : was_initially_delivered v id q.key.channel ≡ true
  pub destination : is_current v q.key.channel id ≡ true

-- What the response makes of the status of the row.
abbrev pub Settles : PatchResponse → TerminalStatus → Type 0
Settles success st = st ≡ sent
Settles (too_many_requests after) st = st ≡ pending
Settles unreadable st = ⊥
Settles client_error st = st ≡ failed
Settles server_error st = st ≡ pending
Settles transport_error st = st ≡ pending

pub data Retried (v : View) (official price_raises : Bool) (x : PatchResponse) (t : TerminalRow)
    : Turn → Type 0 where
  skipped : official ≡ false → Retried v official price_raises x t (kept_row t)
  unsendable :
      (first_initial t.signal_id v.outbox ≡ none)
        ⊎ ((q : Row) × ((first_initial t.signal_id v.outbox ≡ some q) × (q.message_id ≡ none)))
      → Retried v official price_raises x t (kept_row (record t { status = failed }))
  hidden :
      (q : Row)
      → first_initial t.signal_id v.outbox ≡ some q
      → was_initially_delivered v t.signal_id q.key.channel ≡ false
      → Retried v official price_raises x t
          (kept_row (record t { status = blocked_no_visible_initial }))
  elsewhere :
      (q : Row)
      → first_initial t.signal_id v.outbox ≡ some q
      → is_current v q.key.channel t.signal_id ≡ false
      → Retried v official price_raises x t (kept_row (misdirected v.now t))
  interrupted :
      (message : ℕ) (q : Row)
      → IsVisibleMessage v t.signal_id message q
      → x ≡ unreadable
      → Retried v official price_raises x t
          (record { row = t; edited = some message; price_result = false; raised = true })
  unpriced :
      (message : ℕ) (q : Row)
      → IsVisibleMessage v t.signal_id message q
      → x ≡ success
      → price_raises ≡ true
      → Retried v official price_raises x t
          (record { row = t; edited = some message; price_result = true; raised = true })
  tried :
      (message : ℕ) (q : Row) (row : TerminalRow) (succeeded : Bool)
      → IsVisibleMessage v t.signal_id message q
      → (row.signal_id ≡ t.signal_id) × (row.attempts ≡ t.attempts + 1)
      → (v.now + 2000 ≤ row.next_ms) × (row.next_ms ≤ v.now + hour_ms)
      → Settles x row.status
      → (succeeded ≡ true) ↔ (x ≡ success)
      → Retried v official price_raises x t
          (record { row = row; edited = some message; price_result = succeeded; raised = false })

IsFirst : ℕ → List Row → Row → Type 0
IsFirst id rs q =
    Memᴰ q rs × ((q.key.subject ≡ id) × ((is_initial q.key ≡ true) × (is_sent q.status ≡ true)))

found_IsFirst : (id : ℕ) (rs : List Row) (q : Row) → first_initial id rs ≡ some q → IsFirst id rs q
unfolding first_initial earlier IsFirst
found_IsFirst id [] q h = cc
found_IsFirst id (r ∷ rs) q h =
    go (λ p e. found_IsFirst id rs p e)
      ((r.key.subject == id) && (is_initial r.key && is_sent r.status)) refl h
  where
    tail : (p : Row) → IsFirst id rs p → IsFirst id (r ∷ rs) p
    tail p (m, o) = (Memᴰ.tail m, o)

    parts :
        (a : ℕ) (b c : Bool) → ((a == id) && (b && c)) ≡ true → (a ≡ id) × ((b ≡ true) × (c ≡ true))
    parts a b c e = ground arith

    same_row : {x : Row} → some x ≡ some q → x ≡ q
    same_row e = cc

    front :
        ((r.key.subject == id) && (is_initial r.key && is_sent r.status)) ≡ true
        → IsFirst id (r ∷ rs) r
    front e = (Memᴰ.head refl, parts r.key.subject (is_initial r.key) (is_sent r.status) e)

    chosen :
        ((p : Row) → first_initial id rs ≡ some p → IsFirst id rs p)
        → ((r.key.subject == id) && (is_initial r.key && is_sent r.status)) ≡ true
        → (o : Option Row) → first_initial id rs ≡ o
        → earlier r o ≡ some q
        → IsFirst id (r ∷ rs) q
    chosen ih e none f k = subst (λ x. IsFirst id (r ∷ rs) x) (same_row k) (front e)
    chosen ih e (some p) f k = pick (leb r.updated_ms p.updated_ms) k
      where
        pick : (b : Bool) → (if b then some r else some p) ≡ some q → IsFirst id (r ∷ rs) q
        pick true j = subst (λ x. IsFirst id (r ∷ rs) x) (same_row j) (front e)
        pick false j = subst (λ x. IsFirst id (r ∷ rs) x) (same_row j) (tail p (ih p f))

    go :
        ((p : Row) → first_initial id rs ≡ some p → IsFirst id rs p)
        → (b : Bool) → ((r.key.subject == id) && (is_initial r.key && is_sent r.status)) ≡ b
        → (if b then earlier r (first_initial id rs) else first_initial id rs) ≡ some q
        → IsFirst id (r ∷ rs) q
    go ih true e k = chosen ih e (first_initial id rs) refl k
    go ih false e k = tail q (ih q k)

module _ (v : View) (official price_raises : Bool) (x : PatchResponse) (t : TerminalRow) where
  patched-Retried :
      (message : ℕ) (q : Row)
      → IsVisibleMessage v t.signal_id message q
      → Retried v official price_raises x t (patched v.now price_raises t message x)
  unfolding patched answered_row bybitflow.Notifications.Terminals.status_of
      bybitflow.Notifications.Terminals.is_success
  patched-Retried message q h = go x refl
    where
      bounds :
          (y : PatchResponse)
          → (v.now + 2000 ≤ v.now + wait_ms t.attempts y)
            × (v.now + wait_ms t.attempts y ≤ v.now + hour_ms)
      bounds y = omega (arith, wait_bounds t.attempts y)

      no_success : {y : PatchResponse} → (y ≡ success → ⊥) → (false ≡ true) ↔ (y ≡ success)
      no_success n = ((λ k. cc), (λ k. absurd (n k)))

      go :
          (y : PatchResponse)
          → x ≡ y
          → Retried v official price_raises x t (patched v.now price_raises t message y)
      go success e = elim (Bool-cases price_raises) [
        | inl p ↦ rw p (unpriced message q h e refl)
        | inr p ↦ rw p (
            tried message q (answered_row v.now t success) true h (refl, refl) (bounds success)
              (rw e refl) ((λ k. e), (λ k. refl)))
      ]
      go (too_many_requests after) e =
          tried message q (answered_row v.now t (too_many_requests after)) false h (refl, refl)
            (bounds (too_many_requests after)) (rw e refl) (rw e (no_success (λ k. cc)))
      go unreadable e = interrupted message q h e
      go client_error e =
          tried message q (answered_row v.now t client_error) false h (refl, refl)
            (bounds client_error) (rw e refl) (rw e (no_success (λ k. cc)))
      go server_error e =
          tried message q (answered_row v.now t server_error) false h (refl, refl)
            (bounds server_error) (rw e refl) (rw e (no_success (λ k. cc)))
      go transport_error e =
          tried message q (answered_row v.now t transport_error) false h (refl, refl)
            (bounds transport_error) (rw e refl) (rw e (no_success (λ k. cc)))

  sent-Retried :
      (q : Row) (message : ℕ)
      → first_initial t.signal_id v.outbox ≡ some q
      → q.message_id ≡ some message
      → Retried v official price_raises x t (retry_sent v official price_raises x t q message)
  unfolding retry_sent IsFirst
  sent-Retried q message g e = by_visible (was_initially_delivered v t.signal_id q.key.channel) refl
    where
      f : IsFirst t.signal_id v.outbox q
      f = found_IsFirst t.signal_id v.outbox q g

      by_current :
          (c : Bool)
          → was_initially_delivered v t.signal_id q.key.channel ≡ true
          → is_current v q.key.channel t.signal_id ≡ c
          → Retried v official price_raises x t
              (if c then patched v.now price_raises t message x else kept_row (misdirected v.now t))
      by_current true d k =
          patched-Retried message q
            (record { stored = f.0; own = f.1; text = e; visible = d; destination = k })
      by_current false d k = elsewhere q g k

      by_official :
          (b : Bool)
          → official ≡ b
          → was_initially_delivered v t.signal_id q.key.channel ≡ true
          → Retried v official price_raises x t (
              if b
              then if is_current v q.key.channel t.signal_id
                then patched v.now price_raises t message x
                else kept_row (misdirected v.now t)
              else kept_row t)
      by_official true o d = by_current (is_current v q.key.channel t.signal_id) d refl
      by_official false o d = skipped o

      by_visible :
          (b : Bool)
          → was_initially_delivered v t.signal_id q.key.channel ≡ b
          → Retried v official price_raises x t (
              if b
              then if official
                then if is_current v q.key.channel t.signal_id
                  then patched v.now price_raises t message x
                  else kept_row (misdirected v.now t)
                else kept_row t
              else kept_row (record t { status = blocked_no_visible_initial }))
      by_visible true d = by_official official refl d
      by_visible false d = hidden q g d

  -- The turn of a terminal update edits nothing where the settings have no webhook of Discord, gives
  -- the row up where no message was sent first or it is not visible, and puts it off where the
  -- settings point elsewhere. Or it edits a message of the plan's own first card that was sent and
  -- is visible; then it counts the attempt, the row is sent after a success, failed after a client
  -- error and else pending, and is next due in 2 seconds to an hour. Or it raises, at a body that is
  -- no JSON or in the result that follows a success, and counts nothing.
  pub retry-Retried :
      Retried v official price_raises x t (retry_terminal v official price_raises x t)
  unfolding retry_terminal retry_initial retry_message
  retry-Retried = by_initial (first_initial t.signal_id v.outbox) refl
    where
      by_message :
          (q : Row) (o : Option ℕ)
          → first_initial t.signal_id v.outbox ≡ some q
          → q.message_id ≡ o
          → Retried v official price_raises x t (retry_message v official price_raises x t q o)
      by_message q none f e = unsendable (inr (q, (f, e)))
      by_message q (some message) f e = sent-Retried q message f e

      by_initial :
          (o : Option Row)
          → first_initial t.signal_id v.outbox ≡ o
          → Retried v official price_raises x t (retry_initial v official price_raises x t o)
      by_initial none e = unsendable (inl e)
      by_initial (some q) e = by_message q q.message_id e refl
