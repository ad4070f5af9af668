-- ===== src/Notifications/Advance.antt =====
-- Every step of a delivery is one of these changes.
use bybitflow.Prelude.{
  ℕ, ◌≡◌, refl, sym, ap, ◌∙◌, Bool, true, false, ◌&&◌, Option, none, some, Bool-cases, Option-cases,
  inl, inr, ◌⊎◌, if◌then◌else◌,
}
use bybitflow.Notifications.Keys.{
  is_initial, is_sent, Refusal, Status, refused, is_retryable, Row, row_of, change, free_row,
  is_free, is_free-change, is_free-change_same,
}
use bybitflow.Notifications.Visibility.{Plan, has_message}
use bybitflow.Notifications.Outbox.{
  Store, Request, Inputs, Response, success, too_many_requests, failure, transport_error,
  unreadable, Phase, started, opened, claimed, reset, passed, marked, posted, closing, done,
  advance, claim, checked, finalized, inspect, dispatch, receive, close, with_payload, with_status,
  initial_block, last_block, or_refusal, block, answered,
}
use bybitflow.Notifications.Interleaving.{unsent_status}
use bybitflow.Notifications.Changes.{
  Change, same, released, closed, sent_once, checked-IsHolding, start-IsQuiet,
  put_dispatched-Change, claim_again-Change, claim_first-Change,
}

module _ (allowed : Plan → Plan → Bool) (i : Inputs) (r : Request) (s : Store) where
  finalized-Change :
      (o : Option Refusal)
      → Change r reset s (finalized allowed i r s o).0 (finalized allowed i r s o).1
  unfolding finalized
  finalized-Change (some b) = same refl refl refl refl
  finalized-Change none = go (or_refusal (block allowed i r stored_store) i.guard_initial)
    where
      stored_store : Store
      stored_store = record s { rows = change (with_payload i) r.key s.rows }

      go : (o : Option Refusal) → Change r reset s (checked passed o) stored_store
      go o =
          same (checked-IsHolding o).0 (checked-IsHolding o).1
            (is_free-change_same (with_payload i) (λ q. refl) r.key r.key s.rows (λ q. refl)) refl

  inspect-Change :
      (o : Option Refusal)
      → Change r reset s (inspect allowed i r s o).0 (inspect allowed i r s o).1
  unfolding inspect
  inspect-Change (some b) = same refl refl refl refl
  inspect-Change none = go r.has_factory
    where
      go :
          (b : Bool)
          → Change r reset s
              (if b then finalized allowed i r s i.finalize_initial else (passed, s)).0
              (if b then finalized allowed i r s i.finalize_initial else (passed, s)).1
      go true = finalized-Change i.finalize_initial
      go false = same refl refl refl refl

  dispatch-Change : (o : Option Refusal) → Change r marked s (dispatch r s o).0 (dispatch r s o).1
  unfolding dispatch
  dispatch-Change none = sent_once (refl, refl) refl refl refl refl
  dispatch-Change (some b) =
      put_dispatched-Change false r marked (closing (refused b) none) s refl refl

receive-Change : (r : Request) (s : Store) (x : Response) → Change r posted s (receive x) s
unfolding receive
receive-Change r s (success id) = same refl refl refl refl
receive-Change r s too_many_requests = same refl refl refl refl
receive-Change r s failure = same refl refl refl refl
receive-Change r s transport_error = same refl refl refl refl
receive-Change r s unreadable = released refl refl refl refl

-- Only a refusal leaves a row that may be tried again.
retryable_unsent : (st : Status) → is_retryable st ≡ true → unsent_status st ≡ 1
unfolding is_retryable
retryable_unsent (refused b) h = refl
retryable_unsent Status.sending h = cc
retryable_unsent Status.sent h = cc
retryable_unsent Status.uncertain h = cc
retryable_unsent Status.rate_limited h = cc
retryable_unsent Status.rejected h = cc

pub close_same :
    (i : Inputs) (r : Request) (st : Status) (m : Option ℕ) (s : Store)
    → ((close i r st m s).rows ≡ change (with_status i st m) r.key s.rows)
      × ((close i r st m s).posts ≡ s.posts)
unfolding close
close_same i r st m s = elim (Bool-cases (is_initial r.key && (is_sent st && has_message m))) [
  | inl e ↦ rw (close, e) (refl, refl)
  | inr e ↦ rw (close, e) (refl, refl)
]

close-Change :
    (i : Inputs) (r : Request) (st : Status) (m : Option ℕ) (s : Store)
    → Change r (closing st m) s (done (answered st)) (close i r st m s)
unfolding free_row
close-Change i r st m s =
    closed (refl, refl) refl (λ taken free. row taken free (Option-cases (row_of r.key s.rows)))
      (close_same i r st m s).1
  where
    row :
        is_free r.key s.rows ≡ false
        → is_free r.key (close i r st m s).rows ≡ true
        → (row_of r.key s.rows ≡ none) ⊎ ((q : Row) × (row_of r.key s.rows ≡ some q))
        → unsent_status st ≡ 1
    row taken free (inl e) = absurd (sym (ap free_row e) ∙ taken)
      where
        absurd : {A : Type 0} → true ≡ false → A
        absurd c = cc
    row taken free (inr (q, e)) = retryable_unsent st (
        sym (
          ap (λ rs. is_free r.key rs) (close_same i r st m s).0
          ∙ is_free-change (with_status i st m) (λ x. refl) r.key s.rows (is_retryable st)
              (λ x. refl) q e)
        ∙ free)

pub advance-Change :
    (allowed : Plan → Plan → Bool) (i : Inputs) (r : Request) (ph : Phase) (s : Store)
    → Change r ph s (advance allowed i r ph s).0 (advance allowed i r ph s).1
unfolding advance claim
advance-Change allowed i r started s =
    let q = start-IsQuiet allowed i r s in released q.0 q.1 refl refl
advance-Change allowed i r (opened true) s = claim_again-Change i r s (row_of r.key s.rows) refl
advance-Change allowed i r (opened false) s = claim_first-Change i r s (row_of r.key s.rows) refl
advance-Change allowed i r claimed s = put_dispatched-Change false r claimed reset s refl refl
advance-Change allowed i r reset s = inspect-Change allowed i r s (initial_block allowed i r s)
advance-Change allowed i r passed s = put_dispatched-Change true r passed marked s refl refl
advance-Change allowed i r marked s = dispatch-Change allowed i r s (last_block allowed i r s)
advance-Change allowed i r posted s = receive-Change r s i.response
advance-Change allowed i r (closing st m) s = close-Change i r st m s
advance-Change allowed i r (done a) s = same refl refl refl refl
