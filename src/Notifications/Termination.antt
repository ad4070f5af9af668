-- ===== src/Notifications/Termination.antt =====
-- A delivery ends.
use bybitflow.Prelude.{
  ℕ, zero, suc, ◌-◌, ◌≤◌, ◌≡◌, refl, Bool, true, false, Option, none, some, arith, if◌then◌else◌,
}
use bybitflow.Notifications.Keys.{
  Refusal, refused, is_retryable, change, Row, row_of, no_visible_initial,
}
use bybitflow.Notifications.Visibility.{Plan}
use bybitflow.Notifications.Outbox.{
  Store, Request, Inputs, Response, success, too_many_requests, failure, transport_error,
  unreadable, Phase, started, opened, claimed, reset, passed, marked, posted, closing, done, Answer,
  advance, start, claim, claim_again, claim_first, sending_again, finalized, inspect, dispatch,
  receive, refusal_phase, existing_phase, initial_block, last_block, or_refusal, block, safe_retry,
  is_update_unseen, already_attempted, not_official, answered, checked, with_payload, deliver,
}

-- How many steps a delivery has left at most.
abbrev left : Phase → ℕ
left started = 8
left (opened safe) = 7
left claimed = 6
left reset = 5
left passed = 4
left marked = 3
left posted = 2
left (closing st m) = 1
left (done a) = 0

retried_left :
    (b : Bool) (x y : Phase × Store) → left x.0 ≤ 6 → left y.0 ≤ 6 → left (if b then x else y).0 ≤ 6
retried_left true x y p q = p
retried_left false x y p q = q

left-claim : (safe : Bool) (i : Inputs) (r : Request) (s : Store) → left (claim safe i r s).0 ≤ 6
unfolding claim claim_again claim_first
left-claim true i r s = again (row_of r.key s.rows)
  where
    again : (o : Option Row) → left (claim_again i r s o).0 ≤ 6
    again none = omega arith
    again (some row) =
        retried_left (is_retryable row.status)
          (claimed, record s { rows = change (sending_again i r) r.key s.rows })
          (done already_attempted, s) (omega arith) (omega arith)
left-claim false i r s = first (row_of r.key s.rows)
  where
    first : (o : Option Row) → left (claim_first i r s o).0 ≤ 6
    first none = omega arith
    first (some row) = omega arith

refusal_left : (safe : Bool) (o : Option Refusal) → left (refusal_phase (opened safe) o) ≤ 7
unfolding refusal_phase
refusal_left safe none = omega arith
refusal_left safe (some b) = omega arith

left-checked : (o : Option Refusal) → left (checked passed o) ≤ 4
unfolding checked
left-checked none = omega arith
left-checked (some b) = omega arith

branch_left :
    (n : ℕ) (b : Bool) (x y : Phase) → left x ≤ n → left y ≤ n → left (if b then x else y) ≤ n
branch_left n true x y p q = p
branch_left n false x y p q = q

module _ (allowed : Plan → Plan → Bool) (i : Inputs) (r : Request) where
  left-start : (s : Store) → left (start allowed i r s) ≤ 7
  unfolding start existing_phase
  left-start s =
      branch_left 7 (is_update_unseen i r s) (done (answered (refused no_visible_initial)))
        (if r.official
          then existing_phase allowed i r s (row_of r.key s.rows)
          else done not_official)
        (omega arith)
        (branch_left 7 r.official (existing_phase allowed i r s (row_of r.key s.rows))
          (done not_official) (existing (row_of r.key s.rows)) (omega arith))
    where
      existing : (o : Option Row) → left (existing_phase allowed i r s o) ≤ 7
      existing none = refusal_left false (initial_block allowed i r s)
      existing (some row) =
          branch_left 7 (safe_retry r (some row) (s.dispatched r.key.subject))
            (refusal_phase (opened true) (initial_block allowed i r s)) (done already_attempted)
            (refusal_left true (initial_block allowed i r s)) (omega arith)

  left-inspect : (s : Store) (o : Option Refusal) → left (inspect allowed i r s o).0 ≤ 4
  unfolding inspect finalized
  left-inspect s (some b) = omega arith
  left-inspect s none = go r.has_factory
    where
      final : (o : Option Refusal) → left (finalized allowed i r s o).0 ≤ 4
      final (some b) = omega arith
      final none = left-checked (
          or_refusal (block allowed i r (record s { rows = change (with_payload i) r.key s.rows }))
            i.guard_initial)

      go :
          (b : Bool)
          → left (if b then finalized allowed i r s i.finalize_initial else (passed, s)).0 ≤ 4
      go true = final i.finalize_initial
      go false = omega arith

  left-dispatch : (s : Store) (o : Option Refusal) → left (dispatch r s o).0 ≤ 2
  unfolding dispatch
  left-dispatch s none = omega arith
  left-dispatch s (some b) = omega arith

  left-receive : (x : Response) → left (receive x) ≤ 1
  unfolding receive
  left-receive (success id) = omega arith
  left-receive too_many_requests = omega arith
  left-receive failure = omega arith
  left-receive transport_error = omega arith
  left-receive unreadable = omega arith

  left-advance : (ph : Phase) (s : Store) → left (advance allowed i r ph s).0 ≤ left ph - 1
  unfolding advance
  left-advance started s = left-start s
  left-advance (opened safe) s = left-claim safe i r s
  left-advance claimed s = omega arith
  left-advance reset s = left-inspect s (initial_block allowed i r s)
  left-advance passed s = omega arith
  left-advance marked s = left-dispatch s (last_block allowed i r s)
  left-advance posted s = left-receive i.response
  left-advance (closing st m) s = omega arith
  left-advance (done a) s = omega arith

positive_left : (n : ℕ) → suc n ≤ 0 → ⊥
positive_left n h = omega arith

left_none : (ph : Phase) → left ph ≤ 0 → (a : Answer) × (ph ≡ done a)
left_none (done a) h = (a, refl)
left_none started h = elim (positive_left 7 h) [ ]
left_none (opened safe) h = elim (positive_left 6 h) [ ]
left_none claimed h = elim (positive_left 5 h) [ ]
left_none reset h = elim (positive_left 4 h) [ ]
left_none passed h = elim (positive_left 3 h) [ ]
left_none marked h = elim (positive_left 2 h) [ ]
left_none posted h = elim (positive_left 1 h) [ ]
left_none (closing st m) h = elim (positive_left 0 h) [ ]

module _ (allowed : Plan → Plan → Bool) (r : Request) where
  deliver_within :
      (fuel : ℕ) (inputs : ℕ → Inputs) (ph : Phase) (s : Store)
      → left ph ≤ fuel
      → (a : Answer) × ((deliver allowed fuel inputs r ph s).0 ≡ done a)
  unfolding deliver
  deliver_within zero inputs ph s h = left_none ph h
  deliver_within (suc fuel) inputs ph s h =
      deliver_within fuel inputs (advance allowed (inputs fuel) r ph s).0
        (advance allowed (inputs fuel) r ph s).1
        (omega (arith, left-advance allowed (inputs fuel) r ph s))

  -- Whatever its steps read, a delivery has an answer after eight steps.
  pub deliver_ends :
      (inputs : ℕ → Inputs) (s : Store)
      → (a : Answer) × ((deliver allowed 8 inputs r started s).0 ≡ done a)
  deliver_ends inputs s = deliver_within 8 inputs started s (omega arith)
