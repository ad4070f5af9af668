-- ===== src/Notifications/Changes.antt =====
-- What one step of a delivery does to its key: the row, the claim that it holds and the requests.
use bybitflow.Prelude.{
  ◌≡◌, refl, ap, ◌∙◌, Bool, true, false, Option, none, some, ◌∷◌, Bool-cases, inl, inr,
  if◌then◌else◌,
}
use bybitflow.Notifications.Keys.{
  same_key_refl, Refusal, no_visible_initial, refused, is_retryable, Row, row_of, free_row, is_free,
  is_free-change,
}
use bybitflow.Notifications.Visibility.{Plan}
use bybitflow.Notifications.Outbox.{
  Store, Request, Inputs, Phase, opened, passed, done, start, claim_again, claim_first,
  put_dispatched, checked, refusal_phase, existing_phase, sending_again, initial_block,
  is_update_unseen, safe_retry, not_official, already_attempted, answered,
}
use bybitflow.Notifications.Interleaving.{live, unsent}

-- A phase that holds no claim.
abbrev pub IsQuiet : Phase → Type 0
IsQuiet ph = (unsent ph ≡ 0) × (live ph ≡ 0)

-- A phase that holds the claim and has sent nothing.
abbrev pub IsHolding : Phase → Type 0
IsHolding ph = (unsent ph ≡ 1) × (live ph ≡ 1)

pub checked-IsHolding : (o : Option Refusal) → IsHolding (checked passed o)
unfolding checked
checked-IsHolding none = (refl, refl)
checked-IsHolding (some b) = (refl, refl)

refusal_phase-IsQuiet : (safe : Bool) (o : Option Refusal) → IsQuiet (refusal_phase (opened safe) o)
unfolding refusal_phase
refusal_phase-IsQuiet safe none = (refl, refl)
refusal_phase-IsQuiet safe (some b) = (refl, refl)

pub put_dispatched_rows :
    (b : Bool) (r : Request) (s : Store) → (put_dispatched b r s).rows ≡ s.rows
unfolding put_dispatched
put_dispatched_rows b r s = elim (Bool-cases r.has_factory) [
  | inl e ↦ rw (put_dispatched, e) refl
  | inr e ↦ rw (put_dispatched, e) refl
]

pub put_dispatched_posts :
    (b : Bool) (r : Request) (s : Store) → (put_dispatched b r s).posts ≡ s.posts
unfolding put_dispatched
put_dispatched_posts b r s = elim (Bool-cases r.has_factory) [
  | inl e ↦ rw (put_dispatched, e) refl
  | inr e ↦ rw (put_dispatched, e) refl
]

-- What one step does to the row and the posts of the key: nothing, or a claim of a free key, or
-- the last write, or a POST.
pub data Change (r : Request) (ph : Phase) (s : Store) (qh : Phase) (t : Store) : Type 0 where
  same :
      unsent qh ≡ unsent ph
      → live qh ≡ live ph
      → is_free r.key t.rows ≡ is_free r.key s.rows
      → t.posts ≡ s.posts
      → Change r ph s qh t
  released :
      unsent qh ≡ 0
      → live qh ≡ 0
      → is_free r.key t.rows ≡ is_free r.key s.rows
      → t.posts ≡ s.posts
      → Change r ph s qh t
  claimed_key :
      IsHolding qh
      → is_free r.key s.rows ≡ true
      → is_free r.key t.rows ≡ false
      → t.posts ≡ s.posts
      → Change r ph s qh t
  closed :
      IsQuiet qh
      → live ph ≡ 1
      → (is_free r.key s.rows ≡ false → is_free r.key t.rows ≡ true → unsent ph ≡ 1)
      → t.posts ≡ s.posts
      → Change r ph s qh t
  sent_once :
      IsHolding ph
      → unsent qh ≡ 0
      → live qh ≡ 1
      → is_free r.key t.rows ≡ is_free r.key s.rows
      → t.posts ≡ r.key ∷ s.posts
      → Change r ph s qh t

pub start-IsQuiet :
    (allowed : Plan → Plan → Bool) (i : Inputs) (r : Request) (s : Store)
    → IsQuiet (start allowed i r s)
unfolding start existing_phase
start-IsQuiet allowed i r s = unseen (is_update_unseen i r s)
  where
    retry :
        (b : Bool)
        → IsQuiet (
            if b
            then refusal_phase (opened true) (initial_block allowed i r s)
            else done already_attempted)
    retry true = refusal_phase-IsQuiet true (initial_block allowed i r s)
    retry false = (refl, refl)

    existing : (o : Option Row) → IsQuiet (existing_phase allowed i r s o)
    existing none = refusal_phase-IsQuiet false (initial_block allowed i r s)
    existing (some row) = retry (safe_retry r (some row) (s.dispatched r.key.subject))

    official :
        (b : Bool)
        → IsQuiet
            (if b then existing_phase allowed i r s (row_of r.key s.rows) else done not_official)
    official true = existing (row_of r.key s.rows)
    official false = (refl, refl)

    unseen :
        (b : Bool)
        → IsQuiet (
            if b
            then done (answered (refused no_visible_initial))
            else if r.official
            then existing_phase allowed i r s (row_of r.key s.rows)
            else done not_official)
    unseen true = (refl, refl)
    unseen false = official r.official

pub put_dispatched-Change :
    (b : Bool) (r : Request) (ph qh : Phase) (s : Store)
    → unsent qh ≡ unsent ph
    → live qh ≡ live ph
    → Change r ph s qh (put_dispatched b r s)
put_dispatched-Change b r ph qh s u l =
    same u l (ap (λ rs. is_free r.key rs) (put_dispatched_rows b r s)) (put_dispatched_posts b r s)

pub claim_again-Change :
    (i : Inputs) (r : Request) (s : Store) (o : Option Row)
    → row_of r.key s.rows ≡ o
    → Change r (opened true) s (claim_again i r s o).0 (claim_again i r s o).1
unfolding claim_again free_row is_retryable
claim_again-Change i r s none h = released refl refl refl refl
claim_again-Change i r s (some row) h = elim (Bool-cases (is_retryable row.status)) [
  | inl e ↦
      rw (claim_again, e)
        (claimed_key (refl, refl) (ap free_row h ∙ e)
          (is_free-change (sending_again i r) (λ q. refl) r.key s.rows false (λ q. refl) row h)
          refl)
  | inr e ↦ rw (claim_again, e) (released refl refl refl refl)
]

pub claim_first-Change :
    (i : Inputs) (r : Request) (s : Store) (o : Option Row)
    → row_of r.key s.rows ≡ o
    → Change r (opened false) s (claim_first i r s o).0 (claim_first i r s o).1
unfolding claim_first free_row is_retryable row_of
claim_first-Change i r s none h =
    claimed_key (refl, refl) (ap free_row h) (rw (same_key_refl r.key) refl) refl
claim_first-Change i r s (some row) h = released refl refl refl refl
