-- ===== src/Notifications/Keys.antt =====
-- The rows of the table outbox and their keys. A key is a text "channel:signal:event"; its parts
-- are numbered here.
use bybitflow.Prelude.{
  ℕ, ◌≡◌, refl, ap, subst, ◌∙◌, Bool, true, false, ◌&&◌, Option, none, some, List, [], ◌∷◌, arith,
  ◌==◌, ltb, if◌then◌else◌, Bool-cases, inl, inr,
}

-- Channel 0 is "research" and 1 "validated", whose second part is the id of the plan; the others
-- are "connection-test" and "ml-ops", whose messages belong to no plan. Event 0 is "initial".
pub record Key : Type 0 where
  pub channel : ℕ
  pub subject : ℕ
  pub event : ℕ

abbrev pub same_key : Key → Key → Bool
same_key a b = (a.channel == b.channel) && ((a.subject == b.subject) && (a.event == b.event))

-- `channel in {"research", "validated"}`, which are the keys that come with a plan's id.
abbrev pub is_card : Key → Bool
is_card k = ltb k.channel 2

abbrev pub is_initial : Key → Bool
is_initial k = is_card k && (k.event == 0)

abbrev pub initial_key : ℕ → ℕ → Key
initial_key channel id = record { channel = channel; subject = id; event = 0 }

-- The texts that say why nothing was sent: those of `initial_delivery_block` and `deliver`, and
-- the ones that the checks of others return, which begin with "blocked:" or do not.
pub data Refusal : Type 0 where
  terminal_setup no_active_setup entry_window_expired entry_window_too_short : Refusal
  opposing_visible_active_setup no_visible_initial : Refusal
  blocked_by : ℕ → Refusal
  refused_by : ℕ → Refusal

-- `startswith("blocked:")`
unfoldable pub is_blocked : Refusal → Bool
is_blocked terminal_setup = false
is_blocked (refused_by n) = false
is_blocked no_active_setup = true
is_blocked entry_window_expired = true
is_blocked entry_window_too_short = true
is_blocked opposing_visible_active_setup = true
is_blocked no_visible_initial = true
is_blocked (blocked_by n) = true

pub data Status : Type 0 where
  sending sent uncertain rate_limited rejected : Status
  refused : Refusal → Status

unfoldable pub is_retryable : Status → Bool
is_retryable (refused b) = is_blocked b
is_retryable sending = false
is_retryable sent = false
is_retryable uncertain = false
is_retryable rate_limited = false
is_retryable rejected = false

unfoldable pub is_sent : Status → Bool
is_sent sent = true
is_sent sending = false
is_sent uncertain = false
is_sent rate_limited = false
is_sent rejected = false
is_sent (refused b) = false

pub record Row : Type 0 where
  pub key : Key
  pub status : Status
  pub payload : ℕ
  pub message_id : Option ℕ
  pub updated_ms : ℕ

unfoldable pub row_of : Key → List Row → Option Row
row_of k [] = none
row_of k (r ∷ rs) = if same_key r.key k then some r else row_of k rs

-- UPDATE outbox SET … WHERE key.
unfoldable pub change : (Row → Row) → Key → List Row → List Row
change f k [] = []
change f k (r ∷ rs) = if same_key r.key k then f r ∷ rs else r ∷ change f k rs

pub same_key-equal : (a b : Key) → same_key a b ≡ true → a ≡ b
same_key-equal a b h = go (parts a.channel a.subject a.event b.channel b.subject b.event h)
  where
    parts :
        (x y z u v w : ℕ)
        → ((x == u) && ((y == v) && (z == w))) ≡ true
        → (x ≡ u) × ((y ≡ v) × (z ≡ w))
    parts x y z u v w e = ground arith

    go : (a.channel ≡ b.channel) × ((a.subject ≡ b.subject) × (a.event ≡ b.event)) → a ≡ b
    go (p, (q, r)) = λ i. record { channel = p i; subject = q i; event = r i }

pub same_key_refl : (k : Key) → same_key k k ≡ true
same_key_refl k = go k.channel k.subject k.event
  where
    go : (x y z : ℕ) → ((x == x) && ((y == y) && (z == z))) ≡ true
    go x y z = ground arith

-- A key is free where it has no row or its row says that it may be tried again.
unfoldable pub free_row : Option Row → Bool
free_row none = true
free_row (some r) = is_retryable r.status

abbrev pub is_free : Key → List Row → Bool
is_free k rs = free_row (row_of k rs)

module _ (f : Row → Row) (same : (r : Row) → (f r).key ≡ r.key) where
  -- A change of one row is no change of another.
  pub row_of-change_other :
      (k j : Key) (rs : List Row) → same_key k j ≡ false → row_of j (change f k rs) ≡ row_of j rs
  unfolding row_of change
  row_of-change_other k j [] n = refl
  row_of-change_other k j (q ∷ rs) n = elim (Bool-cases (same_key q.key k)) [
    | inl e ↦
        let m : same_key q.key j ≡ false = ap (λ x. same_key x j) (same_key-equal q.key k e) ∙ n in
        rw (change, e) (rw (row_of, ap (λ x. same_key x j) (same q) ∙ m, m) refl)
    | inr e ↦
        rw (change, e, row_of)
          (ap (λ r. if same_key q.key j then some q else r) (row_of-change_other k j rs n))
  ]

  -- The row of a key is changed, if there is one.
  pub is_free-change :
      (k : Key) (rs : List Row) (b : Bool)
      → ((r : Row) → is_retryable (f r).status ≡ b)
      → (r : Row) → row_of k rs ≡ some r
      → is_free k (change f k rs) ≡ b
  unfolding row_of change free_row
  is_free-change k [] b s r h = cc
  is_free-change k (q ∷ rs) b s r h = elim (Bool-cases (same_key q.key k)) [
    | inl e ↦ rw (change, e) (rw (row_of, ap (λ x. same_key x k) (same q) ∙ e) (s q))
    | inr e ↦ rw (change, e) (rw (row_of, e) (is_free-change k rs b s r (rest e h)))
  ]
    where
      rest :
          same_key q.key k ≡ false
          → (if same_key q.key k then some q else row_of k rs) ≡ some r
          → row_of k rs ≡ some r
      rest e g = subst (λ t. (if t then some q else row_of k rs) ≡ some r) e g

  -- What `change` does to a key is at most to take its freedom, if it keeps the retryable rows.
  pub is_free-change_same :
      (k j : Key) (rs : List Row)
      → ((r : Row) → is_retryable (f r).status ≡ is_retryable r.status)
      → is_free j (change f k rs) ≡ is_free j rs
  unfolding row_of change free_row
  is_free-change_same k j [] s = refl
  is_free-change_same k j (q ∷ rs) s = elim (Bool-cases (same_key q.key k)) [
    | inl e ↦ rw (change, e) (head (same_key q.key j) refl)
    | inr e ↦ rw (change, e) (tail (is_free-change_same k j rs s) (same_key q.key j) refl)
  ]
    where
      head : (b : Bool) → same_key q.key j ≡ b → is_free j (f q ∷ rs) ≡ is_free j (q ∷ rs)
      head true e = rw (row_of, ap (λ x. same_key x j) (same q) ∙ e, e) (s q)
      head false e = rw (row_of, ap (λ x. same_key x j) (same q) ∙ e, e) refl

      tail :
          is_free j (change f k rs) ≡ is_free j rs
          → (b : Bool) → same_key q.key j ≡ b
          → is_free j (q ∷ change f k rs) ≡ is_free j (q ∷ rs)
      tail ih true e = rw (row_of, e) refl
      tail ih false e = rw (row_of, e) ih
