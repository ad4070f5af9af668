-- ===== src/Notifications/Once.antt =====
-- The numbers of one key and how a step of a delivery changes them.
use bybitflow.Prelude.{
  ℕ, ◌+◌, ◌≤◌, ◌≡◌, refl, sym, subst, ap, ◌∙◌, Bool, true, false, List, ◌∷◌, arith, Bool-cases, inl,
  inr, if◌then◌else◌,
}
use bybitflow.Notifications.Keys.{
  Key, same_key, same_key-equal, same_key_refl, Status, refused, free_row, is_free,
}
use bybitflow.Notifications.Visibility.{Plan}
use bybitflow.Notifications.Outbox.{
  Store, Request, Inputs, Phase, started, opened, claimed, reset, passed, marked, posted, closing,
  done, advance,
}
use bybitflow.Notifications.Interleaving.{
  Task, advanced, live, unsent, unsent_status, weight, posts_of,
}
use bybitflow.Notifications.Rows.{advance-Written, Written-other}
use bybitflow.Notifications.Advance.{advance-Change}
use bybitflow.Notifications.Changes.{Change, same, released, claimed_key, closed, sent_once}

-- Of one key: the deliveries that hold the claim and have sent nothing, those that hold it, the
-- POST requests made, and whether a claim is possible.
abbrev pub IsOnce : ℕ → ℕ → ℕ → Bool → Type 0
IsOnce p l n free = (l ≤ 1) × ((p + n ≤ 1) × (free ≡ true → (l ≡ 0) × (n ≡ 0)))

pub unsent_le : (ph : Phase) → unsent ph ≤ live ph
unsent_le started = omega arith
unsent_le (opened safe) = omega arith
unsent_le claimed = omega arith
unsent_le reset = omega arith
unsent_le passed = omega arith
unsent_le marked = omega arith
unsent_le posted = omega arith
unsent_le (closing st m) = go st
  where
    go : (x : Status) → unsent_status x ≤ 1
    go (refused b) = omega arith
    go Status.sending = omega arith
    go Status.sent = omega arith
    go Status.uncertain = omega arith
    go Status.rate_limited = omega arith
    go Status.rejected = omega arith
unsent_le (done a) = omega arith

posts_of_own : (k : Key) (js : List Key) → posts_of k (k ∷ js) ≡ 1 + posts_of k js
unfolding posts_of
posts_of_own k js = rw (posts_of, same_key_refl k) refl

posts_of_other :
    (j k : Key) (js : List Key) → same_key j k ≡ false → posts_of k (j ∷ js) ≡ posts_of k js
unfolding posts_of
posts_of_other j k js n = rw (posts_of, n) refl

-- The bound is kept by each kind of step, whatever the other deliveries hold.
Change-IsOnce :
    (r : Request) (ph : Phase) (s : Store) (qh : Phase) (t : Store) (a b : ℕ)
    → a ≤ b
    → Change r ph s qh t
    → IsOnce (unsent ph + a) (live ph + b) (posts_of r.key s.posts) (is_free r.key s.rows)
    → IsOnce (unsent qh + a) (live qh + b) (posts_of r.key t.posts) (is_free r.key t.rows)
Change-IsOnce r ph s qh t a b le (same u l f p) h = rw (u, l, f, p) h
Change-IsOnce r ph s qh t a b le (released u l f p) (one, (posts, free)) =
    rw (u, l, f, p) (omega arith, (omega arith, λ e. both (free e)))
  where
    both :
        (live ph + b ≡ 0) × (posts_of r.key s.posts ≡ 0)
        → (0 + b ≡ 0) × (posts_of r.key s.posts ≡ 0)
    both (x, y) = (omega arith, y)
Change-IsOnce r ph s qh t a b le (claimed_key (u, l) f g p) (one, (posts, free)) =
    rw (u, l, p) (go (free f))
  where
    clash : {A : Type 0} → is_free r.key t.rows ≡ true → A
    clash e = cc

    go :
        (live ph + b ≡ 0) × (posts_of r.key s.posts ≡ 0)
        → IsOnce (1 + a) (1 + b) (posts_of r.key s.posts) (is_free r.key t.rows)
    go (x, y) = (omega arith, (omega arith, λ e. clash e))
Change-IsOnce r ph s qh t a b le (closed (u, l) m f p) (one, (posts, free)) =
    rw (u, l, p)
      (
        omega arith,
        (
          omega arith,
          λ e. elim (Bool-cases (is_free r.key s.rows)) [
            | inl g ↦ held (free g)
            | inr g ↦ sent_none (f g e)
          ],
        ),
      )
  where
    held :
        (live ph + b ≡ 0) × (posts_of r.key s.posts ≡ 0)
        → (0 + b ≡ 0) × (posts_of r.key s.posts ≡ 0)
    held (x, y) = (omega arith, y)

    sent_none : unsent ph ≡ 1 → (0 + b ≡ 0) × (posts_of r.key s.posts ≡ 0)
    sent_none x = (omega arith, omega arith)
Change-IsOnce r ph s qh t a b le (sent_once (x, y) u l f p) (one, (posts, free)) =
    rw (u, l, f, p, posts_of_own r.key s.posts) (omega arith, (omega arith, λ e. held (free e)))
  where
    held :
        (live ph + b ≡ 0) × (posts_of r.key s.posts ≡ 0)
        → (1 + b ≡ 0) × (1 + posts_of r.key s.posts ≡ 0)
    held (z, w) = (omega arith, omega arith)

-- A step changes the numbers of its own key as `Change-IsOnce` has it, and those of no other.
pub run-IsOnce :
    (allowed : Plan → Plan → Bool) (i : Inputs) (t : Task) (s : Store) (k : Key) (a b : ℕ)
    → a ≤ b
    → IsOnce (weight unsent k t + a) (weight live k t + b) (posts_of k s.posts) (is_free k s.rows)
    → IsOnce
        (weight unsent k (advanced allowed i t s) + a)
        (weight live k (advanced allowed i t s) + b)
        (posts_of k (advance allowed i t.request t.phase s).1.posts)
        (is_free k (advance allowed i t.request t.phase s).1.rows)
unfolding free_row
run-IsOnce allowed i t s k a b le h = go (same_key t.request.key k) refl h
  where
    after : Store
    after = (advance allowed i t.request t.phase s).1

    next_phase : Phase
    next_phase = (advance allowed i t.request t.phase s).0

    own :
        t.request.key ≡ k
        → IsOnce (unsent t.phase + a) (live t.phase + b) (posts_of k s.posts) (is_free k s.rows)
        → IsOnce
            (unsent next_phase + a)
            (live next_phase + b)
            (posts_of k after.posts)
            (is_free k after.rows)
    own e =
        subst
          (λ x.
            IsOnce (unsent t.phase + a) (live t.phase + b) (posts_of x s.posts) (is_free x s.rows)
            → IsOnce (unsent next_phase + a) (live next_phase + b) (posts_of x after.posts)
                (is_free x after.rows))
          e
          (Change-IsOnce t.request t.phase s next_phase after a b le
            (advance-Change allowed i t.request t.phase s))

    posts :
        same_key t.request.key k ≡ false
        → Change t.request t.phase s next_phase after
        → posts_of k after.posts ≡ posts_of k s.posts
    posts n (same u l f p) = ap (λ x. posts_of k x) p
    posts n (released u l f p) = ap (λ x. posts_of k x) p
    posts n (claimed_key u l f p) = ap (λ x. posts_of k x) p
    posts n (closed u l f p) = ap (λ x. posts_of k x) p
    posts n (sent_once u l x f p) =
        ap (λ y. posts_of k y) p ∙ posts_of_other t.request.key k s.posts n

    go :
        (c : Bool)
        → same_key t.request.key k ≡ c
        → IsOnce
            ((if c then unsent t.phase else 0) + a)
            ((if c then live t.phase else 0) + b)
            (posts_of k s.posts)
            (is_free k s.rows)
        → IsOnce
            ((if c then unsent next_phase else 0) + a)
            ((if c then live next_phase else 0) + b)
            (posts_of k after.posts)
            (is_free k after.rows)
    go true e g = own (same_key-equal t.request.key k e) g
    go false e g =
        subst (λ n. IsOnce (0 + a) (0 + b) n (is_free k after.rows))
          (sym (posts e (advance-Change allowed i t.request t.phase s)))
          (subst (λ f. IsOnce (0 + a) (0 + b) (posts_of k s.posts) f)
            (sym (
              ap free_row (
                Written-other t.request k s.rows after.rows e
                  (advance-Written allowed i t.request t.phase s))))
            g)
