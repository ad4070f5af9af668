-- ===== src/Orderflow/Book/Outcome.antt =====
-- `Book.apply` on each of its branches.
use bybitflow.Prelude.{
  ℕ, ◌≤◌, ◌<◌, ◌≡◌, refl, sym, subst, true, false, ◌||◌, [], arith, ltb, leb, if◌then◌else◌,
  Bool-cases, inl, inr, ◌⊎◌,
}
use bybitflow.Orderflow.Book.Levels.{Levels}
use bybitflow.Orderflow.Book.State.{
  Book, Message, before_snapshot, non_monotonic, invalid_level, empty_or_crossed, Applied, ok, gap,
  reset, is_snapshot, apply_body, apply,
}
use bybitflow.Orderflow.Book.Body.{
  IsBook, reset-IsBook, Accepted, BodyOutcome, apply_body-BodyOutcome,
}

-- The sides that a message is laid over: none for a snapshot, else those of the book.
abbrev pub base : Message → Levels → Levels
base m ls = if is_snapshot m then [] else ls

-- A book that holds nothing and is not valid.
abbrev pub IsEmpty : Book → Type 0
IsEmpty t = (t.valid ≡ false) × (t.bids ≡ []) × (t.asks ≡ [])

-- What `apply` did, by its outcome.
abbrev pub Outcome : Message → ℕ → Book → Applied × Book → Type 0
Outcome m receipt s (ok, t) =
    Accepted m receipt (base m s.bids) (base m s.asks) t
    × (is_snapshot m ≡ false → (s.valid ≡ true) × (s.update < m.u) × (s.seq ≤ m.seq))
Outcome m receipt s (gap before_snapshot, t) = (t ≡ s) × (s.valid ≡ false) × (is_snapshot m ≡ false)
Outcome m receipt s (gap non_monotonic, t) =
    IsEmpty t × (s.valid ≡ true) × ((m.u ≤ s.update) ⊎ (m.seq < s.seq))
Outcome m receipt s (gap _, t) = IsEmpty t

body-Outcome :
    (m : Message) (receipt : ℕ) (s s' : Book) (r : Applied) (t : Book)
    → BodyOutcome m receipt s' (r, t)
    → s'.bids ≡ base m s.bids
    → s'.asks ≡ base m s.asks
    → (is_snapshot m ≡ false → (s.valid ≡ true) × (s.update < m.u) × (s.seq ≤ m.seq))
    → Outcome m receipt s (r, t)
unfolding reset
body-Outcome m receipt s s' ok t o e f h = (
  subst (λ b. Accepted m receipt b (base m s.asks) t) e
      (subst (λ a. Accepted m receipt s'.bids a t) f o),
  h,
)
body-Outcome m receipt s s' (gap before_snapshot) t o e f h = absurd (o.0 refl)
body-Outcome m receipt s s' (gap non_monotonic) t o e f h = absurd (o.1 refl)
body-Outcome m receipt s s' (gap invalid_level) t o e f h = rw (o.2) (refl, refl, refl)
body-Outcome m receipt s s' (gap empty_or_crossed) t o e f h = rw (o.2) (refl, refl, refl)

stale_delta :
    (m : Message) (receipt : ℕ) (s : Book)
    → is_snapshot m ≡ false
    → s.valid ≡ true
    → (leb m.u s.update || ltb m.seq s.seq) ≡ true
    → apply m receipt s ≡ (gap non_monotonic, reset s)
unfolding apply
stale_delta m receipt s e f g = ground arith

newer_delta :
    (m : Message) (receipt : ℕ) (s : Book)
    → is_snapshot m ≡ false
    → s.valid ≡ true
    → (leb m.u s.update || ltb m.seq s.seq) ≡ false
    → apply m receipt s ≡ apply_body m receipt s
unfolding apply
newer_delta m receipt s e f g = ground arith

early_delta :
    (m : Message) (receipt : ℕ) (s : Book)
    → is_snapshot m ≡ false
    → s.valid ≡ false
    → apply m receipt s ≡ (gap before_snapshot, s)
unfolding apply
early_delta m receipt s e f = ground arith

-- On a book that keeps its invariant `apply` does exactly one of these. It accepts the message: the
-- book keeps its invariant and is valid, its bids lie below its asks, it has the message's numbers
-- and times, each named price has the message's last quantity for it, and every other price what
-- the book had (nothing before a snapshot); a delta is accepted only on a valid book, with a
-- greater update id and no smaller sequence number. Or a delta meets a book that is not valid, and
-- changes nothing. Or it is not newer, a level is invalid, or the sides are empty or crossed, and
-- the book is left empty and not valid.
pub apply-Outcome :
    (m : Message) (receipt : ℕ) (s : Book) → IsBook s → Outcome m receipt s (apply m receipt s)
unfolding apply reset
apply-Outcome m receipt s v = elim (Bool-cases (is_snapshot m)) [
  | inl e ↦
      rw (e, apply)
        (body-Outcome m receipt s (reset s) _ _
          (apply_body-BodyOutcome m receipt (reset s) (reset-IsBook s)) (rw e refl) (rw e refl)
          (λ d. cc))
  | inr e ↦ elim (Bool-cases s.valid) [
    | inl f ↦ elim (Bool-cases (leb m.u s.update || ltb m.seq s.seq)) [
      | inl g ↦
          subst (Outcome m receipt s) (sym (stale_delta m receipt s e f g))
            ((refl, refl, refl), f, ground arith)
      | inr g ↦ subst (Outcome m receipt s) (sym (newer_delta m receipt s e f g)) (
          body-Outcome m receipt s s _ _ (apply_body-BodyOutcome m receipt s v) (rw e refl)
            (rw e refl) (λ d. (f, ground arith, ground arith)))
    ]
    | inr f ↦ subst (Outcome m receipt s) (sym (early_delta m receipt s e f)) (refl, f, e)
  ]
]
