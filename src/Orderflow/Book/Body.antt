-- ===== src/Orderflow/Book/Body.antt =====
-- `Book.apply` behind its guards: the levels are laid over the sides, and the result is tested.
use bybitflow.Prelude.{
  ℕ, ◌<◌, ◌≡◌, ◌≢◌, refl, ap, sym, subst, ◌∙◌, Bool, true, false, Option, none, some, List, [],
  ◌++◌, arith, ltb, Option-cases, Bool-cases, inl, inr,
}
use bybitflow.Orderflow.Book.Levels.{
  Levels, bid, ask, Change, lookup, best_bid, best_ask, or_zero, apply_levels,
}
use bybitflow.Orderflow.Book.LevelLaws.{
  IsSide, apply_levels-IsSide, apply_levels-lookup, named, overlaid,
}
use bybitflow.Orderflow.Book.Buckets.{Quote}
use bybitflow.Orderflow.Book.State.{
  Book, Message, before_snapshot, non_monotonic, empty_or_crossed, Applied, ok, gap, new, reset,
  is_snapshot, bucketed, sampled, accepted, conclude, updated, apply_body,
}

-- Both sides are there and do not cross.
abbrev pub Uncrossed : Option ℕ → Option ℕ → Type 0
Uncrossed (some b) (some a) = b < a
Uncrossed _ _ = ⊥

pub record IsBook (s : Book) : Type 0 where
  pub bid_side : IsSide s.bids
  pub ask_side : IsSide s.asks
  pub tight : s.valid ≡ true → Uncrossed (best_bid s.bids) (best_ask s.asks)
  pub closed : s.valid ≡ false → (s.bids ≡ []) × (s.asks ≡ [])

pub new-IsBook : IsBook new
unfolding new
new-IsBook = record { bid_side = tt; ask_side = tt; tight = λ e. cc; closed = λ e. (refl, refl) }

pub reset-IsBook : (s : Book) → IsBook (reset s)
unfolding reset
reset-IsBook s = record {
  bid_side = tt;
  ask_side = tt;
  tight = λ e. cc;
  closed = λ e. (refl, refl);
}

-- The same but for the flow buckets and the pressure samples.
pub record SameBook (s t : Book) : Type 0 where
  pub bids : t.bids ≡ s.bids
  pub asks : t.asks ≡ s.asks
  pub valid : t.valid ≡ s.valid
  pub update : t.update ≡ s.update
  pub seq : t.seq ≡ s.seq
  pub event_ms : t.event_ms ≡ s.event_ms
  pub receipt_ms : t.receipt_ms ≡ s.receipt_ms
  pub changes : t.changes ≡ s.changes

SameBook-refl : (s : Book) → SameBook s s
SameBook-refl s = record {
  bids = refl;
  asks = refl;
  valid = refl;
  update = refl;
  seq = refl;
  event_ms = refl;
  receipt_ms = refl;
  changes = refl;
}

bucketed-SameBook :
    (snapshot : Bool) (ob oa : Option Quote) (receipt event : ℕ) (nb na : Quote) (s : Book)
    (cs : List Change)
    → SameBook s (bucketed snapshot ob oa receipt event nb na s cs)
unfolding bucketed
bucketed-SameBook true ob oa receipt event nb na s cs = SameBook-refl s
bucketed-SameBook false none oa receipt event nb na s cs = SameBook-refl s
bucketed-SameBook false (some ob) none receipt event nb na s cs = SameBook-refl s
bucketed-SameBook false (some ob) (some oa) receipt event nb na s cs = ground arith

sampled-SameBook : (receipt : ℕ) (nb na : Quote) (s : Book) → SameBook s (sampled receipt nb na s)
unfolding sampled
sampled-SameBook receipt nb na s = ground arith

pub accepted-SameBook :
    (snapshot : Bool) (ob oa : Option Quote) (receipt : ℕ) (nb na : Quote) (s : Book)
    (cs : List Change)
    → SameBook s (accepted snapshot ob oa receipt nb na s cs)
unfolding accepted
accepted-SameBook snapshot ob oa receipt nb na s cs =
    let b = bucketed snapshot ob oa receipt s.event_ms nb na s cs in
    let x = bucketed-SameBook snapshot ob oa receipt s.event_ms nb na s cs in
    let y = sampled-SameBook receipt nb na b in
    record {
      bids = y.bids ∙ x.bids;
      asks = y.asks ∙ x.asks;
      valid = y.valid ∙ x.valid;
      update = y.update ∙ x.update;
      seq = y.seq ∙ x.seq;
      event_ms = y.event_ms ∙ x.event_ms;
      receipt_ms = y.receipt_ms ∙ x.receipt_ms;
      changes = y.changes ∙ x.changes;
    }

-- What the lines after the loop leave, from a book `s` that holds the message's levels.
abbrev Concluded : Book → Applied × Book → Type 0
Concluded s (ok, t) =
    SameBook (record s { valid = true }) t × Uncrossed (best_bid s.bids) (best_ask s.asks)
Concluded s (gap g, t) = (g ≡ empty_or_crossed) × (t ≡ reset s)

conclude-Concluded :
    (snapshot : Bool) (ob oa : Option Quote) (receipt : ℕ) (b a : Option ℕ) (s : Book)
    (cs : List Change)
    → best_bid s.bids ≡ b
    → best_ask s.asks ≡ a
    → Concluded s (conclude snapshot ob oa receipt b a s cs)
unfolding conclude
conclude-Concluded snapshot ob oa receipt none a s cs e f = (refl, refl)
conclude-Concluded snapshot ob oa receipt (some b) none s cs e f = (refl, refl)
conclude-Concluded snapshot ob oa receipt (some b) (some a) s cs e f = elim (Bool-cases (ltb b a)) [
  | inl h ↦ rw h (
    accepted-SameBook snapshot ob oa receipt (b, or_zero (lookup b s.bids))
        (a, or_zero (lookup a s.asks)) (record s { valid = true }) cs,
    rw (e, f) (ground arith),
  )
  | inr h ↦ rw h (refl, refl)
]

-- The book `t` after `m` was accepted on a book with the sides `bids` and `asks`.
pub record Accepted (m : Message) (receipt : ℕ) (bids asks : Levels) (t : Book) : Type 0 where
  pub book : IsBook t
  pub valid : t.valid ≡ true
  pub update : t.update ≡ m.u
  pub seq : t.seq ≡ m.seq
  pub receipt_ms : t.receipt_ms ≡ receipt
  pub event_ms : t.event_ms ≡ m.event_ms
  pub bid_levels : (j : ℕ) → lookup j t.bids ≡ overlaid (named j m.b) (lookup j bids)
  pub ask_levels : (j : ℕ) → lookup j t.asks ≡ overlaid (named j m.a) (lookup j asks)

abbrev pub BodyOutcome : Message → ℕ → Book → Applied × Book → Type 0
BodyOutcome m receipt s (ok, t) = Accepted m receipt s.bids s.asks t
BodyOutcome m receipt s (gap g, t) = (g ≢ before_snapshot) × (g ≢ non_monotonic) × (t ≡ reset s)

-- The concluding lines on sides that the levels of `m` give.
Concluded-BodyOutcome :
    (m : Message) (receipt : ℕ) (s : Book) (bids asks : Levels) (cs : List Change) (r : Applied)
    (t : Book)
    → IsSide bids
    → IsSide asks
    → ((j : ℕ) → lookup j bids ≡ overlaid (named j m.b) (lookup j s.bids))
    → ((j : ℕ) → lookup j asks ≡ overlaid (named j m.a) (lookup j s.asks))
    → Concluded (updated m receipt bids asks cs s) (r, t)
    → BodyOutcome m receipt s (r, t)
unfolding reset
Concluded-BodyOutcome m receipt s bids asks cs ok t vb va lb la (same, h) = record {
  book = record {
    bid_side = rw (same.bids) vb;
    ask_side = rw (same.asks) va;
    tight = λ e.
        subst (λ b. Uncrossed (best_bid b) (best_ask t.asks)) (sym same.bids)
          (subst (λ a. Uncrossed (best_bid bids) (best_ask a)) (sym same.asks) h);
    closed = λ e. cc;
  };
  valid = same.valid;
  update = same.update;
  seq = same.seq;
  receipt_ms = same.receipt_ms;
  event_ms = same.event_ms;
  bid_levels = λ j. ap (lookup j) same.bids ∙ lb j;
  ask_levels = λ j. ap (lookup j) same.asks ∙ la j;
}
Concluded-BodyOutcome m receipt s bids asks cs (gap g) t vb va lb la (e, f) = (λ d. cc, λ d. cc, f)

pub apply_body-BodyOutcome :
    (m : Message) (receipt : ℕ) (s : Book)
    → IsBook s
    → BodyOutcome m receipt s (apply_body m receipt s)
unfolding apply_body
apply_body-BodyOutcome m receipt s v = elim (Option-cases (apply_levels bid m.b s.bids)) [
  | inl d ↦ rw (d, apply_body) (λ e. cc, λ e. cc, refl)
  | inr (b, d) ↦ elim (Option-cases (apply_levels ask m.a s.asks)) [
    | inl d' ↦ rw (d, d', apply_body) (λ e. cc, λ e. cc, refl)
    | inr (a, d') ↦
        rw (d, d', apply_body)
          (Concluded-BodyOutcome m receipt s b.0 a.0 (b.1 ++ a.1) _ _
            (apply_levels-IsSide bid m.b s.bids b.0 b.1 d v.bid_side)
            (apply_levels-IsSide ask m.a s.asks a.0 a.1 d' v.ask_side)
            (λ j. apply_levels-lookup bid j m.b s.bids b.0 b.1 d v.bid_side)
            (λ j. apply_levels-lookup ask j m.a s.asks a.0 a.1 d' v.ask_side)
            (conclude-Concluded (is_snapshot m) _ _ receipt (best_bid b.0) (best_ask a.0)
              (updated m receipt b.0 a.0 (b.1 ++ a.1) s) (b.1 ++ a.1) refl refl))
  ]
]
