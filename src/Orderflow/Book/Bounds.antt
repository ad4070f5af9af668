-- ===== src/Orderflow/Book/Bounds.antt =====
-- The histories that a book keeps are bounded, whatever messages arrive.
use bybitflow.Prelude.{
  ℕ, ◌≤◌, Bool, true, false, Option, none, some, List, [], ◌∷◌, ◌++◌, arith, length, Option-cases,
  Bool-cases, inl, inr, ltb, last?,
}
use bybitflow.Orderflow.Book.Levels.{Levels, bid, ask, Change, apply_levels, best_bid, best_ask}
use bybitflow.Orderflow.Book.Buckets.{Quote, append_bounded}
use bybitflow.Orderflow.Book.BucketLaws.{IsFlow, update_bucket-IsFlow, length-append_bounded}
use bybitflow.Orderflow.Book.State.{
  Book, Message, new, reset, is_snapshot, push_changes, bucketed, sampled, accepted, conclude,
  updated, apply_body, apply, change_limit, sample_limit, is_due,
}

pub record IsBounded (s : Book) : Type 0 where
  pub changes : length s.changes ≤ change_limit
  pub samples : length s.pressure_samples ≤ sample_limit
  pub flow : IsFlow s.flow

pub new-IsBounded : IsBounded new
unfolding new
new-IsBounded = record {
  changes = omega arith;
  samples = omega arith;
  flow = record { bounded = omega arith; ascending = tt; current = tt };
}

pub reset-IsBounded : (s : Book) → IsBounded (reset s)
unfolding reset
reset-IsBounded s = record {
  changes = omega arith;
  samples = omega arith;
  flow = record { bounded = omega arith; ascending = tt; current = tt };
}

push_changes_bound :
    (at : ℕ) (cs : List Change) (xs : List (ℕ × Change))
    → length xs ≤ change_limit
    → length (push_changes at cs xs) ≤ change_limit
unfolding push_changes
push_changes_bound at [] xs h = h
push_changes_bound at (c ∷ cs) xs h =
    push_changes_bound at cs (append_bounded change_limit xs (at, c))
      (length-append_bounded change_limit xs (at, c))

bucketed-IsBounded :
    (snapshot : Bool) (ob oa : Option Quote) (receipt event : ℕ) (nb na : Quote) (s : Book)
    (cs : List Change)
    → IsBounded s
    → IsBounded (bucketed snapshot ob oa receipt event nb na s cs)
unfolding bucketed
bucketed-IsBounded true ob oa receipt event nb na s cs v = v
bucketed-IsBounded false none oa receipt event nb na s cs v = v
bucketed-IsBounded false (some ob) none receipt event nb na s cs v = v
bucketed-IsBounded false (some ob) (some oa) receipt event nb na s cs v = record {
  changes = v.changes;
  samples = v.samples;
  flow = update_bucket-IsFlow _ s.flow v.flow;
}

sampled-IsBounded :
    (receipt : ℕ) (nb na : Quote) (s : Book) → IsBounded s → IsBounded (sampled receipt nb na s)
unfolding sampled
sampled-IsBounded receipt nb na s v =
    elim (Bool-cases (is_due receipt (last? s.pressure_samples))) [
      | inl e ↦
          rw (e, sampled)
            (record {
              changes = v.changes;
              samples = length-append_bounded sample_limit s.pressure_samples _;
              flow = v.flow;
            })
      | inr e ↦ rw (e, sampled) v
    ]

conclude-IsBounded :
    (snapshot : Bool) (ob oa : Option Quote) (receipt : ℕ) (b a : Option ℕ) (s : Book)
    (cs : List Change)
    → IsBounded s
    → IsBounded (conclude snapshot ob oa receipt b a s cs).1
unfolding conclude accepted
conclude-IsBounded snapshot ob oa receipt none a s cs v = reset-IsBounded s
conclude-IsBounded snapshot ob oa receipt (some b) none s cs v = reset-IsBounded s
conclude-IsBounded snapshot ob oa receipt (some b) (some a) s cs v = elim (Bool-cases (ltb b a)) [
  | inl h ↦ rw h (
      sampled-IsBounded receipt _ _ _ (
        bucketed-IsBounded snapshot ob oa receipt s.event_ms _ _ (record s { valid = true }) cs
          (record { changes = v.changes; samples = v.samples; flow = v.flow })))
  | inr h ↦ rw h (reset-IsBounded s)
]

updated-IsBounded :
    (m : Message) (receipt : ℕ) (bids asks : Levels) (cs : List Change) (s : Book)
    → IsBounded s
    → IsBounded (updated m receipt bids asks cs s)
updated-IsBounded m receipt bids asks cs s v = record {
  changes = elim (Bool-cases (is_snapshot m)) [
    | inl e ↦ rw e v.changes
    | inr e ↦ rw e (push_changes_bound receipt cs s.changes v.changes)
  ];
  samples = v.samples;
  flow = v.flow;
}

apply_body-IsBounded :
    (m : Message) (receipt : ℕ) (s : Book) → IsBounded s → IsBounded (apply_body m receipt s).1
unfolding apply_body
apply_body-IsBounded m receipt s v = elim (Option-cases (apply_levels bid m.b s.bids)) [
  | inl d ↦ rw (d, apply_body) (reset-IsBounded s)
  | inr (b, d) ↦ elim (Option-cases (apply_levels ask m.a s.asks)) [
    | inl d' ↦ rw (d, d', apply_body) (reset-IsBounded s)
    | inr (a, d') ↦
        rw (d, d', apply_body)
          (conclude-IsBounded (is_snapshot m) _ _ receipt (best_bid b.0) (best_ask a.0)
            (updated m receipt b.0 a.0 (b.1 ++ a.1) s) (b.1 ++ a.1)
            (updated-IsBounded m receipt b.0 a.0 (b.1 ++ a.1) s v))
  ]
]

-- Whatever message arrives, accepted or refused, a book keeps at most 5000 changes, 120 pressure
-- samples and 120 second buckets, and the buckets stay in order and of the current epoch.
pub apply-IsBounded :
    (m : Message) (receipt : ℕ) (s : Book) → IsBounded s → IsBounded (apply m receipt s).1
unfolding apply
apply-IsBounded m receipt s v = ground (
  arith,
  apply_body-IsBounded m receipt (reset s) (reset-IsBounded s),
  apply_body-IsBounded m receipt s v,
  reset-IsBounded s,
)
