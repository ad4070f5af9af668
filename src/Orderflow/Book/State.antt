-- ===== src/Orderflow/Book/State.antt =====
-- The fields and methods of `Book`. The messages' decimals are finite; a quotient of decimals that
-- the code turns into a float is kept as its numerator and denominator.
use bybitflow.Prelude.{
  ℕ, ◌+◌, ◌*◌, Bool, true, false, not, ◌||◌, ◌&&◌, Option, none, some, List, [], ◌∷◌, ◌++◌, ltb,
  leb, ◌==◌, if◌then◌else◌, last?,
}
use bybitflow.Prelude.Int.{ℤ, pos, ◌-ℤ◌}
use bybitflow.Orderflow.Book.Levels.{
  Levels, bid, ask, Change, lookup, best_bid, best_ask, or_zero, apply_levels,
}
use bybitflow.Orderflow.Book.Buckets.{
  Quote, Flow, Observed, append_bounded, l1_event, update_bucket,
}

pub record Book : Type 0 where
  pub bids : Levels
  pub asks : Levels
  pub valid : Bool
  pub update : ℕ
  pub seq : ℕ
  pub event_ms : ℕ
  pub receipt_ms : ℕ
  pub changes : List (ℕ × Change)
  pub pressure_samples : List (ℕ × ℤ × ℕ)
  pub flow : Flow

abbrev pub change_limit : ℕ
change_limit = 5000

abbrev pub sample_limit : ℕ
sample_limit = 120

-- A message of the order-book topic: `type`, `data.u`, `data.seq`, `data.b`, `data.a`, and the
-- event time, `cts` if it is there and `ts` if not.
pub record Message : Type 0 where
  pub snapshot : Bool
  pub u : ℕ
  pub seq : ℕ
  pub b : List (ℤ × ℤ)
  pub a : List (ℤ × ℤ)
  pub event_ms : ℕ

-- The messages of the BookGap exception.
pub data Gap : Type 0 where
  before_snapshot non_monotonic invalid_level empty_or_crossed : Gap

pub data Applied : Type 0 where
  ok : Applied
  gap : Gap → Applied

-- `Book()` on a new object.
unfoldable pub new : Book
new = record {
  bids = [];
  asks = [];
  valid = false;
  update = 0;
  seq = 0;
  event_ms = 0;
  receipt_ms = 0;
  changes = [];
  pressure_samples = [];
  flow = record {
    ofi_epoch = 1;
    ofi_buckets = [];
    event_ofi_epoch = 1;
    event_ofi_start_ms = 0;
    event_ofi_last_ms = 0;
  };
}

-- `Book.reset`
unfoldable pub reset : Book → Book
reset s = record {
  bids = [];
  asks = [];
  valid = false;
  update = 0;
  seq = 0;
  event_ms = 0;
  receipt_ms = 0;
  changes = [];
  pressure_samples = [];
  flow = record {
    ofi_epoch = s.flow.ofi_epoch + 1;
    ofi_buckets = [];
    event_ofi_epoch = s.flow.event_ofi_epoch + 1;
    event_ofi_start_ms = 0;
    event_ofi_last_ms = 0;
  };
}

-- A snapshot by its type, or by the service's restart id.
abbrev pub is_snapshot : Message → Bool
is_snapshot m = m.snapshot || (m.u == 1)

unfoldable pub push_changes : ℕ → List Change → List (ℕ × Change) → List (ℕ × Change)
push_changes at [] xs = xs
push_changes at (c ∷ cs) xs = push_changes at cs (append_bounded change_limit xs (at, c))

-- The top of a side with its quantity.
abbrev pub quote : Option ℕ → Levels → Option Quote
quote none ls = none
quote (some p) ls = some (p, or_zero (lookup p ls))

-- `(ask * bid_q + bid * ask_q) / (bid_q + ask_q)`
abbrev pub micro : Quote → Quote → ℕ × ℕ
micro (bp, bq) (ap, aq) = (ap * bq + bp * aq, bq + aq)

abbrev pub observed : ℕ → ℕ → Quote → Quote → Quote → Quote → Book → List Change → Observed
observed receipt event ob oa nb na s cs = record {
  receipt_ms = receipt;
  event_ms = event;
  l1 = l1_event ob oa nb na;
  old_mid = ob.0 + oa.0;
  mid = nb.0 + na.0;
  old_micro = micro ob oa;
  micro = micro nb na;
  touch = nb.1 + na.1;
  bids = s.bids;
  asks = s.asks;
  changes = cs;
}

-- `if not snapshot and before_bid and before_ask: … update_bucket(…)`
unfoldable pub bucketed :
    Bool → Option Quote → Option Quote → ℕ → ℕ → Quote → Quote → Book → List Change → Book
bucketed true ob oa receipt event nb na s cs = s
bucketed false none oa receipt event nb na s cs = s
bucketed false (some ob) none receipt event nb na s cs = s
bucketed false (some ob) (some oa) receipt event nb na s cs = record s {
  flow = update_bucket (observed receipt event ob oa nb na s cs) s.flow;
}

abbrev pub is_due : ℕ → Option (ℕ × ℤ × ℕ) → Bool
is_due receipt none = true
is_due receipt (some p) = leb (p.0 + 1000) receipt

-- The last lines: a pressure sample at most once a second.
unfoldable pub sampled : ℕ → Quote → Quote → Book → Book
sampled receipt (bp, bq) (ap, aq) s =
    if is_due receipt (last? s.pressure_samples)
    then record s {
      pressure_samples =
          append_bounded sample_limit s.pressure_samples (receipt, pos bq -ℤ pos aq, bq + aq);
    }
    else s

-- What follows once the book is found valid, at its new quotes.
unfoldable pub accepted :
    Bool → Option Quote → Option Quote → ℕ → Quote → Quote → Book → List Change → Book
accepted snapshot ob oa receipt nb na s cs =
    sampled receipt nb na (bucketed snapshot ob oa receipt s.event_ms nb na s cs)

-- The lines after the loop over the levels: the book is valid if both sides are there and do not
-- cross; else it is reset and the exception is raised.
unfoldable pub conclude :
    Bool
    → Option Quote
    → Option Quote
    → ℕ
    → Option ℕ
    → Option ℕ
    → Book
    → List Change
    → Applied × Book
conclude snapshot ob oa receipt none a s cs = (gap empty_or_crossed, reset s)
conclude snapshot ob oa receipt (some b) none s cs = (gap empty_or_crossed, reset s)
conclude snapshot ob oa receipt (some b) (some a) s cs =
    if ltb b a
    then (
      ok,
      accepted snapshot ob oa receipt (b, or_zero (lookup b s.bids)) (a, or_zero (lookup a s.asks))
          (record s { valid = true }) cs,
    )
    else (gap empty_or_crossed, reset s)

-- The book once the levels of `m` are in.
abbrev pub updated : Message → ℕ → Levels → Levels → List Change → Book → Book
updated m receipt bids asks cs s = record s {
  bids = bids;
  asks = asks;
  update = m.u;
  seq = m.seq;
  event_ms = m.event_ms;
  receipt_ms = receipt;
  changes = if is_snapshot m then s.changes else push_changes receipt cs s.changes;
}

-- `apply` after its first guards, on the book that they leave.
unfoldable pub apply_body : Message → ℕ → Book → Applied × Book
apply_body m receipt s = elim (apply_levels bid m.b s.bids) [
  | none ↦ (gap invalid_level, reset s)
  | some (bids', bcs) ↦ elim (apply_levels ask m.a s.asks) [
    | none ↦ (gap invalid_level, reset s)
    | some (asks', acs) ↦
        conclude (is_snapshot m) (if s.valid then quote (best_bid s.bids) s.bids else none)
          (if s.valid then quote (best_ask s.asks) s.asks else none) receipt (best_bid bids')
          (best_ask asks') (updated m receipt bids' asks' (bcs ++ acs) s) (bcs ++ acs)
  ]
]

-- `Book.apply(message, receipt_ms)`
unfoldable pub apply : Message → ℕ → Book → Applied × Book
apply m receipt s =
    if is_snapshot m
    then apply_body m receipt (reset s)
    else if not s.valid
    then (gap before_snapshot, s)
    else if leb m.u s.update || ltb m.seq s.seq
    then (gap non_monotonic, reset s)
    else apply_body m receipt s

-- `Book.fresh(now, max_age)`; a clock up to two seconds behind the venue's is accepted.
unfoldable pub fresh : ℕ → ℕ → Book → Bool
fresh now max_age s =
    s.valid
    && (leb s.receipt_ms now
        && (leb now (s.receipt_ms + max_age)
            && (leb s.event_ms (now + 2000) && leb now (s.event_ms + max_age))))
