-- ===== src/Orderflow/Tape/State.antt =====
-- The fields and methods of `Tape`. The activity summary that a tape feeds (event_features.py) is a
-- parameter: a state, its fresh value, and `feed`, which gives `none` where `add` raises.
use bybitflow.Prelude.{
  ℕ, ◌+◌, ◌-◌, Bool, true, false, not, ◌&&◌, ◌||◌, Option, none, some, List, [], ◌∷◌, ◌++◌, ltb,
  leb, ◌==◌, if◌then◌else◌, any, select, drop, length, max,
}
use bybitflow.Orderflow.Types.{Trade, is_finite, is_nonpositive}

pub record Tape (E : Type 0) : Type 0 where
  pub max_trades : ℕ
  pub trades : List Trade
  pub ids : List ℕ
  pub coverage_start : ℕ
  pub last_event : ℕ
  pub last_receipt : ℕ
  -- The source and symbol that were given, if both were.
  pub owner : Option (ℕ × ℕ)
  pub event_features : Option E

-- What `add` did: its return value, or the exception that it raised.
pub data Added : Type 0 where
  added duplicate : Added
  bad_trade wrong_tape out_of_order bad_features index_error key_error : Added

-- `deque.append` with a `maxlen`.
abbrev pub push : ℕ → List Trade → Trade → List Trade
push cap xs t = drop (length (xs ++ t ∷ []) - cap) (xs ++ t ∷ [])

abbrev pub contains : ℕ → List ℕ → Bool
contains k = any (λ j. j == k)

-- `dict.pop(k)`, which raises KeyError on a missing key.
unfoldable pub pop_key : ℕ → List ℕ → Option (List ℕ)
pop_key k [] = none
pop_key k (j ∷ js) =
    let rest = pop_key k js in
    if j == k then some js else elim rest [ none ↦ none | some r ↦ some (j ∷ r) ]

abbrev pub is_invalid : Trade → Bool
is_invalid t =
    not (is_finite t.price)
    || (not (is_finite t.size) || (is_nonpositive t.price || is_nonpositive t.size))

module _ {E : Type 0} (fresh : E) where
  -- `Tape(max_trades, source=…, symbol=…)`
  unfoldable pub new : ℕ → Option (ℕ × ℕ) → Tape E
  new cap owner = record {
    max_trades = cap;
    trades = [];
    ids = [];
    coverage_start = 0;
    last_event = 0;
    last_receipt = 0;
    owner = owner;
    event_features = elim owner [ none ↦ none | some _ ↦ some fresh ];
  }

  unfoldable pub reset : ℕ → Tape E → Tape E
  reset at s = record s {
    trades = [];
    ids = [];
    coverage_start = at;
    last_event = 0;
    last_receipt = 0;
    event_features = elim s.event_features [ none ↦ none | some _ ↦ some fresh ];
  }

-- `self.event_features and (t.symbol != self.symbol or t.exchange != self.source)`
abbrev pub is_foreign {ℓ} : {E : Type ℓ} → Option E → Option (ℕ × ℕ) → Trade → Bool
is_foreign none o t = false
is_foreign (some _) none t = true
is_foreign (some _) (some o) t = not (t.symbol == o.1) || not (t.exchange == o.0)

-- The coverage start once room is made in a full tape: past the oldest trade, which is dropped.
-- `none` is the IndexError of `self.trades[0]` on an empty tape.
unfoldable pub raised_coverage : ℕ → List Trade → ℕ → Option ℕ
raised_coverage cap [] cov = if 0 == cap then none else some cov
raised_coverage cap (x ∷ xs) cov =
    some (if length (x ∷ xs) == cap then max cov (x.event_ms + 1) else cov)

module _ {E : Type 0} (fresh : E) (feed : E → Trade → Option E) where
  -- The last lines of `add`: the activity summary is fed, and the last times move on only if it
  -- does not raise.
  unfoldable pub finish : Tape E → Trade → Added × Tape E
  finish s t = elim s.event_features [
    | none ↦ (added, record s { last_event = t.event_ms; last_receipt = t.receipt_ms })
    | some e ↦ elim (feed e t) [
      | none ↦ (bad_features, s)
      | some e' ↦ (
        added,
        record s { event_features = some e'; last_event = t.event_ms; last_receipt = t.receipt_ms },
      )
    ]
  ]

  -- Dropping the oldest id when there are more than the deque can hold.
  unfoldable pub trim : Tape E → Trade → Added × Tape E
  trim s t =
      if ltb s.max_trades (length s.ids)
      then elim s.trades [
        | [] ↦ (index_error, s)
        | x ∷ xs ↦ elim (pop_key x.trade_id s.ids) [
          | none ↦ (key_error, s)
          | some ids' ↦ finish (record s { ids = ids'; trades = push s.max_trades s.trades t }) t
        ]
      ]
      else finish (record s { trades = push s.max_trades s.trades t }) t

  -- The lines of `add` that take a trade in.
  unfoldable pub accept : Tape E → Trade → Added × Tape E
  accept s t = elim (raised_coverage s.max_trades s.trades s.coverage_start) [
    | none ↦ (index_error, s)
    | some cov ↦ trim (record s { coverage_start = cov; ids = s.ids ++ t.trade_id ∷ [] }) t
  ]

  -- `Tape.add`
  unfoldable pub add : Tape E → Trade → Added × Tape E
  add s t =
      if is_invalid t
      then (bad_trade, s)
      else if is_foreign s.event_features s.owner t
      then (wrong_tape, s)
      else if contains t.trade_id s.ids
      then (duplicate, s)
      else if ltb t.event_ms s.last_event
      then (out_of_order, reset fresh t.receipt_ms s)
      else accept s t

-- `Tape.window`
unfoldable pub window : {E : Type 0} → Tape E → ℕ → ℕ → List Trade
window s start end = select (λ t. leb start t.event_ms && ltb t.event_ms end) s.trades
