-- ===== src/Recorder/Envelope.antt =====
-- The row that `offer` makes of what is offered.
use bybitflow.Prelude.{
  ℕ, ◌+◌, ◌-◌, ◌≤◌, ◌≡◌, refl, Bool, Option, none, some, arith, ◌==◌, Bool-cases, inl, inr, ap, ◌⊎◌,
  if◌then◌else◌,
}
use bybitflow.Recorder.Queue.{Source, Row, admission, envelope}

-- What is offered; `observed` is its receipt time.
pub record Content : Type 0 where
  pub source : Source
  pub symbol : ℕ
  pub event_ms : ℕ
  pub payload : ℕ
  pub bytes : ℕ
  pub complete : Bool
  pub observed : ℕ

-- The row of an offer, received when it was observed or 1 ms later; then it says so.
pub record IsRowOf (o : Content) (row : Row) : Type 0 where
  pub source : row.source ≡ o.source
  pub symbol : row.symbol ≡ o.symbol
  pub event_ms : row.event_ms ≡ o.event_ms
  pub payload : row.payload ≡ o.payload
  pub bytes : row.bytes ≡ o.bytes
  pub complete : row.complete ≡ o.complete
  pub received :
      ((row.receipt_ms ≡ o.observed)
        × (row.observed_receipt_ms ≡ none)
        × (row.receipt_clock_adjustment_ms ≡ none))
      ⊎ ((row.receipt_ms ≡ o.observed + 1)
          × (row.observed_receipt_ms ≡ some o.observed)
          × (row.receipt_clock_adjustment_ms ≡ some 1))

admission_near :
    (last : Option ℕ) (at : ℕ) → (at ≤ admission last at) × (admission last at ≤ at + 1)
admission_near none at = (omega arith, omega arith)
admission_near (some l) at = (ground arith, ground arith)

pub envelope-IsRowOf :
    (o : Content) (last : Option ℕ)
    → IsRowOf o (
        envelope o.source o.symbol o.event_ms
          (admission last o.observed)
          o.complete
          o.payload
          o.bytes
          o.observed)
envelope-IsRowOf o last = record {
  source = refl;
  symbol = refl;
  event_ms = refl;
  payload = refl;
  bytes = refl;
  complete = refl;
  received = by_time (admission last o.observed) (admission_near last o.observed);
}
  where
    by_time :
        (at : ℕ)
        → (o.observed ≤ at) × (at ≤ o.observed + 1)
        → ((at ≡ o.observed)
            × ((if at == o.observed then none else some o.observed) ≡ none)
            × ((if at == o.observed then none else some (at - o.observed)) ≡ none))
          ⊎ ((at ≡ o.observed + 1)
              × ((if at == o.observed then none else some o.observed) ≡ some o.observed)
              × ((if at == o.observed then none else some (at - o.observed)) ≡ some 1))
    by_time at (a, b) = elim (Bool-cases (at == o.observed)) [
      | inl e ↦ rw e (inl (ground arith, refl, refl))
      | inr e ↦
          let k : at ≡ o.observed + 1 = ground arith in
          rw e (inr (k, refl, ap some (omega (arith, k))))
    ]
