-- ===== src/Orderflow/Tape/Accept.antt =====
-- `Tape.add` on each of its branches.
use bybitflow.Prelude.{
  ℕ, ◌+◌, ◌≤◌, ◌<◌, ◌≡◌, refl, ap, subst, ◌∙◌, sym, true, false, Option, none, some, List, [], ◌∷◌,
  ◌++◌, map, arith, ltb, ◌==◌, length, Bool-cases, inl, inr, max, Option-cases,
}
use bybitflow.Orderflow.Types.{Trade}
use bybitflow.Orderflow.Tape.State.{
  Tape, Added, added, duplicate, bad_trade, wrong_tape, out_of_order, bad_features, index_error,
  key_error, contains, reset, raised_coverage, finish, accept, add, is_invalid, is_foreign,
}
use bybitflow.Orderflow.Tape.Invariant.{IsValid, id_of, Distinct, Chronological, Until, Until-mono}
use bybitflow.Orderflow.Tape.Room.{
  raised_room, raised_full, taken, trim_room, trim_full, taken-IsValid, accept-some,
}

-- The tape after `t` was taken in: at the end, and in a full tape in place of the oldest trade,
-- past which the coverage then begins.
pub data Grown {E : Type 0} (s : Tape E) (t : Trade) (ts : List Trade) (cov : ℕ) : Type 0 where
  appended :
      length s.trades < s.max_trades
      → ts ≡ s.trades ++ t ∷ []
      → cov ≡ s.coverage_start
      → Grown s t ts cov
  shifted :
      (x : Trade) (xs : List Trade)
      → s.trades ≡ x ∷ xs
      → ts ≡ xs ++ t ∷ []
      → cov ≡ max s.coverage_start (x.event_ms + 1)
      → Grown s t ts cov

module _ {E : Type 0} (fresh : E) (feed : E → Trade → Option E) where
  -- What `add` did, by its outcome.
  abbrev pub Outcome : Tape E → Trade → Added × Tape E → Type 0
  Outcome s t (added, s') =
      IsValid s'
      × Grown s t s'.trades s'.coverage_start
      × (s'.last_event ≡ t.event_ms)
      × (s'.last_receipt ≡ t.receipt_ms)
      × (contains t.trade_id s.ids ≡ false)
  Outcome s t (duplicate, s') = (s' ≡ s) × (contains t.trade_id s.ids ≡ true)
  Outcome s t (bad_trade, s') = (s' ≡ s) × (is_invalid t ≡ true)
  Outcome s t (wrong_tape, s') = (s' ≡ s) × (is_foreign s.event_features s.owner t ≡ true)
  Outcome s t (out_of_order, s') = (s' ≡ reset fresh t.receipt_ms s) × (t.event_ms < s.last_event)
  Outcome s t (bad_features, s') =
      Grown s t s'.trades s'.coverage_start
      × ((e : E) × (s.event_features ≡ some e) × (feed e t ≡ none))
  Outcome s t (index_error, s') = ⊥
  Outcome s t (key_error, s') = ⊥

  -- Feeding the summary changes neither trades nor coverage.
  finish-Outcome :
      (s s' : Tape E) (t : Trade)
      → contains t.trade_id s.ids ≡ false
      → IsValid (record s' { last_event = t.event_ms })
      → Grown s t s'.trades s'.coverage_start
      → s'.event_features ≡ s.event_features
      → Outcome s t (finish fresh feed s' t)
  unfolding finish
  finish-Outcome s s' t c v g same = elim (Option-cases s'.event_features) [
    | inl e ↦
        rw (e, finish)
          (
            record {
              room = v.room;
              bounded = v.bounded;
              keyed = v.keyed;
              distinct = v.distinct;
              ordered = v.ordered;
              timely = v.timely;
            },
            g,
            refl,
            refl,
            c,
          )
    | inr (f, e) ↦ elim (Option-cases (feed f t)) [
      | inl d ↦ rw (e, finish, d) (g, (f, sym same ∙ e, d))
      | inr (f', d) ↦
          rw (e, finish, d)
            (
              record {
                room = v.room;
                bounded = v.bounded;
                keyed = v.keyed;
                distinct = v.distinct;
                ordered = v.ordered;
                timely = v.timely;
              },
              g,
              refl,
              refl,
              c,
            )
    ]
  ]

  accept_room :
      (s : Tape E) (t : Trade)
      → IsValid s
      → length s.trades < s.max_trades
      → contains t.trade_id s.ids ≡ false
      → s.last_event ≤ t.event_ms
      → Outcome s t (accept fresh feed s t)
  accept_room s t v fits c h =
      subst (Outcome s t)
        (sym (
          accept-some fresh feed s t s.coverage_start
            (raised_room s.max_trades s.trades s.coverage_start fits)
          ∙ trim_room fresh feed s s.coverage_start t v fits))
        (finish-Outcome s (taken s s.coverage_start s.trades t) t c
          (taken-IsValid s s.coverage_start s.trades t v.room fits (rw (← v.keyed) v.distinct)
            (rw (← v.keyed) c) v.ordered (Until-mono s.last_event t.event_ms s.trades h v.timely))
          (appended fits refl refl) refl)

  accept_full :
      (s : Tape E) (t x : Trade) (xs : List Trade)
      → IsValid s
      → s.trades ≡ x ∷ xs
      → length (x ∷ xs) ≡ s.max_trades
      → contains t.trade_id s.ids ≡ false
      → s.last_event ≤ t.event_ms
      → Outcome s t (accept fresh feed s t)
  accept_full s t x xs v e full c h =
      let cov = max s.coverage_start (x.event_ms + 1) in
      let k : s.ids ≡ x.trade_id ∷ map id_of xs = v.keyed ∙ ap (map id_of) e in
      let d : Distinct (x.trade_id ∷ map id_of xs) = subst Distinct k v.distinct in
      let c' : contains t.trade_id (x.trade_id ∷ map id_of xs) ≡ false =
        subst (λ ks. contains t.trade_id ks ≡ false) k c in
      let o : Chronological (x ∷ xs) = subst Chronological e v.ordered in
      let u : Until s.last_event (x ∷ xs) = subst (Until s.last_event) e v.timely in
      subst (Outcome s t)
        (sym (
          accept-some fresh feed s t cov (
            ap (λ ts. raised_coverage s.max_trades ts s.coverage_start) e
            ∙ raised_full s.max_trades x xs s.coverage_start full)
          ∙ trim_full fresh feed s cov x xs t v e full))
        (finish-Outcome s (taken s cov xs t) t c
          (taken-IsValid s cov xs t v.room (omega arith) d.1 (ground arith) o.1
            (Until-mono s.last_event t.event_ms xs h u.1))
          (shifted x xs e refl refl) refl)

  accept-Outcome :
      (s : Tape E) (t : Trade) (ts : List Trade)
      → IsValid s
      → s.trades ≡ ts
      → contains t.trade_id s.ids ≡ false
      → s.last_event ≤ t.event_ms
      → Outcome s t (accept fresh feed s t)
  accept-Outcome s t [] v e c h = accept_room s t v (rw e v.room) c h
  accept-Outcome s t (x ∷ xs) v e c h = elim (Bool-cases (length (x ∷ xs) == s.max_trades)) [
    | inl full ↦ accept_full s t x xs v e (ground arith) c h
    | inr space ↦
        accept_room s t v
          (let b : length (x ∷ xs) ≤ s.max_trades =
              subst (λ l. length l ≤ s.max_trades) e v.bounded in
            subst (λ l. length l < s.max_trades) (sym e) (ground arith))
          c h
  ]

  -- On a valid tape `add` does exactly one of these. It takes the trade in: the tape stays valid,
  -- the trade stands last, in a full tape the oldest trade goes and the coverage begins past it. Or
  -- it leaves the tape as it was, because the id is known, a value is invalid, or the trade is
  -- another symbol's. Or the trade is older than the last one, and the tape is reset. Or the
  -- activity summary raises after the trade was taken in. It never raises IndexError or KeyError.
  pub add-Outcome : (s : Tape E) (t : Trade) → IsValid s → Outcome s t (add fresh feed s t)
  unfolding add
  add-Outcome s t v = elim (Bool-cases (is_invalid t)) [
    | inl e ↦ rw (e, add) (refl, e)
    | inr e₁ ↦ elim (Bool-cases (is_foreign s.event_features s.owner t)) [
      | inl e ↦ rw (e₁, e, add) (refl, e)
      | inr e₂ ↦ elim (Bool-cases (contains t.trade_id s.ids)) [
        | inl e ↦ rw (e₁, e₂, e, add) (refl, e)
        | inr e₃ ↦ elim (Bool-cases (ltb t.event_ms s.last_event)) [
          | inl e ↦ rw (e₁, e₂, e₃, e, add) (refl, ground arith)
          | inr e₄ ↦ rw (e₁, e₂, e₃, e₄, add) (accept-Outcome s t s.trades v refl e₃ (ground arith))
        ]
      ]
    ]
  ]
