-- ===== src/Orderflow/Tape/Room.antt =====
-- How `Tape.add` makes room for a trade, with room left and in a full tape.
use bybitflow.Prelude.{
  ℕ, ◌+◌, ◌≤◌, ◌<◌, ◌≡◌, refl, ap, ◌∙◌, false, Option, some, List, [], ◌∷◌, ◌++◌, map, arith, ltb,
  length, length-append, All-append, max,
}
use bybitflow.Orderflow.Types.{Trade}
use bybitflow.Orderflow.Tape.State.{
  Tape, push, contains, pop_key, raised_coverage, finish, trim, accept,
}
use bybitflow.Orderflow.Tape.Invariant.{
  IsValid, id_of, length-map_id, map-snoc, Distinct, Distinct-snoc, Chronological,
  Chronological-snoc, Until, push_room, push_full,
}

pop_head : (k : ℕ) (ks : List ℕ) → pop_key k (k ∷ ks) ≡ some ks
unfolding pop_key
pop_head k ks = ground arith

pub raised_room :
    (cap : ℕ) (ts : List Trade) (cov : ℕ) → length ts < cap → raised_coverage cap ts cov ≡ some cov
unfolding raised_coverage
raised_room cap [] cov h = ground arith
raised_room cap (x ∷ xs) cov h = ground arith

pub raised_full :
    (cap : ℕ) (x : Trade) (xs : List Trade) (cov : ℕ)
    → length (x ∷ xs) ≡ cap
    → raised_coverage cap (x ∷ xs) cov ≡ some (max cov (x.event_ms + 1))
unfolding raised_coverage
raised_full cap x xs cov h = ground arith

module _ {E : Type 0} where
  -- The tape before the activity summary is fed.
  abbrev pub taken : Tape E → ℕ → List Trade → Trade → Tape E
  taken s cov xs t = record s {
    coverage_start = cov;
    ids = map id_of (xs ++ t ∷ []);
    trades = xs ++ t ∷ [];
  }

  -- What the tape holds once room was made for `t`.
  pub taken-IsValid :
      (s : Tape E) (cov : ℕ) (xs : List Trade) (t : Trade)
      → 0 < s.max_trades
      → length xs < s.max_trades
      → Distinct (map id_of xs)
      → contains t.trade_id (map id_of xs) ≡ false
      → Chronological xs
      → Until t.event_ms xs
      → IsValid (record (taken s cov xs t) { last_event = t.event_ms })
  taken-IsValid s cov xs t room h d c o u = record {
    room = room;
    bounded = omega (arith, length-append xs (t ∷ []));
    keyed = refl;
    distinct = rw (map-snoc xs t) (Distinct-snoc (map id_of xs) t.trade_id d c);
    ordered = Chronological-snoc xs t o u;
    timely = All-append (λ (y : Trade). y.event_ms ≤ t.event_ms) xs (t ∷ []) u (omega arith, tt);
  }

module _ {E : Type 0} (fresh : E) (feed : E → Trade → Option E) where
  pub trim_room :
      (s : Tape E) (cov : ℕ) (t : Trade)
      → IsValid s
      → length s.trades < s.max_trades
      → trim fresh feed (record s { coverage_start = cov; ids = s.ids ++ t.trade_id ∷ [] }) t
        ≡ finish fresh feed (taken s cov s.trades t) t
  unfolding trim
  trim_room s cov t v h =
      let fits : ltb s.max_trades (length (s.ids ++ t.trade_id ∷ [])) ≡ false = rw v.keyed (
        rw (← map-snoc s.trades t)
          (ground (arith, length-map_id (s.trades ++ t ∷ []), length-append s.trades (t ∷ [])))) in
      rw (fits, push_room s.max_trades s.trades t h, v.keyed, ← map-snoc s.trades t) refl

  trim_over :
      (s : Tape E) (x : Trade) (xs : List Trade) (ks : List ℕ) (t : Trade)
      → s.trades ≡ x ∷ xs
      → s.ids ≡ x.trade_id ∷ ks
      → s.max_trades < length s.ids
      → trim fresh feed s t
        ≡ finish fresh feed (record s { ids = ks; trades = push s.max_trades s.trades t }) t
  unfolding trim
  trim_over s x xs ks t e f h = ground (arith, pop_head x.trade_id ks)

  pub trim_full :
      (s : Tape E) (cov : ℕ) (x : Trade) (xs : List Trade) (t : Trade)
      → IsValid s
      → s.trades ≡ x ∷ xs
      → length (x ∷ xs) ≡ s.max_trades
      → trim fresh feed (record s { coverage_start = cov; ids = s.ids ++ t.trade_id ∷ [] }) t
        ≡ finish fresh feed (taken s cov xs t) t
  trim_full s cov x xs t v e h =
      let f : s.ids ++ t.trade_id ∷ [] ≡ x.trade_id ∷ map id_of (xs ++ t ∷ []) =
        rw (v.keyed, e, ← map-snoc xs t) refl in
      let g : push s.max_trades s.trades t ≡ xs ++ t ∷ [] =
        rw e (push_full s.max_trades x xs t h) in
      let over : s.max_trades < length (s.ids ++ t.trade_id ∷ []) =
        rw f (omega (arith, length-map_id (xs ++ t ∷ []), length-append xs (t ∷ []))) in
      trim_over (record s { coverage_start = cov; ids = s.ids ++ t.trade_id ∷ [] }) x xs
        (map id_of (xs ++ t ∷ [])) t e f over
      ∙ ap
          (λ ts.
            finish fresh feed
              (record s { coverage_start = cov; ids = map id_of (xs ++ t ∷ []); trades = ts }) t)
          g

  pub accept-some :
      (s : Tape E) (t : Trade) (cov : ℕ)
      → raised_coverage s.max_trades s.trades s.coverage_start ≡ some cov
      → accept fresh feed s t
        ≡ trim fresh feed (record s { coverage_start = cov; ids = s.ids ++ t.trade_id ∷ [] }) t
  unfolding accept
  accept-some s t cov h = rw (h, accept)
