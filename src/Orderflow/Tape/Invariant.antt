-- ===== src/Orderflow/Tape/Invariant.antt =====
-- What `Tape.add` and `Tape.reset` keep: ids follow trades, the bound holds, time does not go back.
use bybitflow.Prelude.{
  ℕ, suc, ◌-◌, ◌≤◌, ◌<◌, ◌≡◌, refl, ap, false, ◌||◌, List, [], ◌∷◌, ◌++◌, map, arith, ◌==◌, length,
  length-append, All, All-append,
}
use bybitflow.Orderflow.Types.{Trade}
use bybitflow.Orderflow.Tape.State.{Tape, push, contains}

abbrev pub id_of : Trade → ℕ
id_of t = t.trade_id

-- No key is listed twice.
abbrev pub Distinct : List ℕ → Type 0
Distinct [] = Unit {0}
Distinct (k ∷ ks) = (contains k ks ≡ false) × Distinct ks

-- Each trade is no later than those behind it.
abbrev pub Chronological : List Trade → Type 0
Chronological [] = Unit {0}
Chronological (x ∷ xs) = All (λ y. x.event_ms ≤ y.event_ms) xs × Chronological xs

abbrev pub Until : ℕ → List Trade → Type 0
Until last = All (λ x. x.event_ms ≤ last)

pub record IsValid {E : Type 0} (s : Tape E) : Type 0 where
  pub room : 0 < s.max_trades
  pub bounded : length s.trades ≤ s.max_trades
  pub keyed : s.ids ≡ map id_of s.trades
  pub distinct : Distinct s.ids
  pub ordered : Chronological s.trades
  pub timely : Until s.last_event s.trades

pub length-map_id : (xs : List Trade) → length (map id_of xs) ≡ length xs
length-map_id [] = refl
length-map_id (x ∷ xs) = ap suc (length-map_id xs)

pub map-snoc :
    (xs : List Trade) (t : Trade) → map id_of (xs ++ t ∷ []) ≡ map id_of xs ++ t.trade_id ∷ []
map-snoc [] t = refl
map-snoc (x ∷ xs) t = ap (λ r. x.trade_id ∷ r) (map-snoc xs t)

contains-snoc : (k j : ℕ) (ks : List ℕ) → contains k (ks ++ j ∷ []) ≡ (contains k ks || (j == k))
contains-snoc k j [] = ground arith
contains-snoc k j (i ∷ ks) = ground (arith, contains-snoc k j ks)

pub Distinct-snoc :
    (ks : List ℕ) (j : ℕ) → Distinct ks → contains j ks ≡ false → Distinct (ks ++ j ∷ [])
Distinct-snoc [] j d h = (refl, tt)
Distinct-snoc (k ∷ ks) j d h =
    (ground (arith, contains-snoc k j ks), Distinct-snoc ks j d.1 (ground arith))

pub Chronological-snoc :
    (xs : List Trade) (t : Trade)
    → Chronological xs
    → Until t.event_ms xs
    → Chronological (xs ++ t ∷ [])
Chronological-snoc [] t c u = (tt, tt)
Chronological-snoc (x ∷ xs) t c u = (
  All-append (λ (y : Trade). x.event_ms ≤ y.event_ms) xs (t ∷ []) c.0 (u.0, tt),
  Chronological-snoc xs t c.1 u.1,
)

pub Until-mono : (m n : ℕ) (xs : List Trade) → m ≤ n → Until m xs → Until n xs
Until-mono m n [] h u = tt
Until-mono m n (x ∷ xs) h u = (omega arith, Until-mono m n xs h u.1)

-- Appending while there is room, and when the deque is full.
pub push_room :
    (cap : ℕ) (xs : List Trade) (t : Trade) → length xs < cap → push cap xs t ≡ xs ++ t ∷ []
push_room cap xs t h =
    let e : length (xs ++ t ∷ []) - cap ≡ 0 = omega (arith, length-append xs (t ∷ [])) in rw e refl

pub push_full :
    (cap : ℕ) (x : Trade) (xs : List Trade) (t : Trade)
    → length (x ∷ xs) ≡ cap
    → push cap (x ∷ xs) t ≡ xs ++ t ∷ []
push_full cap x xs t h =
    let e : length (x ∷ xs ++ t ∷ []) - cap ≡ 1 = omega (arith, length-append xs (t ∷ [])) in
    rw e refl
