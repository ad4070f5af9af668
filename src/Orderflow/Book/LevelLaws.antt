-- ===== src/Orderflow/Book/LevelLaws.antt =====
-- The laws of one side of the book: which quantity stands at a price after a message.
use bybitflow.Prelude.{
  ℕ, zero, suc, ◌<◌, ◌≡◌, refl, Option, none, some, List, [], ◌∷◌, arith, ◌==◌, if◌then◌else◌,
  Option-cases, inl, inr,
}
use bybitflow.Prelude.Int.{ℤ, pos, negsuc}
use bybitflow.Orderflow.Book.Levels.{
  Levels, lookup, put, remove, BookSide, Change, apply_level, apply_levels,
}

-- Each price stands once, with a positive quantity.
abbrev pub IsSide : Levels → Type 0
IsSide [] = Unit {0}
IsSide ((p, q) ∷ ls) = (0 < q) × (lookup p ls ≡ none) × IsSide ls

pub lookup-put :
    (j p q : ℕ) (ls : Levels) → lookup j (put p q ls) ≡ (if p == j then some q else lookup j ls)
lookup-put j p q [] = refl
lookup-put j p q (l ∷ ls) = ground (arith, lookup-put j p q ls)

pub lookup-remove :
    (j p : ℕ) (ls : Levels)
    → IsSide ls
    → lookup j (remove p ls) ≡ (if p == j then none else lookup j ls)
lookup-remove j p [] v = ground arith
lookup-remove j p (l ∷ ls) v = ground (arith, lookup-remove j p ls v.2)

put-IsSide : (p q : ℕ) (ls : Levels) → 0 < q → IsSide ls → IsSide (put p q ls)
put-IsSide p q [] h v = (h, refl, tt)
put-IsSide p q (l ∷ ls) h v = ground (arith, put-IsSide p q ls h v.2, lookup-put l.0 p q ls)

remove-IsSide : (p : ℕ) (ls : Levels) → IsSide ls → IsSide (remove p ls)
remove-IsSide p [] v = tt
remove-IsSide p (l ∷ ls) v = ground (arith, remove-IsSide p ls v.2, lookup-remove l.0 p ls v.2)

pub apply_level-IsSide :
    (side : BookSide) (m : ℤ × ℤ) (ls ls' : Levels) (c : Change)
    → apply_level side m ls ≡ some (ls', c)
    → IsSide ls
    → IsSide ls'
unfolding apply_level
apply_level-IsSide side (pos zero, r) ls ls' c e v = cc
apply_level-IsSide side (negsuc n, r) ls ls' c e v = cc
apply_level-IsSide side (pos (suc p), negsuc n) ls ls' c e v = cc
apply_level-IsSide side (pos (suc p), pos q) ls ls' c e v =
    ground (arith, remove-IsSide (suc p) ls v, put-IsSide (suc p) q ls)

pub apply_levels-IsSide :
    (side : BookSide) (ms : List (ℤ × ℤ)) (ls ls' : Levels) (cs : List Change)
    → apply_levels side ms ls ≡ some (ls', cs)
    → IsSide ls
    → IsSide ls'
unfolding apply_levels
apply_levels-IsSide side [] ls ls' cs e v = ground arith
apply_levels-IsSide side (m ∷ ms) ls ls' cs e v = elim (Option-cases (apply_level side m ls)) [
  | inl d ↦ ground arith
  | inr (r, d) ↦ elim (Option-cases (apply_levels side ms r.0)) [
    | inl d' ↦ ground arith
    | inr (r', d') ↦
        let w : IsSide r'.0 =
          apply_levels-IsSide side ms r.0 r'.0 r'.1 d' (apply_level-IsSide side m ls r.0 r.1 d v) in
        ground arith
  ]
]

-- The quantity that a message leaves at a price, if it names the price: that of its last entry.
abbrev pub named : ℕ → List (ℤ × ℤ) → Option ℕ
named j [] = none
named j ((pos p, pos q) ∷ ms) = elim (named j ms) [
  | some r ↦ some r
  | none ↦ if p == j then some q else none
]
named j ((pos p, negsuc q) ∷ ms) = named j ms
named j ((negsuc p, q) ∷ ms) = named j ms

-- A zero quantity is no level.
abbrev pub nonzero : ℕ → Option ℕ
nonzero q = if q == 0 then none else some q

abbrev pub overlaid : Option ℕ → Option ℕ → Option ℕ
overlaid none old = old
overlaid (some q) old = nonzero q

apply_level-lookup :
    (side : BookSide) (j : ℕ) (m : ℤ × ℤ) (ls ls' : Levels) (c : Change)
    → apply_level side m ls ≡ some (ls', c)
    → IsSide ls
    → lookup j ls' ≡ overlaid (named j (m ∷ [])) (lookup j ls)
unfolding apply_level
apply_level-lookup side j (pos zero, r) ls ls' c e v = cc
apply_level-lookup side j (negsuc n, r) ls ls' c e v = cc
apply_level-lookup side j (pos (suc p), negsuc n) ls ls' c e v = cc
apply_level-lookup side j (pos (suc p), pos q) ls ls' c e v =
    ground (arith, lookup-remove j (suc p) ls v, lookup-put j (suc p) q ls)

overlaid-named :
    (j : ℕ) (m : ℤ × ℤ) (ms : List (ℤ × ℤ)) (old : Option ℕ)
    → overlaid (named j ms) (overlaid (named j (m ∷ [])) old) ≡ overlaid (named j (m ∷ ms)) old
overlaid-named j (pos p, pos q) ms old = ground arith
overlaid-named j (pos p, negsuc q) ms old = ground arith
overlaid-named j (negsuc p, q) ms old = ground arith

-- After the levels of a message are in, a price that it names has the quantity of its last entry
-- (none if that is zero), and every other price has the quantity that it had.
pub apply_levels-lookup :
    (side : BookSide) (j : ℕ) (ms : List (ℤ × ℤ)) (ls ls' : Levels) (cs : List Change)
    → apply_levels side ms ls ≡ some (ls', cs)
    → IsSide ls
    → lookup j ls' ≡ overlaid (named j ms) (lookup j ls)
unfolding apply_levels
apply_levels-lookup side j [] ls ls' cs e v = ground arith
apply_levels-lookup side j (m ∷ ms) ls ls' cs e v = elim (Option-cases (apply_level side m ls)) [
  | inl d ↦ ground arith
  | inr (r, d) ↦ elim (Option-cases (apply_levels side ms r.0)) [
    | inl d' ↦ ground arith
    | inr (r', d') ↦
        let a = apply_level-lookup side j m ls r.0 r.1 d v in
        let b =
          apply_levels-lookup side j ms r.0 r'.0 r'.1 d'
            (apply_level-IsSide side m ls r.0 r.1 d v) in
        ground (arith, a, b, overlaid-named j m ms (lookup j ls))
  ]
]
