-- ===== src/Metadata/Victims.antt =====
-- Which row makes way in a full queue, and what the overlay gives up with it.
use bybitflow.Prelude.{
  ◌≡◌, refl, subst, true, false, none, some, [], ◌∷◌, arith, if◌then◌else◌, Bool-cases, inl, inr,
  ◌⊎◌,
}
use bybitflow.Metadata.Keys.{Key, same, same_eq, same_refl, is_global}
use bybitflow.Metadata.Dict.{Dict, lookup, remove}
use bybitflow.Metadata.Writer.{Value, same_value, first_market, pop_if}

-- The overlay gives up exactly the row that it shows.
pub pop_if-remove :
    (k : Key) (v : Value) (o : Dict Value) → lookup k o ≡ some v → pop_if k v o ≡ remove k o
pop_if-remove k v o h = rw (h, own v) refl
  where
    own : (v : Value) → same_value (some v) v ≡ true
    own v = ground arith

pub first_market-some :
    (d : Dict Value) (k : Key)
    → first_market d ≡ some k
    → (is_global k ≡ false) × ((v : Value) × (lookup k d ≡ some v))
unfolding first_market lookup
first_market-some [] k h = cc
first_market-some ((j, v) ∷ d) k h = elim (Bool-cases (is_global j)) [
  | inl e ↦ later e (Bool-cases (same j k)) (first_market-some d k (skip e h))
  | inr e ↦ here e (take_it e h)
]
  where
    skip :
        is_global j ≡ true
        → (if is_global j then first_market d else some j) ≡ some k
        → first_market d ≡ some k
    skip e h = cc

    take_it :
        is_global j ≡ false → (if is_global j then first_market d else some j) ≡ some k → j ≡ k
    take_it e h = cc

    later :
        is_global j ≡ true
        → (same j k ≡ true) ⊎ (same j k ≡ false)
        → (is_global k ≡ false) × ((v : Value) × (lookup k d ≡ some v))
        → (is_global k ≡ false)
          × ((u : Value) × ((if same j k then some v else lookup k d) ≡ some u))
    later e (inl f) (g, m) = (g, (v, rw f refl))
    later e (inr f) (g, m) = (g, (m.0, rw f m.1))

    here :
        is_global j ≡ false
        → j ≡ k
        → (is_global k ≡ false)
          × ((u : Value) × ((if same j k then some v else lookup k d) ≡ some u))
    here e q = (subst (λ i. is_global i ≡ false) q e, (v, rw (← q, same_refl j) refl))

pub first_market-none :
    (d : Dict Value)
    → first_market d ≡ none
    → (k : Key) (v : Value) → lookup k d ≡ some v
    → is_global k ≡ true
unfolding first_market lookup
first_market-none [] h k v m = cc
first_market-none ((j, u) ∷ d) h k v m = elim (Bool-cases (is_global j)) [
  | inr e ↦ never e h
  | inl e ↦ elim (Bool-cases (same j k)) [
    | inl f ↦ subst (λ i. is_global i ≡ true) (same_eq j k f) e
    | inr f ↦ first_market-none d (skip e h) k v (past f m)
  ]
]
  where
    never :
        is_global j ≡ false
        → (if is_global j then first_market d else some j) ≡ none
        → is_global k ≡ true
    never e h = cc

    skip :
        is_global j ≡ true
        → (if is_global j then first_market d else some j) ≡ none
        → first_market d ≡ none
    skip e h = cc

    past :
        same j k ≡ false → (if same j k then some u else lookup k d) ≡ some v → lookup k d ≡ some v
    past f m = cc
