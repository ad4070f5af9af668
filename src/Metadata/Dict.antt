-- ===== src/Metadata/Dict.antt =====
-- Insertion-ordered dicts by key.
use bybitflow.Prelude.{
  suc, ◌+◌, ◌≤◌, ◌≡◌, refl, ap, ◌∙◌, false, Option, none, some, List, [], ◌∷◌, arith, if◌then◌else◌,
  length, Bool-cases, inl, inr,
}
use bybitflow.Metadata.Keys.{Key, same, same_refl, same_eq, same_sym}

abbrev pub Dict {ℓ} : Type ℓ → Type ℓ
Dict V = List (Key × V)

module _ {ℓ} {V : Type ℓ} where
  unfoldable pub lookup : Key → Dict V → Option V
  lookup k [] = none
  lookup k ((j, v) ∷ d) = if same j k then some v else lookup k d

  -- `d[k] = v`: an old key keeps its place.
  unfoldable pub assign : Key → V → Dict V → Dict V
  assign k v [] = (k, v) ∷ []
  assign k v ((j, w) ∷ d) = if same j k then (j, v) ∷ d else (j, w) ∷ assign k v d

  -- `d.pop(k, None)`
  unfoldable pub remove : Key → Dict V → Dict V
  remove k [] = []
  remove k ((j, w) ∷ d) = if same j k then remove k d else (j, w) ∷ remove k d

  -- No key stands twice.
  unfoldable pub IsDistinct : Dict V → Type ℓ
  IsDistinct [] = Unit
  IsDistinct ((j, w) ∷ d) = (lookup j d ≡ none) × IsDistinct d

  pub lookup-assign : (k : Key) (v : V) (d : Dict V) → lookup k (assign k v d) ≡ some v
  unfolding lookup assign
  lookup-assign k v [] = rw (same_refl k) refl
  lookup-assign k v ((j, w) ∷ d) = elim (Bool-cases (same j k)) [
    | inl e ↦ rw (e, lookup, e) refl
    | inr e ↦ rw (e, lookup, e) (lookup-assign k v d)
  ]

  pub lookup-assign_other :
      (k j : Key) (v : V) (d : Dict V) → same k j ≡ false → lookup j (assign k v d) ≡ lookup j d
  unfolding lookup assign
  lookup-assign_other k j v [] h = rw h refl
  lookup-assign_other k j v ((i, w) ∷ d) h = elim (Bool-cases (same i k)) [
    | inl e ↦ rw (e, lookup, same_eq i k e, h) refl
    | inr e ↦
        rw (e, lookup) (ap (λ r. if same i j then some w else r) (lookup-assign_other k j v d h))
  ]

  pub lookup-remove : (k : Key) (d : Dict V) → lookup k (remove k d) ≡ none
  unfolding lookup remove
  lookup-remove k [] = refl
  lookup-remove k ((j, w) ∷ d) = elim (Bool-cases (same j k)) [
    | inl e ↦ rw (e, lookup) (lookup-remove k d)
    | inr e ↦ rw (e, lookup, e) (lookup-remove k d)
  ]

  pub lookup-remove_other :
      (k j : Key) (d : Dict V) → same k j ≡ false → lookup j (remove k d) ≡ lookup j d
  unfolding lookup remove
  lookup-remove_other k j [] h = refl
  lookup-remove_other k j ((i, w) ∷ d) h = elim (Bool-cases (same i k)) [
    | inl e ↦ rw (e, same_eq i k e, h) (lookup-remove_other k j d h)
    | inr e ↦
        rw (e, lookup) (ap (λ r. if same i j then some w else r) (lookup-remove_other k j d h))
  ]

  pub IsDistinct-assign : (k : Key) (v : V) (d : Dict V) → IsDistinct d → IsDistinct (assign k v d)
  unfolding lookup assign IsDistinct
  IsDistinct-assign k v [] h = (refl, tt)
  IsDistinct-assign k v ((j, w) ∷ d) h = elim (Bool-cases (same j k)) [
    | inl e ↦ rw (e, IsDistinct) h
    | inr e ↦
        rw (e, IsDistinct)
          (lookup-assign_other k j v d (same_sym j k e) ∙ h.0, IsDistinct-assign k v d h.1)
  ]

  pub IsDistinct-remove : (k : Key) (d : Dict V) → IsDistinct d → IsDistinct (remove k d)
  unfolding lookup remove IsDistinct
  IsDistinct-remove k [] h = tt
  IsDistinct-remove k ((j, w) ∷ d) h = elim (Bool-cases (same j k)) [
    | inl e ↦ rw e (IsDistinct-remove k d h.1)
    | inr e ↦
        rw (e, IsDistinct)
          (lookup-remove_other k j d (same_sym j k e) ∙ h.0, IsDistinct-remove k d h.1)
  ]

  pub length-assign_new : (k : Key) (v : V) (d : Dict V) → length (assign k v d) ≤ length d + 1
  unfolding assign
  length-assign_new k v [] = omega arith
  length-assign_new k v ((j, w) ∷ d) = elim (Bool-cases (same j k)) [
    | inl e ↦ rw e (omega arith)
    | inr e ↦ rw e (omega (arith, length-assign_new k v d))
  ]

  pub length-assign_old :
      (k : Key) (v w : V) (d : Dict V) → lookup k d ≡ some w → length (assign k v d) ≡ length d
  unfolding assign lookup
  length-assign_old k v w [] h = cc
  length-assign_old k v w ((j, u) ∷ d) h = elim (Bool-cases (same j k)) [
    | inl e ↦ rw e refl
    | inr e ↦ rw e (ap suc (length-assign_old k v w d (later e h)))
  ]
    where
      later :
          same j k ≡ false
          → (if same j k then some u else lookup k d) ≡ some w
          → lookup k d ≡ some w
      later e h = cc

  pub length-assign_some : (k : Key) (v : V) (d : Dict V) → 1 ≤ length (assign k v d)
  unfolding assign
  length-assign_some k v [] = omega arith
  length-assign_some k v ((j, w) ∷ d) = elim (Bool-cases (same j k)) [
    | inl e ↦ rw e (omega arith)
    | inr e ↦ rw e (omega arith)
  ]

  pub length-remove_le : (k : Key) (d : Dict V) → length (remove k d) ≤ length d
  unfolding remove
  length-remove_le k [] = omega arith
  length-remove_le k ((j, w) ∷ d) = elim (Bool-cases (same j k)) [
    | inl e ↦ rw e (omega (arith, length-remove_le k d))
    | inr e ↦ rw e (omega (arith, length-remove_le k d))
  ]

  pub length-remove :
      (k : Key) (w : V) (d : Dict V) → lookup k d ≡ some w → length (remove k d) + 1 ≤ length d
  unfolding remove lookup
  length-remove k w [] h = cc
  length-remove k w ((j, u) ∷ d) h = elim (Bool-cases (same j k)) [
    | inl e ↦ rw e (omega (arith, length-remove_le k d))
    | inr e ↦ rw e (omega (arith, length-remove k w d (later e h)))
  ]
    where
      later :
          same j k ≡ false
          → (if same j k then some u else lookup k d) ≡ some w
          → lookup k d ≡ some w
      later e h = cc
