-- ===== src/Metadata/Coherence.antt =====
-- The queue and what is shown of it agree, whatever is offered, written, refused or given up.
use bybitflow.Prelude.{
  ◌≡◌, refl, sym, subst, ap, ◌∙◌, true, none, some, [], ◌∷◌, Bool-cases, inl, inr,
}
use bybitflow.Metadata.Keys.{Key, same, same_eq, same_refl, diagnostic_key}
use bybitflow.Metadata.Dict.{
  Dict, lookup, assign, remove, IsDistinct, lookup-assign, lookup-assign_other, lookup-remove,
  lookup-remove_other, IsDistinct-assign, IsDistinct-remove,
}
use bybitflow.Metadata.Writer.{Value}

-- The pending rows `p` and the overlay `o` are one map, without critical keys.
pub record IsQueue (p o : Dict Value) : Type 0 where
  pub agree : (k : Key) → lookup k o ≡ lookup k p
  pub distinct : IsDistinct p
  pub keys : (k : Key) (v : Value) → lookup k p ≡ some v → diagnostic_key k ≡ true

pub empty-IsQueue : IsQueue [] []
unfolding lookup IsDistinct
empty-IsQueue = record { agree = λ k. refl; distinct = tt; keys = λ k v h. cc }

pub assign-IsQueue :
    (k : Key) (v : Value) (p o : Dict Value)
    → diagnostic_key k ≡ true
    → IsQueue p o
    → IsQueue (assign k v p) (assign k v o)
assign-IsQueue k v p o d q = record {
  agree = λ j. elim (Bool-cases (same k j)) [
    | inl e ↦ rw (← same_eq k j e) (lookup-assign k v o ∙ sym (lookup-assign k v p))
    | inr e ↦ lookup-assign_other k j v o e ∙ q.agree j ∙ sym (lookup-assign_other k j v p e)
  ];
  distinct = IsDistinct-assign k v p q.distinct;
  keys = λ j w h. elim (Bool-cases (same k j)) [
    | inl e ↦ subst (λ i. diagnostic_key i ≡ true) (same_eq k j e) d
    | inr e ↦ q.keys j w (sym (lookup-assign_other k j v p e) ∙ h)
  ];
}

pub remove-IsQueue : (k : Key) (p o : Dict Value) → IsQueue p o → IsQueue (remove k p) (remove k o)
remove-IsQueue k p o q = record {
  agree = λ j. elim (Bool-cases (same k j)) [
    | inl e ↦ rw (← same_eq k j e) (lookup-remove k o ∙ sym (lookup-remove k p))
    | inr e ↦ lookup-remove_other k j o e ∙ q.agree j ∙ sym (lookup-remove_other k j p e)
  ];
  distinct = IsDistinct-remove k p q.distinct;
  keys = λ j w h. elim (Bool-cases (same k j)) [
    | inl e ↦ unheld (sym (lookup-remove k p) ∙ ap (λ i. lookup i (remove k p)) (same_eq k j e) ∙ h)
    | inr e ↦ q.keys j w (sym (lookup-remove_other k j p e) ∙ h)
  ];
}
  where
    unheld : {B : Type 0} {w : Value} → none ≡ some w → B
    unheld h = cc

-- The row at the head is the one that the overlay shows for its key.
pub head-lookup :
    (k : Key) (v : Value) (p o : Dict Value)
    → IsQueue ((k, v) ∷ p) o
    → (lookup k o ≡ some v) × (lookup k p ≡ none)
unfolding lookup IsDistinct
head-lookup k v p o q = (q.agree k ∙ rw (same_refl k) refl, q.distinct.0)

pub tail-IsQueue :
    (k : Key) (v : Value) (p o : Dict Value) → IsQueue ((k, v) ∷ p) o → IsQueue p (remove k o)
unfolding lookup IsDistinct
tail-IsQueue k v p o q = record {
  agree = λ j. elim (Bool-cases (same k j)) [
    | inl e ↦ rw (← same_eq k j e) (lookup-remove k o ∙ sym q.distinct.0)
    | inr e ↦ lookup-remove_other k j o e ∙ q.agree j ∙ rw e refl
  ];
  distinct = q.distinct.1;
  keys = λ j w h. elim (Bool-cases (same k j)) [
    | inl e ↦
        subst (λ i. diagnostic_key i ≡ true) (same_eq k j e) (q.keys k v (rw (same_refl k) refl))
    | inr e ↦ q.keys j w (rw e h)
  ];
}

pub move-IsQueue :
    (k : Key) (v : Value) (p o : Dict Value) → IsQueue ((k, v) ∷ p) o → IsQueue (assign k v p) o
unfolding lookup IsDistinct
move-IsQueue k v p o q = record {
  agree = λ j. elim (Bool-cases (same k j)) [
    | inl e ↦ rw (← same_eq k j e) ((head-lookup k v p o q).0 ∙ sym (lookup-assign k v p))
    | inr e ↦ q.agree j ∙ rw e refl ∙ sym (lookup-assign_other k j v p e)
  ];
  distinct = IsDistinct-assign k v p q.distinct.1;
  keys = λ j w h. elim (Bool-cases (same k j)) [
    | inl e ↦
        subst (λ i. diagnostic_key i ≡ true) (same_eq k j e) (q.keys k v (rw (same_refl k) refl))
    | inr e ↦ q.keys j w (rw e (sym (lookup-assign_other k j v p e) ∙ h))
  ];
}
