-- ===== src/Migrations/Receipts.antt =====
-- Receipts: what an insertion keeps and what it adds.
use bybitflow.Prelude.{
  ℕ, ap, subst, Option, [], ◌∷◌, if◌then◌else◌, ◌≡◌, ◌≢◌, refl, true, false, none, some, List,
  arith, ◌==◌, Bool-cases, Option-cases, inl, inr,
}
use bybitflow.Migrations.Registry.{Receipt, applied, insert_or_ignore}

==_refl : (n : ℕ) → (n == n) ≡ true
==_refl n = ground arith

-- The whole row of an id.
unfoldable pub stored : ℕ → List Receipt → Option Receipt
stored id [] = none
stored id (r ∷ rs) = if r.id == id then some r else stored id rs

pub applied_stored :
    (id : ℕ) (rs : List Receipt) (r : Receipt)
    → stored id rs ≡ some r
    → applied id rs ≡ some r.checksum
unfolding stored applied
applied_stored id [] r h = cc
applied_stored id (x ∷ rs) r h = elim (Bool-cases (x.id == id)) [
  | inl e ↦ rw (applied, e) (ap (λ o. checksum_of o) (own e))
  | inr e ↦ rw (applied, e) (applied_stored id rs r (later e))
]
  where
    checksum_of : Option Receipt → Option ℕ
    checksum_of none = none
    checksum_of (some y) = some y.checksum

    own : (x.id == id) ≡ true → some x ≡ some r
    own e = subst (λ b. (if b then some x else stored id rs) ≡ some r) e h

    later : (x.id == id) ≡ false → stored id rs ≡ some r
    later e = subst (λ b. (if b then some x else stored id rs) ≡ some r) e h

pub stored_applied :
    (id : ℕ) (rs : List Receipt) (c : ℕ)
    → applied id rs ≡ some c
    → (r : Receipt) × ((stored id rs ≡ some r) × (r.checksum ≡ c))
unfolding stored applied
stored_applied id [] c h = cc
stored_applied id (x ∷ rs) c h = elim (Bool-cases (x.id == id)) [
  | inl e ↦ rw (stored, e) (x, (refl, same_checksum (own e)))
  | inr e ↦ rw (stored, e) (stored_applied id rs c (later e))
]
  where
    own : (x.id == id) ≡ true → some x.checksum ≡ some c
    own e = subst (λ b. (if b then some x.checksum else applied id rs) ≡ some c) e h

    same_checksum : some x.checksum ≡ some c → x.checksum ≡ c
    same_checksum q = cc

    later : (x.id == id) ≡ false → applied id rs ≡ some c
    later e = subst (λ b. (if b then some x.checksum else applied id rs) ≡ some c) e h

pub applied-insert_or_ignore_new :
    (r : Receipt) (rs : List Receipt)
    → applied r.id rs ≡ none
    → applied r.id (insert_or_ignore r rs) ≡ some r.checksum
unfolding applied insert_or_ignore
applied-insert_or_ignore_new r rs h = rw (insert_or_ignore, h, applied, ==_refl r.id) refl

pub insert_or_ignore_old :
    (r : Receipt) (rs : List Receipt) (c : ℕ)
    → applied r.id rs ≡ some c
    → insert_or_ignore r rs ≡ rs
unfolding insert_or_ignore
insert_or_ignore_old r rs c h = rw (insert_or_ignore, h) refl

pub applied-insert_or_ignore_other :
    (r : Receipt) (rs : List Receipt) (id : ℕ)
    → r.id ≢ id
    → applied id (insert_or_ignore r rs) ≡ applied id rs
unfolding applied insert_or_ignore
applied-insert_or_ignore_other r rs id n = elim (Option-cases (applied r.id rs)) [
  | inl e ↦ rw (insert_or_ignore, e, applied, differs_from) refl
  | inr (c, e) ↦ rw (insert_or_ignore, e) refl
]
  where
    differs_from : (r.id == id) ≡ false
    differs_from = ground arith

-- A receipt is never changed.
pub stored-insert_or_ignore :
    (r : Receipt) (rs : List Receipt) (id : ℕ) (x : Receipt)
    → stored id rs ≡ some x
    → stored id (insert_or_ignore r rs) ≡ some x
unfolding stored insert_or_ignore
stored-insert_or_ignore r rs id x h = elim (Option-cases (applied r.id rs)) [
  | inr (k, e) ↦ rw (insert_or_ignore, e) h
  | inl e ↦ elim (Bool-cases (r.id == id)) [
    | inr f ↦ rw (insert_or_ignore, e, stored, f) h
    | inl f ↦ never e (equal f) (applied_stored id rs x h)
  ]
]
  where
    equal : (r.id == id) ≡ true → r.id ≡ id
    equal f = ground arith

    never :
        applied r.id rs ≡ none
        → r.id ≡ id
        → applied id rs ≡ some x.checksum
        → stored id (insert_or_ignore r rs) ≡ some x
    never e q k = cc
