-- ===== src/Migrations/Laws.antt =====
-- What `apply` guarantees, whether it returns or raises.
use bybitflow.Prelude.{
  ℕ, ◌≡◌, ◌≢◌, refl, sym, subst, ap, ◌∙◌, true, false, not, none, some, List, [], ◌∷◌, ◌++◌, arith,
  ◌==◌, if◌then◌else◌, Bool-cases, Option-cases, inl, inr, All, Memᴰ,
}
use bybitflow.Migrations.Registry.{
  raised, Migration, Receipt, applied, insert_or_ignore, differs, Applied, mismatch, raised_at,
  done, Database, first_mismatch, receipt_of,
}
use bybitflow.Migrations.Receipts.{
  stored, applied_stored, stored_applied, stored-insert_or_ignore, applied-insert_or_ignore_new,
  applied-insert_or_ignore_other,
}

-- The receipt of each id in `old` is that in `new`, with all of its columns.
abbrev pub Keeps : List Receipt → List Receipt → Type 0
Keeps old new = (id : ℕ) (r : Receipt) → stored id old ≡ some r → stored id new ≡ some r

pub Keeps-applied :
    (old new : List Receipt) (id c : ℕ)
    → Keeps old new
    → applied id old ≡ some c
    → applied id new ≡ some c
Keeps-applied old new id c k h =
    let (r, (e, q)) = stored_applied id old c h in applied_stored id new r (k id r e) ∙ ap some q

module _ {S : Type 0} where
  abbrev pub HasReceipt : List Receipt → Migration S → Type 0
  HasReceipt rs m = applied m.id rs ≡ some m.checksum

  -- No id stands twice in the registry.
  abbrev pub IsRegistry : List (Migration S) → Type 0
  IsRegistry [] = Unit
  IsRegistry (m ∷ ms) = All (λ (k : Migration S). m.id ≢ k.id) ms × IsRegistry ms

  -- What `apply` makes of a database.
  pub data Outcome (steps : List (Migration S)) (d : Database S)
      : Applied × Database S → Type 0 where
    stopped :
        (m : Migration S)
        → Memᴰ m steps
        → differs (applied m.id d.receipts) m.checksum ≡ true
        → Outcome steps d (mismatch m.id, d)
    failed :
        (before after : List (Migration S)) (m : Migration S) (s : S) (x : Database S)
        → steps ≡ before ++ m ∷ after
        → All (HasReceipt x.receipts) before
        → Keeps d.receipts x.receipts
        → m.callback s ≡ raised x.contents
        → applied m.id x.receipts ≡ applied m.id d.receipts
        → Outcome steps d (raised_at m.id, x)
    complete :
        (x : Database S)
        → All (HasReceipt x.receipts) steps
        → Keeps d.receipts x.receipts
        → Outcome steps d (done, x)

  pub first_mismatch-some :
      (ms : List (Migration S)) (rs : List Receipt) (id : ℕ)
      → first_mismatch ms rs ≡ some id
      → (m : Migration S) × (Memᴰ m ms
          × (differs (applied m.id rs) m.checksum ≡ true)
          × (m.id ≡ id))
  unfolding first_mismatch
  first_mismatch-some [] rs id h = cc
  first_mismatch-some (m ∷ ms) rs id h = elim (Bool-cases (differs (applied m.id rs) m.checksum)) [
    | inl e ↦ (m, (Memᴰ.head refl, e, this e h))
    | inr e ↦
        let (k, (i, f, g)) = first_mismatch-some ms rs id (later e h) in (k, (Memᴰ.tail i, f, g))
  ]
    where
      this :
          differs (applied m.id rs) m.checksum ≡ true
          → (if differs (applied m.id rs) m.checksum then some m.id else first_mismatch ms rs)
            ≡ some id
          → m.id ≡ id
      this e q = cc

      later :
          differs (applied m.id rs) m.checksum ≡ false
          → (if differs (applied m.id rs) m.checksum then some m.id else first_mismatch ms rs)
            ≡ some id
          → first_mismatch ms rs ≡ some id
      later e q = cc

  -- A migration that has a receipt has one with its checksum.
  abbrev pub Fits : List Receipt → Migration S → Type 0
  Fits rs m = differs (applied m.id rs) m.checksum ≡ false

  pub first_mismatch-none :
      (ms : List (Migration S)) (rs : List Receipt) → first_mismatch ms rs ≡ none → All (Fits rs) ms
  unfolding first_mismatch
  first_mismatch-none [] rs h = tt
  first_mismatch-none (m ∷ ms) rs h = elim (Bool-cases (differs (applied m.id rs) m.checksum)) [
    | inl e ↦ never e h
    | inr e ↦ (e, first_mismatch-none ms rs (later e h))
  ]
    where
      never :
          differs (applied m.id rs) m.checksum ≡ true
          → (if differs (applied m.id rs) m.checksum then some m.id else first_mismatch ms rs)
            ≡ none
          → Fits rs m × All (Fits rs) ms
      never e q = cc

      later :
          differs (applied m.id rs) m.checksum ≡ false
          → (if differs (applied m.id rs) m.checksum then some m.id else first_mismatch ms rs)
            ≡ none
          → first_mismatch ms rs ≡ none
      later e q = cc

  pub Fits-applied :
      (m : Migration S) (rs : List Receipt) (c : ℕ)
      → Fits rs m
      → applied m.id rs ≡ some c
      → HasReceipt rs m
  Fits-applied m rs c f e = e ∙ ap some (equal (subst (λ o. differs o m.checksum ≡ false) e f))
    where
      equal : not (c == m.checksum) ≡ false → c ≡ m.checksum
      equal q = ground arith

  -- The receipts of the migrations still to come are those from before the loop.
  abbrev pub Agrees : List Receipt → List Receipt → List (Migration S) → Type 0
  Agrees before now = All (λ (k : Migration S). applied k.id now ≡ applied k.id before)

  pub insert-Agrees :
      (r : Receipt) (before now : List Receipt) (ms : List (Migration S))
      → All (λ (k : Migration S). r.id ≢ k.id) ms
      → Agrees before now ms
      → Agrees before (insert_or_ignore r now) ms
  insert-Agrees r before now [] n a = tt
  insert-Agrees r before now (k ∷ ms) n a =
      (applied-insert_or_ignore_other r now k.id n.0 ∙ a.0, insert-Agrees r before now ms n.1 a.1)

  pub inserted-HasReceipt :
      (m : Migration S) (at : ℕ) (before now : List Receipt)
      → Fits before m
      → applied m.id now ≡ applied m.id before
      → HasReceipt (insert_or_ignore (receipt_of m at) now) m
  inserted-HasReceipt m at before now f a = elim (Option-cases (applied m.id now)) [
    | inl e ↦ applied-insert_or_ignore_new (receipt_of m at) now e
    | inr (c, e) ↦
        Keeps-applied now (insert_or_ignore (receipt_of m at) now) m.id m.checksum
          (λ id r h. stored-insert_or_ignore (receipt_of m at) now id r h)
          (a ∙ Fits-applied m before c f (sym a ∙ e))
  ]
