-- ===== src/Migrations/Rerun.antt =====
-- `apply` on a database that is up to date.
use bybitflow.Prelude.{
  ℕ, ◌+◌, ◌≡◌, refl, sym, subst, ap, ◌∙◌, Bool, true, false, not, ◌&&◌, none, List, [], ◌∷◌, arith,
  ◌==◌, if◌then◌else◌, Bool-cases, inl, inr, All,
}
use bybitflow.Migrations.Registry.{
  Ran, returned, raised, Migration, Receipt, applied, insert_or_ignore, is_applied, Applied,
  raised_at, Database, first_mismatch, receipt_of, is_skipped, run, apply,
}
use bybitflow.Migrations.Receipts.{insert_or_ignore_old}
use bybitflow.Migrations.Laws.{HasReceipt}

-- How often a callback has run.
abbrev pub count : ℕ → List ℕ → ℕ
count i [] = 0
count i (j ∷ js) = if i == j then 1 + count i js else count i js

module _ {S : Type 0} where
  -- The migration with this id, if there is one, is not repeatable.
  abbrev pub IsOnce : ℕ → List (Migration S) → Type 0
  IsOnce i = All (λ (m : Migration S). m.id ≡ i → m.repeatable ≡ false)

  first_mismatch-none_of :
      (ms : List (Migration S)) (rs : List Receipt)
      → All (HasReceipt rs) ms
      → first_mismatch ms rs ≡ none
  unfolding first_mismatch
  first_mismatch-none_of [] rs h = refl
  first_mismatch-none_of (m ∷ ms) rs h =
      rw (h.0, alike m.checksum) (first_mismatch-none_of ms rs h.1)
    where
      alike : (c : ℕ) → not (c == c) ≡ false
      alike c = ground arith

  -- What a run over migrations that have their receipts leaves as it was.
  abbrev IsStill : ℕ → Database S → Applied × Database S → Type 0
  IsStill i d r = (r.1.receipts ≡ d.receipts) × (count i r.1.ran ≡ count i d.ran)

  run-IsStill :
      (now i : ℕ) (before : List Receipt) (ms : List (Migration S)) (d : Database S)
      → All (HasReceipt before) ms
      → d.receipts ≡ before
      → IsOnce i ms
      → IsStill i d (run now before ms d)
  unfolding run
  run-IsStill now i before [] d h q o = (refl, refl)
  run-IsStill now i before (m ∷ ms) d h q o = elim (Bool-cases (is_skipped m before)) [
    | inl e ↦ rw (run, e) (run-IsStill now i before ms d h.1 q o.1)
    | inr e ↦
        rw (run, e)
          (called e (m.callback d.contents)
            (λ s. run-IsStill now i before ms (next s) h.1 (same_receipts ∙ q) o.1))
  ]
    where
      next : S → Database S
      next s = record {
        contents = s;
        receipts = insert_or_ignore (receipt_of m now) d.receipts;
        ran = m.id ∷ d.ran;
      }

      same_receipts : insert_or_ignore (receipt_of m now) d.receipts ≡ d.receipts
      same_receipts =
          insert_or_ignore_old (receipt_of m now) d.receipts m.checksum (ap (applied m.id) q ∙ h.0)

      runs_again : is_skipped m before ≡ false → m.repeatable ≡ true
      runs_again e = go m.repeatable (subst (λ c. (is_applied c && not m.repeatable) ≡ false) h.0 e)
        where
          go : (b : Bool) → not b ≡ false → b ≡ true
          go true k = refl
          go false k = cc

      not_this : is_skipped m before ≡ false → count i (m.id ∷ d.ran) ≡ count i d.ran
      not_this e = elim (Bool-cases (i == m.id)) [
        | inl f ↦ never (equal f) (runs_again e)
        | inr f ↦ rw f refl
      ]
        where
          equal : (i == m.id) ≡ true → m.id ≡ i
          equal f = ground arith

          never : m.id ≡ i → m.repeatable ≡ true → count i (m.id ∷ d.ran) ≡ count i d.ran
          never f g = clash (sym g ∙ o.0 f)
            where
              clash : true ≡ false → count i (m.id ∷ d.ran) ≡ count i d.ran
              clash k = cc

      called :
          is_skipped m before ≡ false
          → (r : Ran S) → ((s : S) → IsStill i (next s) (run now before ms (next s)))
          → IsStill i d (elim r [
            | raised s ↦ (raised_at m.id, record d { contents = s; ran = m.id ∷ d.ran })
            | returned s ↦ run now before ms (next s)
          ])
      called e (raised s) rest = (refl, not_this e)
      called e (returned s) rest = ((rest s).0 ∙ same_receipts, (rest s).1 ∙ not_this e)

  -- Where every migration of the registry has its receipt, `apply` finds no mismatch, leaves the
  -- receipts as they are, and runs no callback of a migration that is not repeatable.
  pub apply_again :
      (now i : ℕ) (steps : List (Migration S)) (d : Database S)
      → All (HasReceipt d.receipts) steps
      → IsOnce i steps
      → (first_mismatch steps d.receipts ≡ none)
        × ((apply now steps d).1.receipts ≡ d.receipts)
        × (count i (apply now steps d).1.ran ≡ count i d.ran)
  unfolding apply
  apply_again now i steps d h o =
      let n = first_mismatch-none_of steps d.receipts h in
      let r = run-IsStill now i d.receipts steps d h refl o in
      (n, rw (apply, n) r.0, rw (apply, n) r.1)
