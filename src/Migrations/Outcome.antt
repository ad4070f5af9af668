-- ===== src/Migrations/Outcome.antt =====
-- `apply` on every branch, and on a database that it has already brought up to date.
use bybitflow.Prelude.{
  ℕ, ◌≡◌, refl, subst, ap, ◌∙◌, true, false, not, ◌&&◌, none, some, List, [], ◌∷◌, ◌++◌, Bool-cases,
  Option-cases, inl, inr, ◌⊎◌, All,
}
use bybitflow.Migrations.Registry.{
  Ran, returned, raised, Migration, Receipt, applied, insert_or_ignore, is_applied, Applied,
  mismatch, raised_at, done, Database, first_mismatch, receipt_of, is_skipped, run, apply,
}
use bybitflow.Migrations.Receipts.{stored-insert_or_ignore}
use bybitflow.Migrations.Laws.{
  Keeps, Keeps-applied, HasReceipt, IsRegistry, Outcome, stopped, failed, complete, Fits, Agrees,
  first_mismatch-some, first_mismatch-none, Fits-applied, insert-Agrees, inserted-HasReceipt,
}

module _ {S : Type 0} where
  -- What the second loop makes of a database, with the receipts from before it.
  data RunsTo (before : List Receipt) (steps : List (Migration S)) (d : Database S)
      : Applied × Database S → Type 0 where
    halts :
        (earlier later : List (Migration S)) (m : Migration S) (s : S) (x : Database S)
        → steps ≡ earlier ++ m ∷ later
        → All (HasReceipt x.receipts) earlier
        → Keeps d.receipts x.receipts
        → m.callback s ≡ raised x.contents
        → applied m.id x.receipts ≡ applied m.id before
        → RunsTo before steps d (raised_at m.id, x)
    ends :
        (x : Database S)
        → All (HasReceipt x.receipts) steps
        → Keeps d.receipts x.receipts
        → RunsTo before steps d (done, x)

  -- A migration that has its receipt goes before the others.
  RunsTo-cons :
      (before : List Receipt) (m : Migration S) (ms : List (Migration S)) (d e : Database S)
      (r : Applied × Database S)
      → HasReceipt e.receipts m
      → Keeps d.receipts e.receipts
      → RunsTo before ms e r
      → RunsTo before (m ∷ ms) d r
  RunsTo-cons before m ms d e r h k (halts xs ys x s y q a b c i) =
      halts (m ∷ xs) ys x s y (ap (λ z. m ∷ z) q)
        (Keeps-applied e.receipts y.receipts m.id m.checksum b h, a) (λ id n g. b id n (k id n g)) c
        i
  RunsTo-cons before m ms d e r h k (ends x a b) =
      ends x (Keeps-applied e.receipts x.receipts m.id m.checksum b h, a)
        (λ id n g. b id n (k id n g))

  run-RunsTo :
      (now : ℕ) (before : List Receipt) (ms : List (Migration S)) (d : Database S)
      → All (Fits before) ms
      → IsRegistry ms
      → Agrees before d.receipts ms
      → RunsTo before ms d (run now before ms d)
  unfolding run
  run-RunsTo now before [] d f g a = ends d tt (λ id c h. h)
  run-RunsTo now before (m ∷ ms) d f g a = elim (Bool-cases (is_skipped m before)) [
    | inl e ↦
        rw (run, e)
          (RunsTo-cons before m ms d d (run now before ms d)
            (skipped e (Option-cases (applied m.id before))) (λ id c h. h)
            (run-RunsTo now before ms d f.1 g.1 a.1))
    | inr e ↦
        rw (run, e)
          (called (m.callback d.contents) refl (λ s.
            run-RunsTo now before ms (next s) f.1 g.1
              (insert-Agrees (receipt_of m now) before d.receipts ms g.0 a.1)))
  ]
    where
      next : S → Database S
      next s = record {
        contents = s;
        receipts = insert_or_ignore (receipt_of m now) d.receipts;
        ran = m.id ∷ d.ran;
      }

      skipped :
          is_skipped m before ≡ true
          → (applied m.id before ≡ none) ⊎ ((c : ℕ) × (applied m.id before ≡ some c))
          → HasReceipt d.receipts m
      skipped e (inl n) = never (subst (λ o. (is_applied o && not m.repeatable) ≡ true) n e)
        where
          never : false ≡ true → HasReceipt d.receipts m
          never q = cc
      skipped e (inr (c, n)) = a.0 ∙ Fits-applied m before c f.0 n

      called :
          (r : Ran S)
          → m.callback d.contents ≡ r
          → ((s : S) → RunsTo before ms (next s) (run now before ms (next s)))
          → RunsTo before (m ∷ ms) d (elim r [
            | raised s ↦ (raised_at m.id, record d { contents = s; ran = m.id ∷ d.ran })
            | returned s ↦ run now before ms (next s)
          ])
      called (raised s) q rest =
          halts [] ms m d.contents (record d { contents = s; ran = m.id ∷ d.ran }) refl tt
            (λ id c h. h) q a.0
      called (returned s) q rest =
          RunsTo-cons before m ms d (next s) (run now before ms (next s))
            (inserted-HasReceipt m now before d.receipts f.0 a.0)
            (λ id c h. stored-insert_or_ignore (receipt_of m now) d.receipts id c h) (rest s)

  agree_self : (rs : List Receipt) (ms : List (Migration S)) → Agrees rs rs ms
  agree_self rs [] = tt
  agree_self rs (m ∷ ms) = (refl, agree_self rs ms)

  -- On a registry in which no id stands twice, `apply` stops at a receipt whose checksum is not
  -- that of its migration, with the database as it was. Or a callback raises, and then every
  -- migration before it has its receipt and its own receipt is as it was. Or it returns, and every
  -- migration has a receipt with its checksum. No receipt is ever lost, and none of its columns changes.
  pub apply_receipts :
      (now : ℕ) (steps : List (Migration S)) (d : Database S)
      → IsRegistry steps
      → Outcome steps d (apply now steps d)
  unfolding apply
  apply_receipts now steps d g = elim (Option-cases (first_mismatch steps d.receipts)) [
    | inr (id, e) ↦
        let (m, (i, f, q)) = first_mismatch-some steps d.receipts id e in
        rw (apply, e) (subst (λ j. Outcome steps d (mismatch j, d)) q (stopped m i f))
    | inl e ↦
        rw (apply, e)
          (lift (run now d.receipts steps d) (
            run-RunsTo now d.receipts steps d (first_mismatch-none steps d.receipts e) g
              (agree_self d.receipts steps)))
  ]
    where
      lift : (r : Applied × Database S) → RunsTo d.receipts steps d r → Outcome steps d r
      lift _ (halts xs ys x s y q a b c i) = failed xs ys x s y q a b c i
      lift _ (ends x a b) = complete x a b
