-- ===== src/Metadata/Drain.antt =====
-- What a reader of the store sees while the queue is written.
use bybitflow.Prelude.{
  ℕ, zero, suc, ◌+◌, ◌≡◌, refl, sym, subst, ap, ◌∙◌, Bool, true, false, Option, some, [], ◌∷◌,
  arith, length, Bool-cases, inl, inr, ◌⊎◌,
}
use bybitflow.Metadata.Keys.{Key, same, same_eq}
use bybitflow.Metadata.Dict.{
  Dict, lookup, assign, remove, lookup-assign, lookup-assign_other, lookup-remove,
  lookup-remove_other,
}
use bybitflow.Metadata.Writer.{
  Value, Writer, first_key, pop_if, Write, written, locked, write_failed, corrupt, died, key_error,
  turned, settled, set_default, turn,
}
use bybitflow.Metadata.Store.{shown_or, get}
use bybitflow.Metadata.Coherence.{head-lookup}
use bybitflow.Metadata.Victims.{pop_if-remove}
use bybitflow.Metadata.Offers.{IsCoherent}
use bybitflow.Metadata.Pump.{gone-IsCoherent}

get-settled : (w : Writer) (j : Key) → get j (settled w) ≡ get j w
get-settled w j = go w.pending refl
  where
    go : (p : Dict Value) → w.pending ≡ p → get j (settled w) ≡ get j w
    go [] e = rw e refl
    go (x ∷ p) e = rw e refl

turned_get :
    (y x : Writer) (j : Key) (g : Option ℕ) → turned y ≡ turned x → get j y ≡ g → get j x ≡ g
turned_get y x j g q e = subst (λ z. get j z ≡ g) (untouched q) e
  where
    untouched : turned y ≡ turned x → y ≡ x
    untouched r = cc

module _ (w : Writer) (k : Key) (v : Value) (rest : Dict Value) where
  abbrev queued : Writer
  queued = record w { pending = (k, v) ∷ rest }

  overlay_gone : IsCoherent queued → pop_if k v w.overlay ≡ remove k w.overlay
  overlay_gone h = pop_if-remove k v w.overlay (head-lookup k v rest w.overlay h.queue).0

  -- A row that the table has taken shows as it did in the overlay.
  written_get :
      (j : Key)
      → IsCoherent queued
      → shown_or (lookup j (pop_if k v w.overlay)) (lookup j (assign k v.1 w.kv)) ≡ get j w
  written_get j h = rw (overlay_gone h) (go (Bool-cases (same k j)))
    where
      go :
          (same k j ≡ true) ⊎ (same k j ≡ false)
          → shown_or (lookup j (remove k w.overlay)) (lookup j (assign k v.1 w.kv)) ≡ get j w
      go (inl e) = rw (← same_eq k j e) (
          rw
            (
              lookup-remove k w.overlay,
              lookup-assign k v.1 w.kv,
              (head-lookup k v rest w.overlay h.queue).0,
            )
            refl)
      go (inr e) = rw (lookup-remove_other k j w.overlay e, lookup-assign_other k j v.1 w.kv e) refl

  lost_get :
      (j : Key)
      → IsCoherent queued
      → same k j ≡ false
      → shown_or (lookup j (pop_if k v w.overlay)) (lookup j w.kv) ≡ get j w
  lost_get j h e = rw (overlay_gone h, lookup-remove_other k j w.overlay e) refl

  head_get :
      (o : Write) (x : Writer) (j : Key)
      → IsCoherent queued
      → turn false o queued ≡ turned x
      → (get j x ≡ get j queued) ⊎ ((o ≡ write_failed) × (k ≡ j))
  unfolding turn
  head_get written x j h e = inl (
      turned_get _ x j (get j w) e (
        get-settled
          (record w { pending = rest; overlay = pop_if k v w.overlay; kv = assign k v.1 w.kv }) j
        ∙ written_get j h))
  head_get locked x j h e = inl (
      turned_get _ x j (get j w) e
        (get-settled (record w { pending = set_default k v rest; retries = w.retries + 1 }) j))
  head_get corrupt x j h e = cc
  head_get write_failed x j h e = elim (Bool-cases (same k j)) [
    | inl f ↦ inr (refl, same_eq k j f)
    | inr f ↦ inl (
        turned_get _ x j (get j w) e (
          get-settled
            (record w { pending = rest; overlay = pop_if k v w.overlay; failures = w.failures + 1 })
            j
          ∙ lost_get j h f))
  ]

-- A turn after which the task goes on changes for no key what the store returns for it, unless the
-- database refuses the row with an OperationalError for another reason than a lock: then it may
-- change for the key of that row.
pub turn-get :
    (busy : Bool) (o : Write) (w x : Writer) (j : Key)
    → IsCoherent w
    → turn busy o w ≡ turned x
    → (get j x ≡ get j w) ⊎ ((o ≡ write_failed) × (first_key w.pending ≡ some j))
unfolding turn
turn-get true o w x j h e = inl (turned_get _ x j (get j w) e refl)
turn-get false o w x j h e = go w.pending refl
  where
    go :
        (p : Dict Value)
        → w.pending ≡ p
        → (get j x ≡ get j w) ⊎ ((o ≡ write_failed) × (first_key w.pending ≡ some j))
    go [] q = never (ap (λ p. turn false o (record w { pending = p })) (sym q) ∙ e)
      where
        never :
            turn false o (record w { pending = [] }) ≡ turned x
            → (get j x ≡ get j w) ⊎ ((o ≡ write_failed) × (first_key w.pending ≡ some j))
        never r = cc
    go ((k, v) ∷ rest) q = rw q (
        later (
          head_get w k v rest o x j (subst (λ p. IsCoherent (record w { pending = p })) q h)
            (ap (λ p. turn false o (record w { pending = p })) (sym q) ∙ e)))
      where
        later :
            (get j x ≡ get j w) ⊎ ((o ≡ write_failed) × (k ≡ j))
            → (get j x ≡ get j w) ⊎ ((o ≡ write_failed) × (some k ≡ some j))
        later (inl a) = inl a
        later (inr (a, b)) = inr (a, ap some b)

-- `n` turns in which the database takes every row.
unfoldable pub drain : ℕ → Writer → Writer
drain zero w = w
drain (suc n) w = elim (turn false written w) [ key_error ↦ w | turned x ↦ drain n x | died x ↦ x ]

-- All rows are written, and show as in `w`.
abbrev IsDrained : Writer → Writer → Type 0
IsDrained x w = (x.pending ≡ []) × ((j : Key) → lookup j x.kv ≡ get j w)

abbrev after_head : Writer → Key → Value → Dict Value → Writer
after_head w k v rest = record w {
  pending = rest;
  overlay = pop_if k v w.overlay;
  kv = assign k v.1 w.kv;
}

length-settled : (w : Writer) → length (settled w).pending ≡ length w.pending
length-settled w = go w.pending refl
  where
    go : (p : Dict Value) → w.pending ≡ p → length (settled w).pending ≡ length w.pending
    go [] e = rw e refl
    go (x ∷ p) e = rw e refl

-- As many turns as there are pending rows, in which the database takes them, empty the queue, and
-- then the table holds for every key what the store returned for it before.
pub drain-get :
    (n : ℕ) (w : Writer)
    → IsCoherent w
    → length w.pending ≡ n
    → ((drain n w).pending ≡ []) × ((j : Key) → lookup j (drain n w).kv ≡ get j w)
unfolding drain turn lookup
drain-get zero w h l = go w.pending refl l
  where
    go : (p : Dict Value) → w.pending ≡ p → length p ≡ 0 → IsDrained w w
    go [] q m =
        (q, λ j. sym (ap (λ r. shown_or r (lookup j w.kv)) (h.queue.agree j ∙ ap (lookup j) q)))
    go (x ∷ p) q m = cc
drain-get (suc n) w h l = go (λ x c m. drain-get n x c m) w.pending refl
  where
    go :
        ((x : Writer) → IsCoherent x → length x.pending ≡ n → IsDrained (drain n x) x)
        → (p : Dict Value) → w.pending ≡ p
        → IsDrained (drain (suc n) w) w
    go next [] q = none_left (sym (ap length q) ∙ l)
      where
        none_left : 0 ≡ suc n → IsDrained (drain (suc n) w) w
        none_left r = cc
    go next ((k, v) ∷ rest) q =
        subst (λ x. IsDrained (drain (suc n) x) x) same_writer (first queued_IsCoherent)
      where
        same_writer : record w { pending = (k, v) ∷ rest } ≡ w
        same_writer = rw (← q) refl

        queued_IsCoherent : IsCoherent (record w { pending = (k, v) ∷ rest })
        queued_IsCoherent = subst IsCoherent (sym same_writer) h

        first :
            IsCoherent (record w { pending = (k, v) ∷ rest })
            → IsDrained
                (drain n (settled (after_head w k v rest)))
                (record w { pending = (k, v) ∷ rest })
        first c =
            let (a, b) =
              next (settled (after_head w k v rest))
                (gone-IsCoherent w k v rest (assign k v.1 w.kv) w.failures c)
                (length-settled (after_head w k v rest) ∙ omega (arith, l, ap length q)) in
            (a, λ j. b j ∙ get-settled (after_head w k v rest) j ∙ written_get w k v rest j c)
