-- ===== src/Metadata/Pump.antt =====
-- The task `run`: it never meets an empty queue, loses no row that the database takes, and drains.
use bybitflow.Prelude.{
  ℕ, ◌+◌, ◌≤◌, ◌≡◌, refl, sym, subst, Bool, true, false, [], ◌∷◌, arith, if◌then◌else◌, length, inl,
  inr, ◌⊎◌, ◌≢◌, ◌∙◌,
}
use bybitflow.Metadata.Keys.{Key}
use bybitflow.Metadata.Dict.{Dict, assign, length-assign_new}
use bybitflow.Metadata.Writer.{
  Value, at_wait, at_sleep, returned, Writer, pop_if, offer, offered, Offered, Write, written,
  locked, write_failed, Turn, turned, settled, set_default, turn, wake, abort, Step, offers, wakes,
  turns, dies, died, crashed, corrupt, closes, aborts, Reach, starts, steps,
}
use bybitflow.Metadata.Coherence.{IsQueue, empty-IsQueue, head-lookup, tail-IsQueue, move-IsQueue}
use bybitflow.Metadata.Victims.{pop_if-remove}
use bybitflow.Metadata.Offers.{IsCoherent, Outcome, taken, displaced, dropped, offer-Outcome}
use bybitflow.Metadata.Places.{KeepsPlace, offer-KeepsPlace}

-- The turn keeps the writer coherent and raises nothing, or it ends the task.
pub data Proceeds (w : Writer) : Turn → Type 0 where
  ends : (x : Writer) → x.place ≡ crashed → x.capacity ≡ w.capacity → Proceeds w (died x)
  proceeds : (x : Writer) → IsCoherent x → Proceeds w (turned x)

settled-IsCoherent :
    (w : Writer)
    → IsQueue w.pending w.overlay
    → length w.pending ≤ w.capacity
    → 1 ≤ w.capacity
    → IsCoherent (settled w)
settled-IsCoherent w q b r = go w.pending refl
  where
    awake : (c : Bool) → (if c then returned else at_wait) ≡ at_sleep → 1 ≤ 0
    awake true s = cc
    awake false s = cc

    go : (p : Dict Value) → w.pending ≡ p → IsCoherent (settled w)
    go [] e = rw e (record {
      queue = subst (λ p. IsQueue p w.overlay) e q;
      bounded = omega arith;
      room = r;
      sleeping = λ s. awake w.stopping s;
      waking = λ s m. cc;
    })
    go (x ∷ p) e = rw e (record {
      queue = subst (λ p. IsQueue p w.overlay) e q;
      bounded = subst (λ p. length p ≤ w.capacity) e b;
      room = r;
      sleeping = λ s. omega arith;
      waking = λ s m. inl (omega arith);
    })

module _ (w : Writer) (k : Key) (v : Value) (rest : Dict Value) where
  abbrev held : Writer
  held = record w { pending = (k, v) ∷ rest }

  -- The head row is gone from the queue and from the overlay.
  pub gone-IsCoherent :
      (kv : Dict ℕ) (failures : ℕ)
      → IsCoherent held
      → IsCoherent (
          settled (record w {
            pending = rest;
            overlay = pop_if k v w.overlay;
            kv = kv;
            failures = failures;
          }))
  gone-IsCoherent kv failures h =
      settled-IsCoherent
        (record w { pending = rest; overlay = pop_if k v w.overlay; kv = kv; failures = failures })
        (subst (λ o. IsQueue rest o)
          (sym (pop_if-remove k v w.overlay (head-lookup k v rest w.overlay h.queue).0))
          (tail-IsQueue k v rest w.overlay h.queue))
        (omega (arith, h.bounded)) h.room

  moved : IsCoherent held → set_default k v rest ≡ assign k v rest
  moved h = rw (set_default, (head-lookup k v rest w.overlay h.queue).1) refl

  moved-IsCoherent :
      IsCoherent held
      → IsCoherent (settled (record w { pending = set_default k v rest; retries = w.retries + 1 }))
  moved-IsCoherent h =
      settled-IsCoherent (record w { pending = set_default k v rest; retries = w.retries + 1 })
        (subst (λ p. IsQueue p w.overlay) (sym (moved h)) (move-IsQueue k v rest w.overlay h.queue))
        (subst (λ p. length p ≤ w.capacity) (sym (moved h))
          (omega (arith, h.bounded, length-assign_new k v rest)))
        h.room

  head-Proceeds : (o : Write) → IsCoherent held → Proceeds held (turn false o held)
  unfolding turn
  head-Proceeds written h = proceeds _ (gone-IsCoherent (assign k v.1 w.kv) w.failures h)
  head-Proceeds locked h = proceeds _ (moved-IsCoherent h)
  head-Proceeds write_failed h = proceeds _ (gone-IsCoherent w.kv (w.failures + 1) h)
  head-Proceeds corrupt h = ends _ refl refl

pub turn-Proceeds :
    (busy : Bool) (o : Write) (w : Writer)
    → w.place ≡ at_sleep
    → IsCoherent w
    → Proceeds w (turn busy o w)
unfolding turn
turn-Proceeds true o w s h = proceeds _ (record {
  queue = h.queue;
  bounded = h.bounded;
  room = h.room;
  sleeping = λ e. cc;
  waking = λ e m. inl (h.sleeping s);
})
turn-Proceeds false o w s h = go w.pending refl
  where
    go : (p : Dict Value) → w.pending ≡ p → Proceeds w (turn false o w)
    go [] e = elim (none_left (subst (λ p. 1 ≤ length p) e (h.sleeping s))) [ ]
      where
        none_left : 1 ≤ 0 → ⊥
        none_left r = omega arith
    go ((k, v) ∷ rest) e =
        subst (λ x. Proceeds x (turn false o x)) (same_writer e)
          (head-Proceeds w k v rest o (subst IsCoherent (sym (same_writer e)) h))
      where
        same_writer : w.pending ≡ (k, v) ∷ rest → record w { pending = (k, v) ∷ rest } ≡ w
        same_writer q = rw (← q) refl

wake-IsCoherent :
    (w : Writer) → w.place ≡ at_wait → w.wakeup ≡ true → IsCoherent w → IsCoherent (wake w)
unfolding wake
wake-IsCoherent w a k h = record {
  queue = h.queue;
  bounded = h.bounded;
  room = h.room;
  sleeping = λ e. awake w.pending w.stopping e (h.waking a k);
  waking = λ s m. h.waking a k;
}
  where
    awake :
        (p : Dict Value) (c : Bool)
        → (if c then elim p [ [] ↦ returned | e ∷ d ↦ at_sleep ] else at_sleep) ≡ at_sleep
        → (1 ≤ length p) ⊎ (c ≡ true)
        → 1 ≤ length p
    awake (e ∷ d) c s m = omega arith
    awake [] true s m = cc
    awake [] false s (inl m) = m
    awake [] false s (inr m) = cc

same_offered : {x y : Writer} → offered y ≡ offered x → y ≡ x
same_offered q = cc

same_turned : {x y : Writer} → turned y ≡ turned x → y ≡ x
same_turned q = cc

aborted-IsCoherent : (w : Writer) → 1 ≤ w.capacity → IsCoherent (abort w)
unfolding abort
aborted-IsCoherent w r = record {
  queue = empty-IsQueue;
  bounded = omega arith;
  room = r;
  sleeping = λ e. cc;
  waking = λ s m. cc;
}

-- The task has ended with an error, or the writer is coherent.
data IsStanding (w : Writer) : Type 0 where
  dead : w.place ≡ crashed → 1 ≤ w.capacity → IsStanding w
  alive : IsCoherent w → IsStanding w

coherent_step : {w x : Writer} → Step w x → IsCoherent w → IsStanding x
coherent_step {w} {x} (offers k p e) h = go (offer k p w) e (offer-Outcome k p w h)
  where
    go : (o : Offered) → o ≡ offered x → Outcome k p w o → IsStanding x
    go _ q (Outcome.refused d) = cc
    go _ q (taken y a b c) = alive (subst IsCoherent (same_offered q) c)
    go _ q (displaced y old a b c d i) = alive (subst IsCoherent (same_offered q) i)
    go _ q (dropped y a b c d i) = alive (subst IsCoherent (same_offered q) i)
coherent_step {w} {x} (wakes a e) h = alive (wake-IsCoherent w a e h)
coherent_step {w} {x} (turns busy o s e) h = go (turn busy o w) e (turn-Proceeds busy o w s h)
  where
    go : (t : Turn) → t ≡ turned x → Proceeds w t → IsStanding x
    go _ q (proceeds y c) = alive (subst IsCoherent (same_turned q) c)
    go _ q (ends y c d) = cc
coherent_step closes h = alive (record {
  queue = h.queue;
  bounded = h.bounded;
  room = h.room;
  sleeping = h.sleeping;
  waking = λ s m. inr refl;
})
coherent_step {w} aborts h = alive (aborted-IsCoherent w h.room)
coherent_step {w} {x} (dies busy o s e) h = go (turn busy o w) e (turn-Proceeds busy o w s h)
  where
    same_died : {y : Writer} → died y ≡ died x → y ≡ x
    same_died q = cc

    go : (t : Turn) → t ≡ died x → Proceeds w t → IsStanding x
    go _ q (proceeds y c) = cc
    go _ q (ends y c d) =
        subst IsStanding (same_died q) (dead c (subst (λ n. 1 ≤ n) (sym d) h.room))

dead_step : {w x : Writer} → Step w x → w.place ≡ crashed → 1 ≤ w.capacity → IsStanding x
unfolding KeepsPlace
dead_step {w} {x} (offers k p e) d r =
    let (q, c) = subst (KeepsPlace w) e (offer-KeepsPlace k p w) in
    dead (q ∙ d) (subst (λ n. 1 ≤ n) (sym c) r)
dead_step (wakes a e) d r = cc
dead_step (turns busy o s e) d r = cc
dead_step (dies busy o s e) d r = cc
dead_step closes d r = dead d r
dead_step {w} aborts d r = alive (aborted-IsCoherent w r)

Reach-IsStanding :
    (capacity : ℕ) (kv : Dict ℕ) {w : Writer} → 1 ≤ capacity → Reach capacity kv w → IsStanding w
Reach-IsStanding capacity kv r starts = alive (record {
  queue = empty-IsQueue;
  bounded = omega arith;
  room = r;
  sleeping = λ e. cc;
  waking = λ s m. cc;
})
Reach-IsStanding capacity kv r (steps b s) = elim (Reach-IsStanding capacity kv r b) [
  | dead d n ↦ dead_step s d n
  | alive h ↦ coherent_step s h
]

-- Whatever is offered to a writer with room for a row, whatever the database does, and whenever the
-- store closes: as long as the task has not ended with an error of the database that is no
-- OperationalError, the pending rows and the overlay are one map without critical keys, no more rows
-- are pending than the capacity, and the task sleeps only while a row is pending.
pub Reach-IsCoherent :
    (capacity : ℕ) (kv : Dict ℕ) {w : Writer}
    → 1 ≤ capacity
    → Reach capacity kv w
    → w.place ≢ crashed
    → IsCoherent w
Reach-IsCoherent capacity kv {w} r b n = go (Reach-IsStanding capacity kv r b)
  where
    go : IsStanding w → IsCoherent w
    go (dead d m) = absurd (n d)
    go (alive h) = h
