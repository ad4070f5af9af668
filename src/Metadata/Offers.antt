-- ===== src/Metadata/Offers.antt =====
-- `offer`: what it takes in, what it displaces and what it drops.
use bybitflow.Prelude.{
  ℕ, ◌+◌, ◌≤◌, ◌≡◌, refl, ap, ◌∙◌, true, false, some, [], ◌∷◌, arith, leb, length, Bool-cases,
  Option-cases, inl, inr, ◌⊎◌,
}
use bybitflow.Metadata.Keys.{Key, same, same_refl, is_global, diagnostic_key}
use bybitflow.Metadata.Dict.{
  Dict, lookup, remove, lookup-assign, lookup-assign_other, lookup-remove_other, length-assign_new,
  length-assign_old, length-assign_some, length-remove,
}
use bybitflow.Metadata.Writer.{
  Value, at_wait, at_sleep, Writer, first_market, first_key, evict, counted, stored, Offered,
  critical, offered, evicted_for, displace, offer, shown, read,
}
use bybitflow.Metadata.Victims.{pop_if-remove, first_market-some, first_market-none}
use bybitflow.Metadata.Coherence.{IsQueue, assign-IsQueue, remove-IsQueue}

-- What every writer of a running store satisfies.
pub record IsCoherent (w : Writer) : Type 0 where
  pub queue : IsQueue w.pending w.overlay
  pub bounded : length w.pending ≤ w.capacity
  pub room : 1 ≤ w.capacity
  pub sleeping : w.place ≡ at_sleep → 1 ≤ length w.pending
  pub waking : w.place ≡ at_wait → w.wakeup ≡ true → (1 ≤ length w.pending) ⊎ (w.stopping ≡ true)

-- What `offer` makes of a writer.
pub data Outcome (k : Key) (p : ℕ) (w : Writer) : Offered → Type 0 where
  refused : diagnostic_key k ≡ false → Outcome k p w critical
  taken :
      (x : Writer)
      → read k x ≡ some p
      → ((j : Key) → same k j ≡ false → read j x ≡ read j w)
      → IsCoherent x
      → Outcome k p w (offered x)
  displaced :
      (x : Writer) (old : Key)
      → read k x ≡ some p
      → ((j : Key) → same k j ≡ false → same old j ≡ false → read j x ≡ read j w)
      → (is_global old ≡ true
          → (is_global k ≡ true)
            × ((j : Key) (v : Value) → lookup j w.pending ≡ some v → is_global j ≡ true))
      → length w.pending ≡ w.capacity
      → IsCoherent x
      → Outcome k p w (offered x)
  dropped :
      (x : Writer)
      → is_global k ≡ false
      → ((j : Key) (v : Value) → lookup j w.pending ≡ some v → is_global j ≡ true)
      → length w.pending ≡ w.capacity
      → ((j : Key) → read j x ≡ read j w)
      → IsCoherent x
      → Outcome k p w (offered x)

module _ (k : Key) (p : ℕ) (w : Writer) (d : diagnostic_key k ≡ true) (h : IsCoherent w) where
  abbrev value : Value
  value = (w.sequence + 1, p)

  read-stored : (x : Writer) (v : Value) → read k (stored k v x) ≡ some v.1
  read-stored x v = ap shown (lookup-assign k v x.overlay)

  read-stored_other :
      (x : Writer) (v : Value) (j : Key) → same k j ≡ false → read j (stored k v x) ≡ read j x
  read-stored_other x v j e = ap shown (lookup-assign_other k j v x.overlay e)

  -- A pending row makes way.
  replaced :
      (old : Key) (u : Value)
      → lookup old w.pending ≡ some u
      → (is_global old ≡ true
          → (is_global k ≡ true)
            × ((j : Key) (v : Value) → lookup j w.pending ≡ some v → is_global j ≡ true))
      → length w.pending ≡ w.capacity
      → Outcome k p w (evicted_for k value (evict old (counted w)))
  unfolding evict
  replaced old u e g full =
      rw (evict, e, pop_if-remove old u w.overlay (h.queue.agree old ∙ e))
        (displaced _ old (ap shown (lookup-assign k value (remove old w.overlay)))
          (λ j n m. ap shown (
            lookup-assign_other k j value (remove old w.overlay) n
            ∙ lookup-remove_other old j w.overlay m))
          g full
          (record {
            queue =
                assign-IsQueue k value (remove old w.pending) (remove old w.overlay) d
                  (remove-IsQueue old w.pending w.overlay h.queue);
            bounded = omega (
              arith,
              length-assign_new k value (remove old w.pending),
              length-remove old u w.pending e,
              h.bounded,
            );
            room = h.room;
            sleeping = λ s. length-assign_some k value (remove old w.pending);
            waking = λ s m. inl (length-assign_some k value (remove old w.pending));
          }))

  held-taken :
      (u : Value)
      → lookup k w.pending ≡ some u
      → Outcome k p w (offered (stored k value (counted w)))
  held-taken u e =
      taken _ (read-stored (counted w) value) (read-stored_other (counted w) value) (record {
        queue = assign-IsQueue k value w.pending w.overlay d h.queue;
        bounded = omega (arith, length-assign_old k value u w.pending e, h.bounded);
        room = h.room;
        sleeping = λ s. length-assign_some k value w.pending;
        waking = λ s m. inl (length-assign_some k value w.pending);
      })

  room-taken :
      length w.pending + 1 ≤ w.capacity → Outcome k p w (offered (stored k value (counted w)))
  room-taken r =
      taken _ (read-stored (counted w) value) (read-stored_other (counted w) value) (record {
        queue = assign-IsQueue k value w.pending w.overlay d h.queue;
        bounded = omega (arith, length-assign_new k value w.pending);
        room = h.room;
        sleeping = λ s. length-assign_some k value w.pending;
        waking = λ s m. inl (length-assign_some k value w.pending);
      })

  first_key-some :
      (q : Dict Value)
      → 1 ≤ length q
      → (j : Key) × ((v : Value) × (first_key q ≡ some j) × (lookup j q ≡ some v))
  unfolding lookup
  first_key-some [] r = elim (none_left r) [ ]
    where
      none_left : 1 ≤ 0 → ⊥
      none_left s = omega arith
  first_key-some ((j, v) ∷ q) r = (j, (v, refl, rw (same_refl j) refl))

  displace-Outcome : length w.pending ≡ w.capacity → Outcome k p w (displace k value (counted w))
  unfolding displace
  displace-Outcome full = elim (Option-cases (first_market w.pending)) [
    | inr (old, e) ↦
        rw (displace, e)
          (let (g, (u, m)) = first_market-some w.pending old e in replaced old u m (λ c. cc) full)
    | inl e ↦ elim (Bool-cases (is_global k)) [
      | inr n ↦
          rw (displace, e, n)
            (dropped _ n (first_market-none w.pending e) full (λ j. refl)
              (record {
                queue = h.queue;
                bounded = h.bounded;
                room = h.room;
                sleeping = h.sleeping;
                waking = h.waking;
              }))
      | inl n ↦
          let (old, (u, f, m)) = first_key-some w.pending (omega (arith, full, h.room)) in
          rw (displace, e, n, f) (replaced old u m (λ c. (n, first_market-none w.pending e)) full)
    ]
  ]

-- Offering a row to a coherent writer. A critical key is refused. A diagnostic key is taken in, and
-- then it reads as the row offered and every other key reads as before; in a full queue a new key
-- displaces one other, which is a global snapshot only if the new key is one too and no market row
-- is pending; and a new market key is dropped if the queue is full of global snapshots. The queue
-- never raises, and stays coherent.
pub offer-Outcome : (k : Key) (p : ℕ) (w : Writer) → IsCoherent w → Outcome k p w (offer k p w)
unfolding offer
offer-Outcome k p w h = elim (Bool-cases (diagnostic_key k)) [
  | inr e ↦ rw (e, offer) (refused e)
  | inl e ↦ elim (Option-cases (lookup k w.pending)) [
    | inr (u, m) ↦ rw (e, m, offer) (held-taken k p w e h u m)
    | inl m ↦ elim (Bool-cases (leb w.capacity (length w.pending))) [
      | inl f ↦ rw (e, m, f, offer) (displace-Outcome k p w e h (full f h.bounded))
      | inr f ↦ rw (e, m, f, offer) (room-taken k p w e h (free f))
    ]
  ]
]
  where
    full :
        leb w.capacity (length w.pending) ≡ true
        → length w.pending ≤ w.capacity
        → length w.pending ≡ w.capacity
    full f b = ground arith

    free : leb w.capacity (length w.pending) ≡ false → length w.pending + 1 ≤ w.capacity
    free f = ground arith
