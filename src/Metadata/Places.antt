-- ===== src/Metadata/Places.antt =====
-- `offer` leaves the task where it is.
use bybitflow.Prelude.{
  ℕ, ◌+◌, ◌≡◌, refl, length, inl, inr, not, ◌&&◌, leb, Bool-cases, Option-cases,
}
use bybitflow.Metadata.Keys.{Key, diagnostic_key, is_global}
use bybitflow.Metadata.Dict.{lookup}
use bybitflow.Metadata.Writer.{
  Value, Writer, offer, offered, Offered, critical, nothing_to_evict, evicted_for, evict, displace,
  is_held, counted, first_market, first_key,
}

-- An offer leaves the place of the task and the capacity.
unfoldable pub KeepsPlace : Writer → Offered → Type 0
KeepsPlace w critical = Unit
KeepsPlace w nothing_to_evict = Unit
KeepsPlace w (offered x) = (x.place ≡ w.place) × (x.capacity ≡ w.capacity)

evict-KeepsPlace :
    (old k : Key) (v : Value) (w : Writer) → KeepsPlace w (evicted_for k v (evict old w))
unfolding evict KeepsPlace
evict-KeepsPlace old k v w = elim (Option-cases (lookup old w.pending)) [
  | inl e ↦ rw (evict, e) tt
  | inr (u, e) ↦ rw (evict, e) (refl, refl)
]

pub offer-KeepsPlace : (k : Key) (p : ℕ) (w : Writer) → KeepsPlace w (offer k p w)
unfolding offer displace KeepsPlace
offer-KeepsPlace k p w = elim (Bool-cases (diagnostic_key k)) [
  | inr e ↦ rw (offer, e) tt
  | inl e ↦
      elim (Bool-cases (not (is_held (lookup k w.pending)) && leb w.capacity (length w.pending))) [
        | inr f ↦ rw (offer, e, f) (refl, refl)
        | inl f ↦ elim (Option-cases (first_market w.pending)) [
          | inr (old, m) ↦
              rw (offer, e, f, displace, m) (evict-KeepsPlace old k (w.sequence + 1, p) (counted w))
          | inl m ↦ elim (Bool-cases (is_global k)) [
            | inr n ↦ rw (offer, e, f, displace, m, n) (refl, refl)
            | inl n ↦ elim (Option-cases (first_key w.pending)) [
              | inl g ↦ rw (offer, e, f, displace, m, n, g) tt
              | inr (old, g) ↦
                  rw (offer, e, f, displace, m, n, g)
                    (evict-KeepsPlace old k (w.sequence + 1, p) (counted w))
            ]
          ]
        ]
      ]
]
