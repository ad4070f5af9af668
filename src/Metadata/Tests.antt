-- ===== src/Metadata/Tests.antt =====
-- A writer with room for two rows.
use bybitflow.Prelude.{ℕ, ◌≡◌, refl, true, false, some, [], ◌∷◌, arith, ◌⊎◌}
use bybitflow.Metadata.Keys.{Key, diagnostic, feed, other, same}
use bybitflow.Metadata.Dict.{lookup, assign, remove}
use bybitflow.Metadata.Writer.{
  Writer, new, offer, Offered, offered, stored, counted, evict, displace, first_market, first_key,
  written, write_failed, turn, at_wait, wake, Reach, starts, steps, offers, wakes, locked,
}
use bybitflow.Metadata.Store.{get, put, put_row, write_row}
use bybitflow.Metadata.Offers.{IsCoherent, Outcome, offer-Outcome}
use bybitflow.Metadata.Pump.{Reach-IsCoherent}
use bybitflow.Metadata.Drain.{drain, turn-get, drain-get}

abbrev scan_health : Key
scan_health = record { space = diagnostic; name = 5 }

abbrev feed_row : ℕ → Key
feed_row n = record { space = feed; name = n }

abbrev opened : Writer
opened = new 2 ((scan_health, 70) ∷ [])

abbrev one : Writer
one = stored scan_health (1, 71) (counted opened)

abbrev two : Writer
two = stored (feed_row 1) (2, 80) (counted one)

-- A third row displaces the market row, not the global snapshot.
abbrev three : Offered
three = offer (feed_row 2) 90 two

third_displaces :
    three
    ≡ offered (record two {
      sequence = 3;
      pending = (scan_health, (1, 71)) ∷ (feed_row 2, (3, 90)) ∷ [];
      overlay = (scan_health, (1, 71)) ∷ (feed_row 2, (3, 90)) ∷ [];
      dropped = 1;
    })
unfolding offer displace first_market evict lookup assign remove same
third_displaces = refl

-- A critical row is written at the second attempt, after a lock.
put_retries :
    put false
      (λ n. elim n [
        | ℕ.zero ↦ write_failed
        | ℕ.suc m ↦ elim m [
          | ℕ.zero ↦ written
          | ℕ.suc k ↦ elim k [ ℕ.zero ↦ written | ℕ.suc i ↦ locked ]
        ]
      ])
      (record { space = other; name = 4 })
      9
      opened
    ≡ (
      bybitflow.Metadata.Store.acknowledged,
      record opened {
        kv = (scan_health, 70) ∷ (record { space = other; name = 4 }, 9) ∷ [];
        retries = 1;
      },
    )
unfolding put put_row write_row assign same
put_retries = refl

two-Reach : Reach 2 ((scan_health, 70) ∷ []) two
unfolding offer lookup assign same
two-Reach = steps (steps starts (offers scan_health 71 refl)) (offers (feed_row 1) 80 refl)

asleep-Reach : Reach 2 ((scan_health, 70) ∷ []) (wake two)
unfolding lookup assign same
asleep-Reach = steps two-Reach (wakes refl refl)

two-IsCoherent : IsCoherent two
two-IsCoherent = Reach-IsCoherent 2 ((scan_health, 70) ∷ []) (omega arith) two-Reach (λ e. cc)

asleep-IsCoherent : IsCoherent (wake two)
unfolding wake
asleep-IsCoherent = Reach-IsCoherent 2 ((scan_health, 70) ∷ []) (omega arith) asleep-Reach (λ e. cc)

Reach-IsCoherent_example : IsCoherent two
Reach-IsCoherent_example =
    Reach-IsCoherent 2 ((scan_health, 70) ∷ []) (omega arith) two-Reach (λ e. cc)

offer-Outcome_example : Outcome (feed_row 2) 90 two (offer (feed_row 2) 90 two)
offer-Outcome_example = offer-Outcome (feed_row 2) 90 two two-IsCoherent

-- The busy connection leaves the row for later.
turn-get_example :
    (get scan_health (record (wake two) { place = at_wait }) ≡ get scan_health (wake two))
    ⊎ ((written ≡ write_failed) × (first_key (wake two).pending ≡ some scan_health))
unfolding turn
turn-get_example =
    turn-get true written (wake two) (record (wake two) { place = at_wait }) scan_health
      asleep-IsCoherent refl

drain-get_example :
    ((drain 2 two).pending ≡ []) × ((j : Key) → lookup j (drain 2 two).kv ≡ get j two)
unfolding assign same
drain-get_example = drain-get 2 two two-IsCoherent refl
