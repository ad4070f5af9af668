-- ===== src/Supervision/Tests.antt =====
-- A subsystem that fails twice and is then cancelled.
use bybitflow.Prelude.{◌≡◌, none, List, [], ◌∷◌, arith, length, All}
use bybitflow.Supervision.Restart.{Attempt, cancelled, raised, Status, supervise}
use bybitflow.Supervision.Backoff.{IsBounded, last_retries, supervise_bounds}

abbrev blank : Status
blank = record { is_running = none; last_error = none; retries = 0; retry_ms = none }

abbrev attempts : List Attempt
attempts = raised 1 100 500 ∷ raised 2 9000 250 ∷ cancelled ∷ []

supervise_bounds_example :
    All IsBounded (supervise 0 0 blank attempts)
    × (length (supervise 0 0 blank attempts) ≡ 5)
    × (last_retries 0 (supervise 0 0 blank attempts) ≡ 2)
supervise_bounds_example =
    supervise_bounds 0 0 0 blank attempts (λ d e. cc) (omega arith, (omega arith, (tt, tt)))
