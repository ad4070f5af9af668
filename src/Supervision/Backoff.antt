-- ===== src/Supervision/Backoff.antt =====
-- The delays and the counts of a supervised subsystem.
use bybitflow.Prelude.{
  ℕ, zero, suc, ◌+◌, ◌*◌, ◌^◌, ◌≤◌, ◌<◌, ◌≡◌, ◌∙◌, some, List, [], ◌∷◌, arith, min, length, All,
}
use bybitflow.Supervision.Restart.{Attempt, cancelled, raised, Status, delay, recovering, supervise}

-- Jitters are below one second.
abbrev pub IsJittered : Attempt → Type 0
IsJittered cancelled = Unit
IsJittered (raised error at jitter) = jitter < 1000

-- The delay of a row is between 2 and 61 seconds.
abbrev pub IsBounded : Status → Type 0
IsBounded s = (d : ℕ) → s.retry_ms ≡ some d → (2000 ≤ d) × (d < 61000)

-- How many attempts are made before one is cancelled.
abbrev pub failures_in : List Attempt → ℕ
failures_in [] = 0
failures_in (cancelled ∷ rest) = 0
failures_in (raised error at jitter ∷ rest) = 1 + failures_in rest

powers : (k : ℕ) → 1 ≤ k → k ≤ 6 → 2 ≤ 2 ^ k
powers zero h l = omega arith
powers (suc zero) h l = omega arith
powers (suc (suc zero)) h l = omega arith
powers (suc (suc (suc zero))) h l = omega arith
powers (suc (suc (suc (suc zero)))) h l = omega arith
powers (suc (suc (suc (suc (suc zero))))) h l = omega arith
powers (suc (suc (suc (suc (suc (suc zero)))))) h l = omega arith
powers (suc (suc (suc (suc (suc (suc (suc k))))))) h l = omega arith

delay_bounds :
    (n jitter : ℕ) → jitter < 1000 → (2000 ≤ delay (n + 1) jitter) × (delay (n + 1) jitter < 61000)
delay_bounds n jitter h =
    let p = powers (min (n + 1) 6) (omega arith) (omega arith) in
    (omega (arith, p), omega (arith, p))

-- The retries of the last row, or `d` if there is no row.
abbrev pub last_retries : ℕ → List Status → ℕ
last_retries d [] = d
last_retries d (s ∷ ss) = last_retries s.retries ss

-- With jitters below a second, every stored delay is between 2 and 61 seconds if that of the first
-- row is; two rows are stored for each failure and one for the attempt that is cancelled or still
-- runs, and the last of them counts all failures.
pub supervise_bounds :
    (d at failures : ℕ) (s : Status) (attempts : List Attempt)
    → IsBounded s
    → All IsJittered attempts
    → All IsBounded (supervise at failures s attempts)
      × (length (supervise at failures s attempts) ≡ 2 * failures_in attempts + 1)
      × (last_retries d (supervise at failures s attempts) ≡ failures + failures_in attempts)
unfolding supervise
supervise_bounds d at failures s [] b j = ((b, tt), omega arith, omega arith)
supervise_bounds d at failures s (cancelled ∷ rest) b j = ((b, tt), omega arith, omega arith)
supervise_bounds d at failures s (raised error now jitter ∷ rest) b j =
    let (x, y, z) =
      supervise_bounds (failures + 1) (now + delay (failures + 1) jitter) (failures + 1)
        (recovering error now jitter (failures + 1)) rest fresh j.1 in
    ((b, (fresh, x)), omega (arith, y), z ∙ omega arith)
  where
    same_delay : {a d : ℕ} → some a ≡ some d → a ≡ d
    same_delay e = cc

    fresh : IsBounded (recovering error now jitter (failures + 1))
    fresh d e =
        let q = same_delay e in
        (
          omega (arith, q, (delay_bounds failures jitter j.0).0),
          omega (arith, q, (delay_bounds failures jitter j.0).1),
        )
