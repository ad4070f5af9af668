-- ===== src/Supervision/Restart.antt =====
-- `supervise`: the attempts of a subsystem, each with its end. The jitter of a delay is below one
-- second, in milliseconds.
use bybitflow.Prelude.{ℕ, ◌+◌, ◌*◌, ◌^◌, Option, none, some, List, [], ◌∷◌, min}

-- How `factory()` ends: it is cancelled, or it raises (also by returning, which is made an error).
-- With the time and the jitter of the delay that follows.
pub data Attempt : Type 0 where
  cancelled : Attempt
  raised : (error at jitter : ℕ) → Attempt

-- The row stored under "supervisor:" and the name; `running` keeps the error of the row before it.
pub record Status : Type 0 where
  pub is_running : Option ℕ
  pub last_error : Option (ℕ × ℕ)
  pub retries : ℕ
  pub retry_ms : Option ℕ

-- `min(60, 2 ** min(failures, 6)) + random.random()`, in milliseconds.
abbrev pub delay : ℕ → ℕ → ℕ
delay failures jitter = min 60 (2 ^ min failures 6) * 1000 + jitter

-- `previous | dict(state="RUNNING", …)`
abbrev pub started : ℕ → ℕ → Status → Status
started at failures s = record s { is_running = some at; retries = failures }

abbrev pub recovering : ℕ → ℕ → ℕ → ℕ → Status
recovering error at jitter failures = record {
  is_running = none;
  last_error = some (error, at);
  retries = failures;
  retry_ms = some (delay failures jitter);
}

-- The loop: the rows that are stored after `failures` failures, the first one first, and the last
-- row. It goes on until an attempt is cancelled; `at` is the time of the next attempt.
unfoldable pub supervise : ℕ → ℕ → Status → List Attempt → List Status
supervise at failures s [] = started at failures s ∷ []
supervise at failures s (cancelled ∷ rest) = started at failures s ∷ []
supervise at failures s (raised error now jitter ∷ rest) =
    started at failures s
    ∷ recovering error now jitter (failures + 1)
    ∷ supervise (now + delay (failures + 1) jitter) (failures + 1)
        (recovering error now jitter (failures + 1)) rest
