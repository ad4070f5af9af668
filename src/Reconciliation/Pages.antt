-- ===== src/Reconciliation/Pages.antt =====
-- What `reconcile` keeps of a page, and what it writes.
use bybitflow.Prelude.{ℕ, Bool, Option, List}
use bybitflow.Lifecycle.Signal.{Signal, Reason}
use bybitflow.Reconciliation.Bars.{Candle}
use bybitflow.Reconciliation.Advance.{Result}

pub data Status : Type 0 where
  reconciled catching_up_lifecycle : Status

-- The result of a page; `failed` if the request or the reading raised.
pub data Attempt : Type 0 where
  failed : Attempt
  read : Result → Attempt

-- The dict stored under "reconciliation:" and the id of the plan.
pub record Saved : Type 0 where
  pub cursor_ms : Option ℕ
  pub detected_ms : Option ℕ
  pub last_attempt_ms : Option ℕ
  pub status : Option Status
  pub attempt : Option Attempt

-- The note with which a plan is stored.
pub data Note : Type 0 where
  gap_covered still_pending : Note
  because : Reason → Note

pub data Effect : Type 0 where
  signal_stored : Signal → Note → Effect
  progress_stored : Saved → Effect
  candles_stored : ℕ → List Candle → Effect
  research_sent : Signal → Effect

-- What one call makes of the plan; `pending` is whether its id is still in `reconcile_pending`,
-- `page` what it keeps under "reconciliation" in the coverage.
pub record Reconciled : Type 0 where
  pub resumed : Bool
  pub signal : Signal
  pub saved : Saved
  pub pending : Bool
  pub page : Option Saved
  pub effects : List Effect
