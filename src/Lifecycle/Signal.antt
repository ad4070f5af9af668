-- ===== src/Lifecycle/Signal.antt =====
-- `Signal` of src/bybit_flow/models.py with the keys of its evidence and coverage that the
-- lifecycle reads or writes. Prices are positive and counted in one unit of the symbol, which keeps
-- the order of the code's floats; texts that are only compared are numbers.
use bybitflow.Prelude.{
  ℕ, Bool, true, false, ◌&&◌, Option, none, some, List, leb, ◌==◌, if◌then◌else◌,
}
use bybitflow.Prelude.Int.{ℤ}
use bybitflow.Orderflow.Types.{Decimal}

pub data Direction : Type 0 where
  long short : Direction

-- `State`
pub data State : Type 0 where
  watchlist pending_confirmation confirmed alerted invalidated expired resolved : State

pub data HorizonProfile : Type 0 where
  legacy short_intraday core_intraday swing extended_swing : HorizonProfile

pub data Outcome : Type 0 where
  stop target expired_outcome unclear : Outcome

-- The texts written as invalidation and terminal reason; `other` is any text from elsewhere.
pub data Reason : Type 0 where
  planned_stop_crossed planned_target_crossed lifecycle_deadline : Reason
  stop_in_downtime target_in_downtime deadline_in_downtime : Reason
  other : ℕ → Reason

pub data Method : Type 0 where
  live_executed_trade closed_1m_ohlc lifecycle_deadline_method : Method

pub record TerminalEvent : Type 0 where
  pub effective_ms : ℕ
  pub detected_ms : ℕ
  pub event_price : Option ℕ
  pub reference_price : ℕ
  pub source : ℕ
  pub method : Method
  pub ambiguous : Bool

pub data Classification : Type 0 where
  favorable_gross unfavorable_gross flat_gross : Classification
  estimated_profit estimated_loss estimated_flat : Classification

-- A mark at expiry. A quotient is kept as its numerator and denominator.
pub record Mark : Type 0 where
  pub method : Method
  pub mark_price : ℕ
  pub mark_ms : ℕ
  pub deadline_ms : ℕ
  pub observed_entry_ms : ℕ
  pub gross_pct : ℤ × ℕ
  pub gross_r : ℤ × ℕ
  pub estimated_net_r : Option (ℤ × ℕ)
  pub estimated_net_pct : Option (ℤ × ℕ)
  pub classification : Classification
  pub account_fill_verified : Bool

pub record Evidence : Type 0 where
  pub observed_entry_ms : Option ℕ
  pub observed_entry_price : Option ℕ
  pub observed_entry_method : Option Method
  pub observed_entry_source : Option ℕ
  pub observed_entry_trade_id : Option ℕ
  pub latest_observed_price : Option ℕ
  pub tp1_touch_ms : Option ℕ
  pub tp2_touch_ms : Option ℕ
  pub primary_outcome : Option Outcome
  pub terminal_event : Option TerminalEvent
  pub expiry_mark : Option Mark

pub data MonitorStatus : Type 0 where
  monitor_ready source_unavailable feed_stale reconciliation_pending : MonitorStatus
  reconciled_pending_path : MonitorStatus

pub data GapCode : Type 0 where
  coverage_source_reconnect_gap coverage_reconciliation_pending : GapCode

pub record Coverage : Type 0 where
  pub monitor_cursor_event_ms : Option ℕ
  pub monitor_cursor_receipt_ms : Option ℕ
  pub last_checked_trade_id : Option ℕ
  pub last_monitor_ms : Option ℕ
  pub terminal_reason : Option Reason
  -- `monitoring` is "active" or "paused"
  pub active : Bool
  pub monitor_status : Option MonitorStatus
  pub tracking_end : Option Bool
  pub pause_since_ms : Option ℕ
  pub last_trustworthy_ms : Option ℕ
  pub checked_ms : Option ℕ
  pub monitoring_event : Option ℕ
  pub reason_codes : List GapCode

pub record Signal : Type 0 where
  pub id : ℕ
  pub symbol : ℕ
  pub direction : Direction
  pub created_ms : ℕ
  pub expires_ms : ℕ
  pub source : ℕ
  pub horizon_profile : HorizonProfile
  pub trigger_expires_ms : Option ℕ
  pub holding_deadline_ms : Option ℕ
  pub state : State
  pub entry : ℕ
  pub zone : ℕ × ℕ
  pub stop : ℕ
  pub tp1 : ℕ
  pub tp2 : ℕ
  pub invalidation : Reason
  -- `risk["cost_per_base"]`
  pub cost_per_base : Option Decimal
  pub evidence : Evidence
  pub coverage : Coverage

abbrev pub is_alerted : State → Bool
is_alerted alerted = true
is_alerted _ = false

-- `signal.state in TERMINAL`
abbrev pub is_terminal : State → Bool
is_terminal invalidated = true
is_terminal expired = true
is_terminal resolved = true
is_terminal _ = false

abbrev pub is_legacy : HorizonProfile → Bool
is_legacy legacy = true
is_legacy _ = false

-- `value or default` on a number: a missing value and 0 both give the default.
abbrev pub or_else : Option ℕ → ℕ → ℕ
or_else none d = d
or_else (some n) d = if n == 0 then d else n

-- `dict.get(key, default)`
abbrev pub get_or {ℓ} : {A : Type ℓ} → Option A → A → A
get_or none d = d
get_or (some a) d = a

-- `dict.setdefault`
abbrev pub set_default {ℓ} : {A : Type ℓ} → Option A → A → Option A
set_default none a = some a
set_default (some b) a = some b

abbrev pub is_some {ℓ} : {A : Type ℓ} → Option A → Bool
is_some none = false
is_some (some _) = true

-- `signal.trigger_expires_ms or signal.expires_ms`
abbrev pub trigger_deadline : Signal → ℕ
trigger_deadline s = or_else s.trigger_expires_ms s.expires_ms

-- The deadline of the plan as `advance_trades` and `tick` compute it.
abbrev pub deadline : Signal → ℕ
deadline s =
    if is_alerted s.state then or_else s.holding_deadline_ms s.expires_ms else trigger_deadline s

-- `price <= level` for LONG and `price >= level` for SHORT: an adverse level is crossed.
abbrev pub crosses_adverse : Direction → ℕ → ℕ → Bool
crosses_adverse long level price = leb price level
crosses_adverse short level price = leb level price

-- `price >= level` for LONG and `price <= level` for SHORT: a favourable level is reached.
abbrev pub reaches : Direction → ℕ → ℕ → Bool
reaches long level price = leb level price
reaches short level price = leb price level

abbrev pub in_zone : Signal → ℕ → Bool
in_zone s price = leb s.zone.0 price && leb price s.zone.1
