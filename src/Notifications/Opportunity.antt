-- ===== src/Notifications/Opportunity.antt =====
-- `relationship` and `same_v22_execution_event` of src/bybit_flow/identity.py. Prices are positive
-- and counted in one unit of the symbol, the quality in hundredths; `rounded` is the quotient of a
-- price and the tick of a plan, rounded half up.
use bybitflow.Prelude.{
  ℕ, ◌+◌, ◌-◌, ◌*◌, max, min, Bool, true, false, not, ◌&&◌, ◌||◌, Option, none, some, ◌==◌, leb,
  ltb, if◌then◌else◌,
}
use bybitflow.Lifecycle.Signal.{State, Direction}
use bybitflow.Notifications.Visibility.{same_direction, or_else}

-- `is_v22` is `production_policies.trade_quality == "trade-validity-v22"`. A holding deadline that
-- is missing is 0, which Python takes as false like None.
pub record Opportunity : Type 0 where
  pub id : ℕ
  pub source : ℕ
  pub symbol : ℕ
  pub direction : Direction
  pub horizon_profile : ℕ
  pub state : State
  pub is_v22 : Bool
  pub score_profile : Option ℕ
  pub quality : ℕ
  pub entry : ℕ
  pub zone : ℕ × ℕ
  pub stop : ℕ
  pub tp1 : ℕ
  pub created_ms : ℕ
  pub expires_ms : ℕ
  pub holding_deadline_ms : ℕ
  pub event_start_ms : Option ℕ
  pub trigger_bar_end : Option ℕ

pub data Relationship : Type 0 where
  materially_different_plan conflicting_horizon stronger_replacement : Relationship
  confirming_horizon : Relationship

abbrev pub distance : ℕ → ℕ → ℕ
distance a b = (a - b) + (b - a)

abbrev pub same_option : Option ℕ → Option ℕ → Bool
same_option none none = true
same_option none (some b) = false
same_option (some a) none = false
same_option (some a) (some b) = a == b

abbrev pub ends_ms : Opportunity → ℕ
ends_ms o = or_else o.holding_deadline_ms o.expires_ms

abbrev pub risk : Opportunity → Opportunity → ℕ
risk a b = max (distance a.entry a.stop) (distance b.entry b.stop)

-- `not (overlap or entries within 0.25 risk) or stops further than 0.25 risk`. A risk of 0 stands
-- for the code's 1e-12, which no two prices that differ are within.
unfoldable pub is_far : Opportunity → Opportunity → Bool
is_far a b =
    not (
      leb (max a.zone.0 b.zone.0) (min a.zone.1 b.zone.1)
      || leb (4 * distance a.entry b.entry) (risk a b))
    || ltb (risk a b) (4 * distance a.stop b.stop)

unfoldable pub same_rubric : Opportunity → Opportunity → Bool
same_rubric a b = not (a.is_v22 || b.is_v22) || same_option a.score_profile b.score_profile

unfoldable pub relationship : Opportunity → Opportunity → Relationship
relationship a b =
    if not (a.source == b.source) || not (a.symbol == b.symbol)
    then materially_different_plan
    else if ltb (min (ends_ms a) (ends_ms b)) (max a.created_ms b.created_ms)
    then materially_different_plan
    else if not (same_direction a.direction b.direction)
    then conflicting_horizon
    else if is_far a b
    then materially_different_plan
    else if same_rubric a b && leb (b.quality + 500) a.quality
    then stronger_replacement
    else confirming_horizon

abbrev pub is_known : Option ℕ → Bool
is_known none = false
is_known (some a) = true

module _ (rounded : Opportunity → ℕ → ℕ) where
  unfoldable pub same_v22_execution_event : Opportunity → Opportunity → Bool
  same_v22_execution_event a b =
      a.is_v22
      && (((a.source == b.source)
            && ((a.symbol == b.symbol)
                && (same_direction a.direction b.direction
                    && (a.horizon_profile == b.horizon_profile))))
          && (((is_known a.event_start_ms && same_option a.event_start_ms b.event_start_ms)
                || (is_known a.trigger_bar_end && same_option a.trigger_bar_end b.trigger_bar_end))
              && ((rounded a a.entry == rounded a b.entry)
                  && ((rounded a a.stop == rounded a b.stop)
                      && (rounded a a.tp1 == rounded a b.tp1)))))
