-- ===== src/Notifications/Conflicts.antt =====
-- `assess` of src/bybit_flow/notification_conflicts.py: when the message of a plan may stand beside
-- a visible plan of the opposite direction. Timeframes are in minutes, `flow_trust_score` in
-- hundredths; a value that is missing or no number of the kind asked for is none.
use bybitflow.Prelude.{
  ℕ, ◌+◌, max, min, Bool, true, false, not, ◌&&◌, Option, none, some, List, [], ◌∷◌, ◌++◌, ◌==◌,
  leb, ltb, if◌then◌else◌, all,
}
use bybitflow.Lifecycle.Signal.{
  HorizonProfile, legacy, short_intraday, core_intraday, swing, extended_swing,
}
use bybitflow.Notifications.Visibility.{or_else}

-- What `causal` reads of a row of evidence; `latest` are those of source_ms, window_end_ms and
-- end_ms that are numbers.
pub record Proof : Type 0 where
  pub available_ms : Option ℕ
  pub source : Option ℕ
  pub symbol : Option ℕ
  pub latest : List ℕ

pub record Structure : Type 0 where
  pub proof : Proof
  pub event_id : Option ℕ
  pub frozen_reference : Option ℕ

-- `metrics` says that the flow is strong, `is_impact` that the state is one of the two named ones.
pub record CounterMove : Type 0 where
  pub confirmation : Proof
  pub passed : Bool
  pub structure_support : Bool
  pub participation_support : Bool
  pub strong_flow : Bool
  pub quality : Proof
  pub flow_trust_score : Option ℕ
  pub response : Proof
  pub coverage_complete : Bool
  pub contradicted_false : Bool
  pub is_impact : Bool
  pub entry : Proof
  pub acceptable : Bool
  pub quote_fresh : Bool
  pub has_gates : Bool

pub record Side : Type 0 where
  pub source : ℕ
  pub symbol : ℕ
  pub horizon_profile : Option HorizonProfile
  pub setup_timeframe : Option ℕ
  pub expires_ms : ℕ
  pub holding_deadline_ms : ℕ
  pub entry : Option ℕ
  pub stop : Option ℕ
  pub tp1 : Option ℕ
  pub tp2 : Option ℕ
  pub zone : List (Option ℕ)
  pub is_monitored : Bool
  pub last_monitor_ms : Option ℕ
  pub is_stable : Bool
  pub health_available_ms : Option ℕ
  pub structure : Structure
  pub counter_move : CounterMove

pub record Settings : Type 0 where
  pub trade_stale_ms : ℕ
  pub book_stale_ms : ℕ

abbrev pub equal_or_missing : Option ℕ → ℕ → Bool
equal_or_missing none b = true
equal_or_missing (some a) b = a == b

-- `number(at) and 0 <= now - at` and, with a limit, `now - at <= ttl`.
unfoldable pub is_recent : ℕ → Option ℕ → Option ℕ → Bool
is_recent now limit none = false
is_recent now none (some at) = leb at now
is_recent now (some ttl) (some at) = leb at now && leb now (at + ttl)

-- `causal`
unfoldable pub causal : Proof → Side → ℕ → Option ℕ → Bool
causal r s now limit =
    (equal_or_missing r.source s.source && equal_or_missing r.symbol s.symbol)
    && (is_recent now limit r.available_ms && all (λ t. leb t now) r.latest)

-- `hold_max` in minutes, and `setup`, of PROFILES.
unfoldable pub hold_max : HorizonProfile → ℕ
hold_max legacy = 240
hold_max short_intraday = 120
hold_max core_intraday = 240
hold_max swing = 2880
hold_max extended_swing = 10080

unfoldable pub setup_of : HorizonProfile → ℕ
setup_of legacy = 60
setup_of short_intraday = 15
setup_of core_intraday = 60
setup_of swing = 240
setup_of extended_swing = 240

unfoldable pub is_legacy : HorizonProfile → Bool
is_legacy legacy = true
is_legacy short_intraday = false
is_legacy core_intraday = false
is_legacy swing = false
is_legacy extended_swing = false

unfoldable pub is_option : Option ℕ → ℕ → Bool
is_option none b = false
is_option (some a) b = a == b

abbrev pub end_of : Side → ℕ
end_of s = or_else s.holding_deadline_ms s.expires_ms

unfoldable pub nested_profiles : Side → Side → Option HorizonProfile → Option HorizonProfile → Bool
nested_profiles p o (some new) (some old) =
    ((not (is_legacy new) && not (is_legacy old)) && ltb (hold_max new) (hold_max old))
    && ((is_option p.setup_timeframe (setup_of new) && is_option o.setup_timeframe (setup_of old))
        && (ltb (setup_of new) (setup_of old) && leb (end_of p) (end_of o)))
nested_profiles p o (some new) none = false
nested_profiles p o none old = false

unfoldable pub is_fresh_and_stable : Settings → ℕ → Side → Bool
is_fresh_and_stable c now o =
    (o.is_monitored && is_recent now (some c.trade_stale_ms) o.last_monitor_ms)
    && (o.is_stable && is_recent now (some 120000) o.health_available_ms)

abbrev pub differ : Option ℕ → Option ℕ → Bool
differ (some a) (some b) = not (a == b)
differ (some a) none = false
differ none b = false

unfoldable pub has_distinct_structure : ℕ → Side → Side → Bool
has_distinct_structure now p o =
    (causal p.structure.proof p now none && causal o.structure.proof o now none)
    && (differ p.structure.event_id o.structure.event_id
        && differ p.structure.frozen_reference o.structure.frozen_reference)

abbrev pub is_between : ℕ → ℕ → Option ℕ → Bool
is_between a b none = false
is_between a b (some x) = ltb (min a b) x && ltb x (max a b)

abbrev pub levels : Side → List (Option ℕ)
levels p = p.entry ∷ p.stop ∷ p.tp1 ∷ p.tp2 ∷ p.zone

unfoldable pub stays_inside : List (Option ℕ) → Option ℕ → Option ℕ → Bool
stays_inside xs (some a) (some b) = all (is_between a b) xs
stays_inside xs (some a) none = false
stays_inside xs none b = false

abbrev pub is_trusted : Option ℕ → Bool
is_trusted none = false
is_trusted (some score) = leb 60 score

unfoldable pub is_confirmed : Settings → ℕ → Side → CounterMove → Bool
is_confirmed c now p m =
    ((causal m.confirmation p now (some c.book_stale_ms) && (m.passed && m.structure_support))
      && ((m.participation_support && m.strong_flow)
          && (causal m.quality p now (some c.book_stale_ms) && is_trusted m.flow_trust_score)))
    && (((causal m.response p now (some c.book_stale_ms) && m.coverage_complete)
          && (m.contradicted_false && m.is_impact))
        && ((causal m.entry p now (some c.book_stale_ms) && m.acceptable)
            && (m.quote_fresh && not m.has_gates)))

pub data Failure : Type 0 where
  no_nested_shorter_horizon venue_price_basis_mismatch : Failure
  original_plan_not_fresh_and_stable no_distinct_frozen_structure : Failure
  counter_plan_crosses_level no_confirmed_counter_move : Failure

abbrev pub unless : Bool → Failure → List Failure
unless ok f = if ok then [] else f ∷ []

-- The reasons of `assess`, for a plan against the visible original.
unfoldable pub assess : Settings → ℕ → Side → Side → List Failure
assess c now p o =
    unless (nested_profiles p o p.horizon_profile o.horizon_profile) no_nested_shorter_horizon
    ++ (unless (p.source == o.source) venue_price_basis_mismatch
        ++ (unless (is_fresh_and_stable c now o) original_plan_not_fresh_and_stable
            ++ (unless (has_distinct_structure now p o) no_distinct_frozen_structure
                ++ (unless (stays_inside (levels p) o.stop o.tp1) counter_plan_crosses_level
                    ++ unless (is_confirmed c now p p.counter_move) no_confirmed_counter_move))))

unfoldable pub is_allowed : List Failure → Bool
is_allowed [] = true
is_allowed (f ∷ fs) = false
