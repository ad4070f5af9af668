-- ===== src/Notifications/NestedTests.antt =====
-- A counter-plan that may stand beside a visible plan.
use bybitflow.Prelude.{◌==◌, ◌≡◌, refl, true, false, none, some, [], ◌∷◌, Memᴰ, if◌then◌else◌}
use bybitflow.Lifecycle.Signal.{short_intraday, core_intraday}
use bybitflow.Notifications.Keys
use bybitflow.Notifications.Visibility
use bybitflow.Notifications.Visibility.{Plan, View, opposes, initial_delivery_block}
use bybitflow.Notifications.Conflicts
use bybitflow.Notifications.Conflicts.{Proof, Side, Settings, assess, is_allowed}
use bybitflow.Notifications.Clear.{Current}
use bybitflow.Notifications.Nested.{IsNested, unblocked-IsNested}
use bybitflow.Notifications.Tests.{contested}

abbrev now_proof : Proof
now_proof = record {
  available_ms = some 39900;
  source = none;
  symbol = some 5;
  latest = 39800 ∷ [];
}

abbrev original : Side
original = record {
  source = 0;
  symbol = 5;
  horizon_profile = some core_intraday;
  setup_timeframe = some 60;
  expires_ms = 90000;
  holding_deadline_ms = 0;
  entry = some 100;
  stop = some 120;
  tp1 = some 80;
  tp2 = some 70;
  zone = some 99 ∷ some 101 ∷ [];
  is_monitored = true;
  last_monitor_ms = some 39990;
  is_stable = true;
  health_available_ms = some 39000;
  structure = record { proof = now_proof; event_id = some 1; frozen_reference = some 101 };
  counter_move = record {
    confirmation = now_proof;
    passed = true;
    structure_support = true;
    participation_support = true;
    strong_flow = true;
    quality = now_proof;
    flow_trust_score = some 80;
    response = now_proof;
    coverage_complete = true;
    contradicted_false = true;
    is_impact = true;
    entry = now_proof;
    acceptable = true;
    quote_fresh = true;
    has_gates = false;
  };
}

abbrev counter : Side
counter = record original {
  horizon_profile = some short_intraday;
  setup_timeframe = some 15;
  stop = some 95;
  tp1 = some 110;
  tp2 = some 115;
  structure = record { proof = now_proof; event_id = some 2; frozen_reference = some 97 };
}

abbrev limits : Settings
limits = record { trade_stale_ms = 5000; book_stale_ms = 2000 }

abbrev detail : Plan → Side
detail p = if p.id == 1 then counter else original

unblocked-IsNested_example :
    (p : Plan) × (Current contested 1 none p
      × ((q : Plan)
          → Memᴰ q contested.signals
          → opposes contested p q ≡ true
          → IsNested limits 40000 (detail p) (detail q)))
unfolding initial_delivery_block Visibility.current_block Visibility.window_block Visibility.opposed
    Visibility.opposing_visible_setup Visibility.opposing_among opposes Visibility.stored
    Visibility.was_initially_delivered Visibility.is_delivered Visibility.webhook_of
    Visibility.destination_matches Visibility.same_webhook Visibility.same_direction Keys.row_of
    Keys.is_sent assess is_allowed Conflicts.nested_profiles Conflicts.is_fresh_and_stable
    Conflicts.has_distinct_structure Conflicts.stays_inside Conflicts.is_confirmed Conflicts.causal
    Conflicts.is_recent Conflicts.hold_max Conflicts.setup_of Conflicts.is_legacy
    Conflicts.is_option
unblocked-IsNested_example = unblocked-IsNested limits detail contested 1 none refl
