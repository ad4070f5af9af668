-- ===== src/Signals/Tests.antt =====
-- A table with a running plan and an ended one.
use bybitflow.Prelude.{◌≡◌, refl, true, false, some, [], ◌∷◌, arith}
use bybitflow.Lifecycle.Signal.{alerted, resolved, confirmed}
use bybitflow.Signals.Merge.{lookup, assign, merge_coverage, merge_coverage_cut}
use bybitflow.Signals.Table.{
  Payload, Tables, Saved, already_ended, save, save_found, save_old, find, monitor,
}
use bybitflow.Signals.Terminal.{IsEnded, save_keeps}
use bybitflow.Signals.Freeze.{preserve, preserve-IsPreserving}

abbrev running : Payload
running = record {
  id = 1;
  created_ms = 10;
  state = alerted;
  synthetic = false;
  from_tradingview = false;
  horizon_profile = 2;
  evidence = [];
  coverage = (0, 50) ∷ (2, 45) ∷ [];
}

abbrev won : Payload
won = record running { id = 2; state = resolved }

abbrev tables : Tables
tables = record {
  signals = running ∷ won ∷ [];
  transitions = [];
  terminal_events = record { signal_id = 2; terminal_state = resolved; is_pending = true } ∷ [];
  horizon_counts = (2, 2) ∷ [];
}

-- Every stored plan counts as published, and the evidence 8 is frozen.
abbrev keep : Payload → Payload → Payload
keep = preserve (λ p. false) (λ p. true) [] [] (8 ∷ [])

-- A late evaluation of the ended plan is not written.
late_refused :
    (save keep (λ i. true) 90 7 (record won { state = confirmed }) tables).0 ≡ already_ended
unfolding save save_found save_old find
late_refused = refl

tables-IsEnded : IsEnded tables
unfolding find bybitflow.Signals.Table.has_event
tables-IsEnded = record { event = λ id p f e. ground arith }

save_keeps_example :
    find 2 (save keep (λ i. true) 90 7 (record won { state = confirmed }) tables).1.signals
    ≡ some won
unfolding find
save_keeps_example =
    save_keeps keep (λ i. true) 90 7 (preserve-IsPreserving (λ p. false) (λ p. true) [] [] (8 ∷ []))
      2 won refl (record won { state = confirmed }) tables refl

-- The saved cursor of 45 stands after last_monitor_ms and is lost to the older one of 30.
cursor_lost :
    merge_coverage 50 ((0, 50) ∷ (2, 45) ∷ []) ((0, 40) ∷ (2, 30) ∷ []) ≡ (0, 50) ∷ (2, 30) ∷ []
unfolding merge_coverage lookup assign
cursor_lost = refl

merge_coverage_cut_example :
    lookup 2 (merge_coverage 50 ((0, 50) ∷ (2, 45) ∷ []) ((0, 40) ∷ (2, 30) ∷ []))
    ≡ lookup 2 ((0, 40) ∷ (2, 30) ∷ [])
unfolding lookup
merge_coverage_cut_example =
    merge_coverage_cut 50 2 [] ((2, 45) ∷ []) ((0, 40) ∷ (2, 30) ∷ []) tt tt (omega arith)
      (omega arith)
