-- ===== src/Leases/Tests.antt =====
-- The lease theorems at concrete tables.
use bybitflow.Prelude.{◌≡◌, refl, true, none, [], ◌∷◌, arith}
use bybitflow.Leases.Table.{
  Row, RangeLease, blocked, beaten, opaque, heartbeat, enter, reap, archived, overlaps,
}
use bybitflow.Leases.Exclusion.{IsExclusive}
use bybitflow.Leases.Reaping.{overlaps-reap}
use bybitflow.Leases.Trace.{Shared, begin, next, beat, tick, Reach-IsExclusive}

abbrev reader : Row
reader = record { id = 7; start_ms = 100; end_ms = 900; expires_ms = 5000; reason = opaque 0 }

abbrev stale : Row
stale = record { id = 8; start_ms = 100; end_ms = 900; expires_ms = 20; reason = opaque 0 }

abbrev cleanup : RangeLease
cleanup = record { id = 9; first = 500; last = 600; reason = 1; exclusive = true; last_beat = 0 }

abbrev quiet : Shared
quiet = record { now = 6000; kv = []; db = reader ∷ [] }

expired_reader_admits : (enter 6000 1 cleanup (reader ∷ [])).0 ≡ beaten
unfolding enter heartbeat bybitflow.Leases.Table.conflicts
expired_reader_admits = refl

overlaps-reap_example :
    overlaps (reap 1000 [] (stale ∷ reader ∷ [])).1 500 600 2000 none
    ≡ overlaps (stale ∷ reader ∷ []) 500 600 2000 none
overlaps-reap_example = overlaps-reap 1000 2000 500 600 none [] (stale ∷ reader ∷ []) (omega arith)

Reach-IsExclusive_example : IsExclusive 6005 (heartbeat 6000 1 none true cleanup (reader ∷ [])).2
Reach-IsExclusive_example =
    Reach-IsExclusive quiet _ (tt, tt) (next (next begin (beat 1 none true cleanup)) (tick 5))
