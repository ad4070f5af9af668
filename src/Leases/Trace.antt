-- ===== src/Leases/Trace.antt =====
-- The lease table under any interleaving of processes and any advance of the clock.
use bybitflow.Prelude.{ℕ, ◌+◌, Bool, Option, List, arith, ltb, not, ◌==◌}
use bybitflow.Leases.Table.{Row, RangeLease, heartbeat, leave, reap}
use bybitflow.Leases.Exclusion.{
  IsExclusive, IsExclusive-later, heartbeat-IsExclusive, select-IsExclusive,
}

-- The clock and the two tables that the processes share.
pub record Shared : Type 0 where
  pub now : ℕ
  pub kv : List Row
  pub db : List Row

-- A process may beat any lease object at any time, leave it, or reap; and time passes.
pub data Step (s : Shared) : Shared → Type 0 where
  tick : (n : ℕ) → Step s (record s { now = s.now + n })
  beat :
      (owner : ℕ) (start : Option ℕ) (force : Bool) (l : RangeLease)
      → Step s (record s { db = (heartbeat s.now owner start force l s.db).2 })
  exit : (l : RangeLease) → Step s (record s { db = leave l s.db })
  clean : Step s (record s { kv = (reap s.now s.kv s.db).0; db = (reap s.now s.kv s.db).1 })

pub data Reach (s : Shared) : Shared → Type 0 where
  begin : Reach s s
  next : {t u : Shared} → Reach s t → Step t u → Reach s u

Step-IsExclusive : (s t : Shared) → Step s t → IsExclusive s.now s.db → IsExclusive t.now t.db
unfolding leave reap
Step-IsExclusive s _ (tick n) v = IsExclusive-later s.now (s.now + n) s.db (omega arith) v
Step-IsExclusive s _ (beat owner start force l) v =
    heartbeat-IsExclusive s.now owner start force l s.db v
Step-IsExclusive s _ (exit l) v = select-IsExclusive s.now (λ r. not (r.id == l.id)) s.db v
Step-IsExclusive s _ clean v = select-IsExclusive s.now (λ r. ltb s.now r.expires_ms) s.db v

-- From a table that is exclusive, whatever the processes do and in whatever order, the table stays
-- exclusive: no two rows have one id, and of two live rows that share a point neither is exclusive.
pub Reach-IsExclusive : (s t : Shared) → IsExclusive s.now s.db → Reach s t → IsExclusive t.now t.db
Reach-IsExclusive s _ v begin = v
Reach-IsExclusive s _ v (next {t = m} {u = w} r st) =
    Step-IsExclusive m w st (Reach-IsExclusive s m v r)
