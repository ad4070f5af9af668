-- ===== src/Leases/Table.antt =====
-- The table storage_leases and every operation of leases.py on it. Clock readings are arguments.
-- Lease ids and owners are texts that the code only compares, so they are numbers here.
use bybitflow.Prelude.{
  ℕ, ◌+◌, Bool, true, false, not, ◌&&◌, ◌||◌, Option, none, some, List, [], ◌∷◌, ltb, leb, ◌==◌,
  if◌then◌else◌, any, select, max,
}

-- The reason column. `metadata` is what heartbeat writes; `opaque` is any text of an older row
-- that does not parse to a JSON object, which the code reads as {}.
pub record Metadata : Type 0 where
  pub owner : ℕ
  pub reason : ℕ
  pub heartbeat_ms : ℕ
  pub cursor_ms : ℕ
  pub exclusive : Bool

pub data Reason : Type 0 where
  metadata : Metadata → Reason
  opaque : ℕ → Reason

pub record Row : Type 0 where
  pub id : ℕ
  pub start_ms : ℕ
  pub end_ms : ℕ
  pub expires_ms : ℕ
  pub reason : Reason

abbrev pub ttl_ms : ℕ
ttl_ms = 180000

abbrev pub beat_ms : ℕ
beat_ms = 30000

-- `other.get("exclusive")` after the guarded json.loads.
abbrev pub is_exclusive : Reason → Bool
is_exclusive (metadata m) = m.exclusive
is_exclusive (opaque _) = false

-- The WHERE clause: expires_ms > at AND start_ms <= last AND end_ms >= first AND id != own.
abbrev pub matches : ℕ → ℕ → ℕ → ℕ → Row → Bool
matches at first last own r =
    ltb at r.expires_ms && (leb r.start_ms last && (leb first r.end_ms && not (r.id == own)))

-- `overlaps`. Without `exclude` the code compares with the empty text, which is no lease's id.
unfoldable pub overlaps : List Row → ℕ → ℕ → ℕ → Option ℕ → Bool
overlaps db first last at (some own) = any (matches at first last own) db
overlaps db first last at none =
    any (λ r. ltb at r.expires_ms && (leb r.start_ms last && leb first r.end_ms)) db

-- A RangeLease object.
pub record RangeLease : Type 0 where
  pub id : ℕ
  pub first : ℕ
  pub last : ℕ
  pub reason : ℕ
  pub exclusive : Bool
  pub last_beat : ℕ

abbrev pub without : ℕ → List Row → List Row
without own = select (λ r. not (r.id == own))

-- INSERT OR REPLACE by primary key.
unfoldable pub insert_or_replace : Row → List Row → List Row
insert_or_replace r db = r ∷ without r.id db

-- What a heartbeat did: nothing was due, BlockingIOError was raised, or the row was written.
pub data Beat : Type 0 where
  idle blocked beaten : Beat

abbrev pub proposed : RangeLease → Option ℕ → ℕ
proposed l none = l.first
proposed l (some s) = max l.first s

-- The loop over the overlapping rows: one conflicting row raises.
unfoldable pub conflicts : Bool → ℕ → ℕ → ℕ → ℕ → List Row → Bool
conflicts exclusive now first last own db =
    any (λ r. exclusive || is_exclusive r.reason) (select (matches now first last own) db)

abbrev pub written : RangeLease → ℕ → ℕ → ℕ → Row
written l owner now first = record {
  id = l.id;
  start_ms = first;
  end_ms = l.last;
  expires_ms = now + ttl_ms;
  reason = metadata (record {
    owner = owner;
    reason = l.reason;
    heartbeat_ms = now;
    cursor_ms = first;
    exclusive = l.exclusive;
  });
}

-- `RangeLease.heartbeat(start, force)` at clock reading `now` in process `owner`. The rollback
-- restores the table, and a raise leaves the object as it was.
unfoldable pub heartbeat :
    ℕ → ℕ → Option ℕ → Bool → RangeLease → List Row → Beat × RangeLease × List Row
heartbeat now owner start force l db =
    if not force && ltb now (l.last_beat + beat_ms)
    then (idle, l, db)
    else if conflicts l.exclusive now (proposed l start) l.last l.id db
    then (blocked, l, db)
    else (
      beaten,
      record l { first = proposed l start; last_beat = now },
      insert_or_replace (written l owner now (proposed l start)) db,
    )

-- `__enter__` and `__exit__`.
unfoldable pub enter : ℕ → ℕ → RangeLease → List Row → Beat × RangeLease × List Row
enter now owner l db = heartbeat now owner none true l db

unfoldable pub leave : RangeLease → List Row → List Row
leave l db = without l.id db

-- `status`: the rows that are live and those that are stale.
unfoldable pub status : ℕ → List Row → List Row × List Row
status now db = (select (λ r. ltb now r.expires_ms) db, select (λ r. leb r.expires_ms now) db)

-- The kv table as far as `reap` writes it: INSERT OR IGNORE under "expired_lease:" + id.
abbrev pub archived : ℕ → List Row → Bool
archived own kv = any (λ r. r.id == own) kv

unfoldable pub insert_or_ignore : Row → List Row → List Row
insert_or_ignore r kv = if archived r.id kv then kv else r ∷ kv

unfoldable pub archive : List Row → List Row → List Row
archive [] kv = kv
archive (r ∷ rs) kv = archive rs (insert_or_ignore r kv)

-- `reap`: archive the expired rows, then delete them, in one transaction.
unfoldable pub reap : ℕ → List Row → List Row → List Row × List Row
reap now kv db =
    (archive (select (λ r. leb r.expires_ms now) db) kv, select (λ r. ltb now r.expires_ms) db)
