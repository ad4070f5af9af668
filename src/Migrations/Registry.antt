-- ===== src/Migrations/Registry.antt =====
-- `Migration`, `registry` and `apply`. What a callback does to the rest of the database is an
-- argument: it returns or raises, and either way leaves some contents, since a script of several
-- statements commits on its own.
use bybitflow.Prelude.{
  ℕ, Bool, true, false, not, ◌&&◌, Option, none, some, List, [], ◌∷◌, ◌==◌, if◌then◌else◌,
}

pub data Target : Type 0 where
  store db backup : Target

pub data Ran (S : Type 0) : Type 0 where
  returned raised : S → Ran S

pub record Migration (S : Type 0) : Type 0 where
  pub id : ℕ
  pub name : ℕ
  pub callback : S → Ran S
  pub target : Target
  pub repeatable : Bool
  pub checksum : ℕ

-- A row of migration_registry.
pub record Receipt : Type 0 where
  pub id : ℕ
  pub name : ℕ
  pub checksum : ℕ
  pub applied_ms : ℕ
  pub repeatable : Bool

-- `applied`: the checksum of a receipt by the id of its migration, which is the primary key.
unfoldable pub applied : ℕ → List Receipt → Option ℕ
applied id [] = none
applied id (r ∷ rs) = if r.id == id then some r.checksum else applied id rs

-- INSERT OR IGNORE by primary key.
unfoldable pub insert_or_ignore : Receipt → List Receipt → List Receipt
insert_or_ignore r rs = elim (applied r.id rs) [ none ↦ r ∷ rs | some c ↦ rs ]

abbrev pub differs : Option ℕ → ℕ → Bool
differs none c = false
differs (some old) c = not (old == c)

abbrev pub is_applied : Option ℕ → Bool
is_applied none = false
is_applied (some c) = true

-- How `apply` ends.
pub data Applied : Type 0 where
  mismatch raised_at : ℕ → Applied
  done : Applied

-- The database, with the ids of the migrations whose callbacks have run, the latest first.
pub record Database (S : Type 0) : Type 0 where
  pub contents : S
  pub receipts : List Receipt
  pub ran : List ℕ

module _ {S : Type 0} where
  -- The first loop of `apply`.
  unfoldable pub first_mismatch : List (Migration S) → List Receipt → Option ℕ
  first_mismatch [] rs = none
  first_mismatch (m ∷ ms) rs =
      if differs (applied m.id rs) m.checksum then some m.id else first_mismatch ms rs

  abbrev pub receipt_of : Migration S → ℕ → Receipt
  receipt_of m now = record {
    id = m.id;
    name = m.name;
    checksum = m.checksum;
    applied_ms = now;
    repeatable = m.repeatable;
  }

  -- `step.id in applied and not step.repeatable`, with the receipts from before the loop.
  abbrev pub is_skipped : Migration S → List Receipt → Bool
  is_skipped m before = is_applied (applied m.id before) && not m.repeatable

  -- The second loop of `apply`; `before` holds the receipts that were read at the start.
  unfoldable pub run : ℕ → List Receipt → List (Migration S) → Database S → Applied × Database S
  run now before [] d = (done, d)
  run now before (m ∷ ms) d = elim (is_skipped m before) [
    | true ↦ run now before ms d
    | false ↦ elim (m.callback d.contents) [
      | raised s ↦ (raised_at m.id, record d { contents = s; ran = m.id ∷ d.ran })
      | returned s ↦ run now before ms (record {
        contents = s;
        receipts = insert_or_ignore (receipt_of m now) d.receipts;
        ran = m.id ∷ d.ran;
      })
    ]
  ]

  -- `apply(store)` with the clock at `now` and the registry `steps`.
  unfoldable pub apply : ℕ → List (Migration S) → Database S → Applied × Database S
  apply now steps d = elim (first_mismatch steps d.receipts) [
    | some id ↦ (mismatch id, d)
    | none ↦ run now d.receipts steps d
  ]

  -- `registry()`: names are numbered like the ids, and the callbacks and checksums are arguments.
  abbrev pub registry : (ℕ → S → Ran S) → (ℕ → ℕ) → List (Migration S)
  registry callbacks checksums =
      step 1 store true
      ∷ step 2 db true
      ∷ step 3 store true
      ∷ step 4 store true
      ∷ step 5 backup true
      ∷ step 6 store true
      ∷ step 7 store true
      ∷ step 8 store true
      ∷ step 9 store false
      ∷ step 10 store false
      ∷ step 11 store false
      ∷ step 12 store false
      ∷ []
    where
      step : ℕ → Target → Bool → Migration S
      step i target repeatable = record {
        id = i;
        name = i;
        callback = callbacks i;
        target = target;
        repeatable = repeatable;
        checksum = checksums i;
      }
