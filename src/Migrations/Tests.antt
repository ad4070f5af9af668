-- ===== src/Migrations/Tests.antt =====
-- The registry of the code with callbacks that count, and a database that it brings up to date.
use bybitflow.Prelude.{ℕ, ◌+◌, ◌*◌, ◌≡◌, refl, none, some, [], arith, if◌then◌else◌, ◌==◌}
use bybitflow.Migrations.Registry.{
  Ran, returned, raised, Database, Applied, apply, registry, run, first_mismatch, applied,
  insert_or_ignore,
}
use bybitflow.Migrations.Laws.{IsRegistry, Outcome}
use bybitflow.Migrations.Outcome.{apply_receipts}
use bybitflow.Migrations.Rerun.{count, apply_again}

-- Each callback adds its id to the contents; that of the tenth raises on odd contents.
abbrev callback : ℕ → ℕ → Ran ℕ
callback i s =
    if i == 10 then (if s == 45 then raised s else returned (s + i)) else returned (s + i)

abbrev checksum : ℕ → ℕ
checksum i = 7 * i

abbrev empty : Database ℕ
empty = record { contents = 0; receipts = []; ran = [] }

abbrev started : Database ℕ
started = record empty { contents = 1 }

-- On an empty database the tenth migration raises, and the first nine have their receipts.
tenth_raises :
    ((apply 5 (registry callback checksum) empty).0 ≡ Applied.raised_at 10)
    × (applied 9 (apply 5 (registry callback checksum) empty).1.receipts ≡ some 63)
    × (applied 10 (apply 5 (registry callback checksum) empty).1.receipts ≡ none)
unfolding apply run first_mismatch applied insert_or_ignore
tenth_raises = (refl, refl, refl)

abbrev current : Database ℕ
current = (apply 5 (registry callback checksum) started).1

registry-IsRegistry : IsRegistry (registry callback checksum)
registry-IsRegistry = omega arith

apply_receipts_example :
    Outcome (registry callback checksum) empty (apply 5 (registry callback checksum) empty)
apply_receipts_example = apply_receipts 5 (registry callback checksum) empty registry-IsRegistry

apply_again_example :
    (first_mismatch (registry callback checksum) current.receipts ≡ none)
    × ((apply 9 (registry callback checksum) current).1.receipts ≡ current.receipts)
    × (count 11 (apply 9 (registry callback checksum) current).1.ran ≡ count 11 current.ran)
unfolding apply run first_mismatch applied insert_or_ignore
apply_again_example =
    apply_again 9 11 (registry callback checksum) current (ground arith) (ground arith)
