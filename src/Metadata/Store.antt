-- ===== src/Metadata/Store.antt =====
-- src/bybit_flow/storage.py: `Store.get` and `Store.put` on a store that has a writer.
use bybitflow.Prelude.{ℕ, zero, suc, ◌+◌, Bool, Option, none, some, ◌==◌, if◌then◌else◌}
use bybitflow.Metadata.Keys.{Key, other, same, diagnostic_key}
use bybitflow.Metadata.Dict.{lookup, assign}
use bybitflow.Metadata.Writer.{
  Value, Writer, Write, written, locked, write_failed, corrupt, critical, nothing_to_evict, offered,
  offer,
}

-- `Store.get(key)`, with `none` for the default.
abbrev pub shown_or : Option Value → Option ℕ → Option ℕ
shown_or none row = row
shown_or (some v) row = some v.1

abbrev pub get : Key → Writer → Option ℕ
get k w = shown_or (lookup k w.overlay) (lookup k w.kv)

-- The key "bybitflow_v2_cutover".
abbrev pub cutover : Key
cutover = record { space = other; name = 0 }

-- How `Store.put` ends: it returns, or it raises.
pub data Stored : Type 0 where
  acknowledged immutable unacknowledged : Stored

-- The loop over the attempts: `left` are still to come after this one, and `db` is what the
-- database does at each of them.
unfoldable pub write_row : Bool → (ℕ → Write) → ℕ → Key → ℕ → Writer → Stored × Writer
write_row runtime db zero k p w = elim (db zero) [
  | written ↦ (acknowledged, record w { kv = assign k p w.kv })
  | _ ↦ (unacknowledged, w)
]
write_row runtime db (suc left) k p w =
    let retry = write_row runtime db left k p (record w { retries = w.retries + 1 }) in
    elim (db (suc left)) [
      | written ↦ (acknowledged, record w { kv = assign k p w.kv })
      | locked ↦ if runtime then (unacknowledged, w) else retry
      | write_failed ↦ (unacknowledged, w)
      | corrupt ↦ (unacknowledged, w)
    ]

-- `Store.put(key, value)` on a store that has a writer.
unfoldable pub put_row : Bool → (ℕ → Write) → Key → ℕ → Writer → Stored × Writer
put_row runtime db k p w =
    if diagnostic_key k
    then elim (offer k p w) [
      | critical ↦ (unacknowledged, w)
      | nothing_to_evict ↦ (unacknowledged, w)
      | offered x ↦ (acknowledged, x)
    ]
    else write_row runtime db 3 k p w

abbrev pub settled_row : Option ℕ → ℕ → Writer → Stored × Writer → Stored × Writer
settled_row none p w next = next
settled_row (some old) p w next = if old == p then (acknowledged, w) else (immutable, w)

unfoldable pub put : Bool → (ℕ → Write) → Key → ℕ → Writer → Stored × Writer
put runtime db k p w =
    if same k cutover
    then settled_row (get k w) p w (put_row runtime db k p w)
    else put_row runtime db k p w
