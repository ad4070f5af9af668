-- ===== src/Packing/Pack.antt =====
-- `_pack` and `_pack_verified` of src/bybit_flow/packing.py, cut where the process can stop. What
-- an archive gives back for the bytes that were written to it, and the checksum, are arguments, as
-- are the tests of the paths and whether the leases still hold at the heartbeats.
use bybitflow.Prelude.{
  ℕ, ◌≡◌, Bool, true, false, Option, none, some, List, [], ◌∷◌, ◌==◌, if◌then◌else◌, all,
}
use bybitflow.Packing.Disk.{
  Name, raw, parquet, manifest, File, Pack, Disk, content_of, unlinked, pack_of, entries_of,
}

-- The three files of each selected segment.
unfoldable pub names_of : List ℕ → List Name
names_of [] = []
names_of (id ∷ ids) =
    (record { id = id; kind = raw })
    ∷ (record { id = id; kind = parquet })
    ∷ (record { id = id; kind = manifest })
    ∷ names_of ids

abbrev pub is_some : Option (List File) → Bool
is_some none = false
is_some (some es) = true

abbrev pub has_pack : Option ℕ → Bool
has_pack none = false
has_pack (some a) = true

module _ (stored : Name → ℕ → ℕ) (is_managed : Name → Bool) where
  abbrev pub add_entry : Name → Option ℕ → Option (List File) → Option (List File)
  add_entry n none es = none
  add_entry n (some c) none = none
  add_entry n (some c) (some es) =
      if is_managed n then some ((record { name = n; content = stored n c }) ∷ es) else none

  -- The loop that writes the archive, or none where it raises: a path outside the managed
  -- directory, or a file that is not there.
  unfoldable pub gather : List File → List Name → Option (List File)
  gather fs [] = some []
  gather fs (n ∷ ns) = add_entry n (content_of n fs) (gather fs ns)

module _ (digest : ℕ → ℕ) where
  abbrev pub same_digest : Option ℕ → Option ℕ → Bool
  same_digest none o = false
  same_digest (some a) none = false
  same_digest (some a) (some b) = digest a == digest b

  -- The loop that compares every archived file with its original.
  unfoldable pub verified : List File → List File → List Name → Bool
  verified es fs ns = all (λ n. same_digest (content_of n es) (content_of n fs)) ns

-- INSERT INTO segment_packs for each segment in one transaction; none where a row is there already.
unfoldable pub with_packs : ℕ → List ℕ → List Pack → Option (List Pack)
with_packs a [] ps = some ps
with_packs a (id ∷ ids) ps =
    let rest = with_packs a ids ((record { segment_id = id; archive = a }) ∷ ps) in
    if has_pack (pack_of id ps) then none else rest

-- Where a packing stands: not begun or over, the archive written, every byte compared, the mapping
-- committed, and the leases confirmed with the files that are left to unlink.
pub data Stage : Type 0 where
  over : Stage
  written : ℕ → List ℕ → Stage
  compared : ℕ → List ℕ → Stage
  mapped : List Name → Stage
  unlinking : List Name → Stage

module _ (stored : Name → ℕ → ℕ) (is_managed : Name → Bool) (digest : ℕ → ℕ) where
  unfoldable pub write_gathered : ℕ → List ℕ → Disk → Option (List File) → Stage × Disk
  write_gathered a ids d none =
      (over, record d { archives = (record { id = a; entries = [] }) ∷ d.archives })
  write_gathered a ids d (some es) =
      (written a ids, record d { archives = (record { id = a; entries = es }) ∷ d.archives })

  -- `ZipFile(target, "x")`, which raises if there is such a file. A partial archive stays behind.
  unfoldable pub write_archive : ℕ → List ℕ → Disk → Stage × Disk
  write_archive a ids d =
      if is_some (entries_of a d.archives)
      then (over, d)
      else write_gathered a ids d (gather stored is_managed d.files (names_of ids))

  unfoldable pub compare_entries : ℕ → List ℕ → Disk → Option (List File) → Stage × Disk
  compare_entries a ids d none = (over, d)
  compare_entries a ids d (some es) =
      if verified digest es d.files (names_of ids) then (compared a ids, d) else (over, d)

  unfoldable pub commit : List ℕ → Disk → Option (List Pack) → Stage × Disk
  commit ids d none = (over, d)
  commit ids d (some ps) = (mapped (names_of ids), record d { packs = ps })

  -- The next step. The heartbeat before the files are unlinked raises if the leases are lost.
  unfoldable pub advance : Bool → Stage → Disk → Stage × Disk
  advance leased over d = (over, d)
  advance leased (written a ids) d = compare_entries a ids d (entries_of a d.archives)
  advance leased (compared a ids) d = commit ids d (with_packs a ids d.packs)
  advance leased (mapped ns) d = if leased then (unlinking ns, d) else (over, d)
  advance leased (unlinking []) d = (over, d)
  advance leased (unlinking (n ∷ ns)) d = (unlinking ns, record d { files = unlinked n d.files })

  -- A packing begins when none runs, of segments that the table has, goes on, or stops for good
  -- anywhere.
  pub data Step (x : Stage × Disk) : Stage × Disk → Type 0 where
    begin_pack :
        (a : ℕ) (ids : List ℕ)
        → x.0 ≡ over
        → all x.1.has_segment ids ≡ true
        → Step x (write_archive a ids x.1)
    go_on : (leased : Bool) → Step x (advance leased x.0 x.1)
    stop : Step x (over, x.1)

  pub data Reach (x : Stage × Disk) : Stage × Disk → Type 0 where
    begin : Reach x x
    next : {y z : Stage × Disk} → Reach x y → Step y z → Reach x z
