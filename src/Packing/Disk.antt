-- ===== src/Packing/Disk.antt =====
-- The files of recorded segments, the archives and the table segment_packs, and how
-- `packed_record` and `raw_bytes` of src/bybit_flow/packing.py read them. Bytes are numbers.
use bybitflow.Prelude.{
  ℕ, Bool, true, false, ◌&&◌, Option, none, some, List, [], ◌∷◌, ◌==◌, if◌then◌else◌,
}

pub data Kind : Type 0 where
  raw parquet manifest : Kind

-- The name of a file of the segment `id`.
pub record Name : Type 0 where
  pub id : ℕ
  pub kind : Kind

unfoldable pub same_kind : Kind → Kind → Bool
same_kind raw raw = true
same_kind raw parquet = false
same_kind raw manifest = false
same_kind parquet raw = false
same_kind parquet parquet = true
same_kind parquet manifest = false
same_kind manifest raw = false
same_kind manifest parquet = false
same_kind manifest manifest = true

abbrev pub same_name : Name → Name → Bool
same_name a b = (a.id == b.id) && same_kind a.kind b.kind

pub record File : Type 0 where
  pub name : Name
  pub content : ℕ

pub record Pack : Type 0 where
  pub segment_id : ℕ
  pub archive : ℕ

pub record Archive : Type 0 where
  pub id : ℕ
  pub entries : List File

-- `has_segment` is whether the table segments has a row for an id.
pub record Disk : Type 0 where
  pub files : List File
  pub archives : List Archive
  pub packs : List Pack
  pub has_segment : ℕ → Bool

-- `read_bytes`, and `archive.read`, which raises for a name that is not there.
unfoldable pub content_of : Name → List File → Option ℕ
content_of n [] = none
content_of n (f ∷ fs) = if same_name f.name n then some f.content else content_of n fs

unfoldable pub unlinked : Name → List File → List File
unlinked n [] = []
unlinked n (f ∷ fs) = if same_name f.name n then unlinked n fs else f ∷ unlinked n fs

unfoldable pub pack_of : ℕ → List Pack → Option ℕ
pack_of id [] = none
pack_of id (p ∷ ps) = if p.segment_id == id then some p.archive else pack_of id ps

unfoldable pub entries_of : ℕ → List Archive → Option (List File)
entries_of a [] = none
entries_of a (x ∷ xs) = if x.id == a then some x.entries else entries_of a xs

-- The archive of a segment, if both tables have a row for it.
unfoldable pub archive_of : ℕ → Disk → Option ℕ
archive_of id d = if d.has_segment id then pack_of id d.packs else none

-- `path.name.removesuffix(".jsonl.gz")`: of a raw file this is the id of its segment, of another file
-- its whole name, which is no id.
abbrev pub ident : Kind → ℕ → Option ℕ
ident raw id = some id
ident parquet id = none
ident manifest id = none

unfoldable pub packed_record : Name → Disk → Option ℕ
packed_record n d = elim (ident n.kind n.id) [ none ↦ none | some id ↦ archive_of id d ]

abbrev pub read_entries : Name → Option (List File) → Option ℕ
read_entries n none = none
read_entries n (some es) = content_of n es

unfoldable pub read_archive : Name → List Archive → Option ℕ → Option ℕ
read_archive n xs none = none
read_archive n xs (some a) = read_entries n (entries_of a xs)

-- What the archive of the segment holds for a name.
unfoldable pub archived_bytes : Name → Disk → Option ℕ
archived_bytes n d = read_archive n d.archives (archive_of n.id d)

abbrev pub or_archived : Option ℕ → Option ℕ → Option ℕ
or_archived none o = o
or_archived (some c) o = some c

-- What there is of a file, in its place or in the archive of its segment.
unfoldable pub held_bytes : Name → Disk → Option ℕ
held_bytes n d = or_archived (content_of n d.files) (archived_bytes n d)

-- `raw_bytes`; none is where it raises.
unfoldable pub raw_bytes : Name → Disk → Option ℕ
raw_bytes n d = or_archived (content_of n d.files) (read_archive n d.archives (packed_record n d))
