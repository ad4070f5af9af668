-- ===== src/Packing/Stages.antt =====
-- What the stages of a packing establish, and that the first two change nothing that is read.
use bybitflow.Prelude.{
  ℕ, ◌≡◌, refl, sym, subst, ap, ◌∙◌, Bool, true, false, Option, none, some, List, [], ◌∷◌,
  if◌then◌else◌, all, All,
}
use bybitflow.Packing.Disk.{
  Name, File, Disk, content_of, pack_of, entries_of, archive_of, read_entries, read_archive,
  archived_bytes, or_archived, held_bytes,
}
use bybitflow.Packing.Pack.{
  names_of, is_some, gather, verified, Stage, over, written, compared, mapped, unlinking,
  write_gathered, write_archive, compare_entries,
}
use bybitflow.Packing.Files.{entries_of-cons, Same, verified-Same}

-- What a segment's mapping points to is an archive, and a file that is both on the disk and in the
-- archive of its segment has the same bytes in both.
pub record IsConsistent (d : Disk) : Type 0 where
  pub refs : (id a : ℕ) → pack_of id d.packs ≡ some a → is_some (entries_of a d.archives) ≡ true
  pub agree :
      (n : Name) (c e : ℕ) → content_of n d.files ≡ some c → archived_bytes n d ≡ some e → c ≡ e

abbrev pub IsArchived : Disk → Name → Type 0
IsArchived d n = (c : ℕ) × (archived_bytes n d ≡ some c)

abbrev pub IsReady : ℕ → List ℕ → Disk → Option (List File) → Type 0
IsReady a ids d none = ⊥
IsReady a ids d (some es) = All (Same es d.files) (names_of ids)

-- What each stage has established.
unfoldable pub IsStage : Stage → Disk → Type 0
IsStage over d = Unit
IsStage (written a ids) d = all d.has_segment ids ≡ true
IsStage (compared a ids) d =
    (all d.has_segment ids ≡ true) × IsReady a ids d (entries_of a d.archives)
IsStage (mapped ns) d = All (IsArchived d) ns
IsStage (unlinking ns) d = All (IsArchived d) ns

-- What a step leaves as it is: every byte that can be read.
pub record IsSafe (d : Disk) (s : Stage) (e : Disk) : Type 0 where
  pub same_bytes : (n : Name) → held_bytes n e ≡ held_bytes n d
  pub consistent : IsConsistent e
  pub stage : IsStage s e

pub nothing_changed : (d : Disk) (s : Stage) → IsConsistent d → IsStage s d → IsSafe d s d
nothing_changed d s h t = record { same_bytes = λ n. refl; consistent = h; stage = t }

-- An archive that no mapping points to yet.
archived-cons :
    (a : ℕ) (es : List File) (d : Disk) (n : Name)
    → IsConsistent d
    → is_some (entries_of a d.archives) ≡ false
    → archived_bytes n (record d { archives = (record { id = a; entries = es }) ∷ d.archives })
      ≡ archived_bytes n d
unfolding archived_bytes read_archive archive_of
archived-cons a es d n h f = go (d.has_segment n.id)
  where
    mapped_to :
        (o : Option ℕ)
        → pack_of n.id d.packs ≡ o
        → read_archive n ((record { id = a; entries = es }) ∷ d.archives) o
          ≡ read_archive n d.archives o
    mapped_to none e = refl
    mapped_to (some b) e =
        ap (λ x. read_entries n x) (entries_of-cons a b es d.archives f (h.refs n.id b e))

    go :
        (b : Bool)
        → read_archive n
            ((record { id = a; entries = es }) ∷ d.archives)
            (if b then pack_of n.id d.packs else none)
          ≡ read_archive n d.archives (if b then pack_of n.id d.packs else none)
    go true = mapped_to (pack_of n.id d.packs) refl
    go false = refl

with_archive-IsSafe :
    (a : ℕ) (es : List File) (d : Disk) (s : Stage)
    → IsConsistent d
    → is_some (entries_of a d.archives) ≡ false
    → IsStage s (record d { archives = (record { id = a; entries = es }) ∷ d.archives })
    → IsSafe d s (record d { archives = (record { id = a; entries = es }) ∷ d.archives })
unfolding held_bytes
with_archive-IsSafe a es d s h f t = record {
  same_bytes = λ n. ap (λ o. or_archived (content_of n d.files) o) (archived-cons a es d n h f);
  consistent = record {
    refs =
        λ id b e. ap is_some (entries_of-cons a b es d.archives f (h.refs id b e)) ∙ h.refs id b e;
    agree = λ n c e x y. h.agree n c e x (sym (archived-cons a es d n h f) ∙ y);
  };
  stage = t;
}

module _ (stored : Name → ℕ → ℕ) (is_managed : Name → Bool) (digest : ℕ → ℕ) where
  pub write_archive-IsSafe :
      (a : ℕ) (ids : List ℕ) (d : Disk)
      → IsConsistent d
      → all d.has_segment ids ≡ true
      → IsSafe d
          (write_archive stored is_managed digest a ids d).0
          (write_archive stored is_managed digest a ids d).1
  unfolding write_archive write_gathered IsStage
  write_archive-IsSafe a ids d h k = go (is_some (entries_of a d.archives)) refl
    where
      gathered :
          is_some (entries_of a d.archives) ≡ false
          → (o : Option (List File))
          → IsSafe d
              (write_gathered stored is_managed digest a ids d o).0
              (write_gathered stored is_managed digest a ids d o).1
      gathered f none = with_archive-IsSafe a [] d over h f tt
      gathered f (some es) = with_archive-IsSafe a es d (written a ids) h f k

      go :
          (b : Bool)
          → is_some (entries_of a d.archives) ≡ b
          → IsSafe d
              (if◌then◌else◌ {A = Stage × Disk} b
                (over, d)
                (write_gathered stored is_managed digest a ids d
                  (gather stored is_managed d.files (names_of ids)))).0
              (if◌then◌else◌ {A = Stage × Disk} b
                (over, d)
                (write_gathered stored is_managed digest a ids d
                  (gather stored is_managed d.files (names_of ids)))).1
      go true f = nothing_changed d over h tt
      go false f = gathered f (gather stored is_managed d.files (names_of ids))

  pub compare-IsSafe :
      ((x y : ℕ) → digest x ≡ digest y → x ≡ y)
      → (a : ℕ) (ids : List ℕ) (d : Disk) → IsConsistent d
      → all d.has_segment ids ≡ true
      → (o : Option (List File)) → entries_of a d.archives ≡ o
      → IsSafe d
          (compare_entries stored is_managed digest a ids d o).0
          (compare_entries stored is_managed digest a ids d o).1
  unfolding compare_entries IsStage
  compare-IsSafe inj a ids d h k none e = nothing_changed d over h tt
  compare-IsSafe inj a ids d h k (some es) e = go (verified digest es d.files (names_of ids)) refl
    where
      go :
          (b : Bool)
          → verified digest es d.files (names_of ids) ≡ b
          → IsSafe d
              (if◌then◌else◌ {A = Stage × Disk} b (compared a ids, d) (over, d)).0
              (if◌then◌else◌ {A = Stage × Disk} b (compared a ids, d) (over, d)).1
      go true f = nothing_changed d (compared a ids) h (
        k,
        subst (λ x. IsReady a ids d x) (sym e)
            (verified-Same digest inj es d.files (names_of ids) f),
      )
      go false f = nothing_changed d over h tt
