-- ===== src/Packing/Lossless.antt =====
-- Packing loses no bytes, wherever it stops.
use bybitflow.Prelude.{
  ℕ, ◌≡◌, refl, sym, subst, ap, ◌∙◌, Bool, true, false, Option, none, some, List, [], ◌∷◌, all, All,
}
use bybitflow.Packing.Disk.{
  Kind, raw, raw_bytes, packed_record, Name, same_name, File, Pack, Disk, content_of, unlinked,
  entries_of, archive_of, archived_bytes, or_archived, held_bytes,
}
use bybitflow.Packing.Pack.{
  with_packs, Stage, over, written, compared, mapped, unlinking, commit, advance, Step, begin_pack,
  go_on, stop, Reach, begin, next,
}
use bybitflow.Packing.Files.{same_name_equal, content_of-unlinked, content_of-unlinked_other}
use bybitflow.Packing.Stages.{
  IsConsistent, IsArchived, IsReady, IsStage, IsSafe, nothing_changed, write_archive-IsSafe,
  compare-IsSafe,
}
use bybitflow.Packing.Commit.{commit-IsSafe}

unlinked-IsSafe :
    (n : Name) (ns : List Name) (d : Disk)
    → IsConsistent d
    → All (IsArchived d) (n ∷ ns)
    → IsSafe d (unlinking ns) (record d { files = unlinked n d.files })
unfolding held_bytes IsStage archived_bytes archive_of
unlinked-IsSafe n ns d h t = record {
  same_bytes = λ m. bytes m (same_name n m) refl;
  consistent = record { refs = h.refs; agree = λ m c e x y. agreed m c e x y (same_name n m) refl };
  stage = t.1;
}
  where
    absurd : {A : Type 0} {c : ℕ} → none ≡ some c → A
    absurd z = cc

    gone : (m : Name) → same_name n m ≡ true → content_of m (unlinked n d.files) ≡ none
    gone m e =
        subst (λ x. content_of x (unlinked n d.files) ≡ none) (same_name_equal n m e)
          (content_of-unlinked n d.files)

    held :
        (m : Name) (c : ℕ) (o : Option ℕ)
        → archived_bytes m d ≡ some c
        → content_of m d.files ≡ o
        → or_archived none (some c) ≡ or_archived o (some c)
    held m c none x y = refl
    held m c (some b) x y = ap some (sym (h.agree m b c y x))

    bytes :
        (m : Name) (b : Bool)
        → same_name n m ≡ b
        → or_archived (content_of m (unlinked n d.files)) (archived_bytes m d)
          ≡ or_archived (content_of m d.files) (archived_bytes m d)
    bytes m false e =
        ap (λ o. or_archived o (archived_bytes m d)) (content_of-unlinked_other n m d.files e)
    bytes m true e =
        let c : ℕ = t.0.0 in
        let x : archived_bytes m d ≡ some c =
          subst (λ z. archived_bytes z d ≡ some c) (same_name_equal n m e) t.0.1 in
        ap (λ o. or_archived o (archived_bytes m d)) (gone m e)
        ∙ (ap (λ o. or_archived none o) x
            ∙ (held m c (content_of m d.files) x refl
                ∙ sym (ap (λ o. or_archived (content_of m d.files) o) x)))

    agreed :
        (m : Name) (c e : ℕ)
        → content_of m (unlinked n d.files) ≡ some c
        → archived_bytes m d ≡ some e
        → (b : Bool) → same_name n m ≡ b
        → c ≡ e
    agreed m c e x y true f = absurd (sym (gone m f) ∙ x)
    agreed m c e x y false f = h.agree m c e (sym (content_of-unlinked_other n m d.files f) ∙ x) y

module _ (stored : Name → ℕ → ℕ) (is_managed : Name → Bool) (digest : ℕ → ℕ)
    (inj : (x y : ℕ) → digest x ≡ digest y → x ≡ y) where
  committed-IsSafe :
      (a : ℕ) (ids : List ℕ) (d : Disk)
      → IsConsistent d
      → all d.has_segment ids ≡ true
      → (o : Option (List File)) → entries_of a d.archives ≡ o
      → IsReady a ids d o
      → (p : Option (List Pack)) → with_packs a ids d.packs ≡ p
      → IsSafe d
          (commit stored is_managed digest ids d p).0
          (commit stored is_managed digest ids d p).1
  unfolding commit IsStage
  committed-IsSafe a ids d h k none e r p w = elim r [ ]
  committed-IsSafe a ids d h k (some es) e r none w = nothing_changed d over h tt
  committed-IsSafe a ids d h k (some es) e r (some qs) w = commit-IsSafe a ids d qs es h k r e w

  advance-IsSafe :
      (leased : Bool) (s : Stage) (d : Disk)
      → IsConsistent d
      → IsStage s d
      → IsSafe d
          (advance stored is_managed digest leased s d).0
          (advance stored is_managed digest leased s d).1
  unfolding advance IsStage
  advance-IsSafe leased over d h t = nothing_changed d over h tt
  advance-IsSafe leased (written a ids) d h t =
      compare-IsSafe stored is_managed digest inj a ids d h t (entries_of a d.archives) refl
  advance-IsSafe leased (compared a ids) d h t =
      committed-IsSafe a ids d h t.0 (entries_of a d.archives) refl t.1 (with_packs a ids d.packs)
        refl
  advance-IsSafe true (mapped ns) d h t = nothing_changed d (unlinking ns) h t
  advance-IsSafe false (mapped ns) d h t = nothing_changed d over h tt
  advance-IsSafe leased (unlinking []) d h t = nothing_changed d over h tt
  advance-IsSafe leased (unlinking (n ∷ ns)) d h t = unlinked-IsSafe n ns d h t

  Step-IsSafe :
      (x y : Stage × Disk)
      → Step stored is_managed digest x y
      → IsConsistent x.1
      → IsStage x.0 x.1
      → IsSafe x.1 y.0 y.1
  unfolding IsStage
  Step-IsSafe x _ (begin_pack a ids e k) h t =
      write_archive-IsSafe stored is_managed digest a ids x.1 h k
  Step-IsSafe x _ (go_on leased) h t = advance-IsSafe leased x.0 x.1 h t
  Step-IsSafe x _ stop h t = nothing_changed x.1 over h tt

  Reach-IsSafe :
      (x y : Stage × Disk)
      → IsConsistent x.1
      → IsStage x.0 x.1
      → Reach stored is_managed digest x y
      → IsSafe x.1 y.0 y.1
  Reach-IsSafe x _ h t begin = nothing_changed x.1 x.0 h t
  Reach-IsSafe x _ h t (next {y = y} {z = z} r st) =
      let s : IsSafe x.1 y.0 y.1 = Reach-IsSafe x y h t r in
      let u : IsSafe y.1 z.0 z.1 = Step-IsSafe y z st s.consistent s.stage in
      record {
        same_bytes = λ n. u.same_bytes n ∙ s.same_bytes n;
        consistent = u.consistent;
        stage = u.stage;
      }

  -- From a consistent disk, through any number of packings that succeed, raise or are cut off
  -- anywhere, if equal checksums mean equal bytes: `raw_bytes` of the raw file of every segment is
  -- what it was before, and all files of every segment are there with the bytes that they had, in
  -- their places or in the archive of the segment; the archives may give back anything.
  pub raw_bytes-Reach :
      (d : Disk) (s : Stage) (e : Disk) (id : ℕ)
      → IsConsistent d
      → Reach stored is_managed digest (over, d) (s, e)
      → (raw_bytes (record { id = id; kind = raw }) e
          ≡ raw_bytes (record { id = id; kind = raw }) d)
        × ((k : Kind)
            → held_bytes (record { id = id; kind = k }) e
              ≡ held_bytes (record { id = id; kind = k }) d)
  unfolding IsStage raw_bytes packed_record held_bytes archived_bytes
  raw_bytes-Reach d s e id h r =
      let safe = Reach-IsSafe (over, d) (s, e) h tt r in
      (
        safe.same_bytes (record { id = id; kind = raw }),
        λ k. safe.same_bytes (record { id = id; kind = k }),
      )
