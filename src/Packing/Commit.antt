-- ===== src/Packing/Commit.antt =====
-- The commit of the mapping changes nothing that is read.
use bybitflow.Prelude.{
  ℕ, ◌≡◌, refl, sym, ap, ◌∙◌, ◌⊎◌, inl, inr, Bool, true, false, ◌&&◌, Option, none, some, List, [],
  ◌∷◌, Memᴰ, if◌then◌else◌, all, All, All-mono,
}
use bybitflow.Packing.Disk.{
  Name, File, Pack, Disk, content_of, pack_of, entries_of, archive_of, read_entries, read_archive,
  archived_bytes, or_archived, held_bytes,
}
use bybitflow.Packing.Pack.{names_of, is_some, with_packs, mapped}
use bybitflow.Packing.Files.{
  Mapped, as_before, new_row, packs-Mapped, packs_own, names_at, names_mem, Same,
}
use bybitflow.Packing.Stages.{IsConsistent, IsArchived, IsStage, IsSafe}

all_at : (p : ℕ → Bool) (ids : List ℕ) (id : ℕ) → all p ids ≡ true → Memᴰ id ids → p id ≡ true
all_at p [] id h m = elim m [ ]
all_at p (i ∷ ids) id h m = go (λ e n. all_at p ids id e n) (p i) refl h m
  where
    go :
        (all p ids ≡ true → Memᴰ id ids → p id ≡ true)
        → (x : Bool) → p i ≡ x
        → (x && all p ids) ≡ true
        → Memᴰ id (i ∷ ids)
        → p id ≡ true
    go ih true e k (Memᴰ.head q) = ap p q ∙ e
    go ih true e k (Memᴰ.tail n) = ih k n
    go ih false e k q = cc

archived_at :
    (n : Name) (d : Disk) (o : Option ℕ)
    → d.has_segment n.id ≡ true
    → pack_of n.id d.packs ≡ o
    → archived_bytes n d ≡ read_archive n d.archives o
unfolding archived_bytes archive_of
archived_at n d o h e =
    ap (λ b. read_archive n d.archives (if b then pack_of n.id d.packs else none)) h
    ∙ ap (λ x. read_archive n d.archives x) e

module _ (a : ℕ) (ids : List ℕ) (d : Disk) (qs : List Pack) (es : List File) (h : IsConsistent d)
    (k : all d.has_segment ids ≡ true) (r : All (Same es d.files) (names_of ids))
    (e : entries_of a d.archives ≡ some es) (w : with_packs a ids d.packs ≡ some qs) where
  abbrev committed : Disk
  committed = record d { packs = qs }

  -- The bytes of a file of a segment that is being packed.
  own_bytes :
      (n : Name)
      → Memᴰ n.id ids
      → (c : ℕ) × ((content_of n d.files ≡ some c) × (archived_bytes n committed ≡ some c))
  unfolding Same read_archive
  own_bytes n m = go (names_at (Same es d.files) ids n.id n.kind r m)
    where
      go :
          (c : ℕ) × ((content_of n es ≡ some c) × (content_of n d.files ≡ some c))
          → (c : ℕ) × ((content_of n d.files ≡ some c) × (archived_bytes n committed ≡ some c))
      go (c, (x, y)) = (
        c,
        (
          y,
          archived_at n committed (some a) (all_at d.has_segment ids n.id k m)
                (packs_own a ids d.packs qs n.id w m)
              ∙ (ap (λ o. read_entries n o) e ∙ x),
        ),
      )

  -- A name is read from its archive as before, or its segment is one that is being packed.
  other_bytes :
      (n : Name)
      → (archived_bytes n committed ≡ archived_bytes n d)
        ⊎ (Memᴰ n.id ids × (archived_bytes n d ≡ none))
  unfolding archived_bytes archive_of read_archive
  other_bytes n = go (packs-Mapped a ids d.packs qs n.id w)
    where
      go :
          Mapped a ids n.id d.packs qs
          → (archived_bytes n committed ≡ archived_bytes n d)
            ⊎ (Memᴰ n.id ids × (archived_bytes n d ≡ none))
      go (as_before q) =
          inl (ap (λ o. read_archive n d.archives (if d.has_segment n.id then o else none)) q)
      go (new_row m x y) = inr (m, archived_at n d none (all_at d.has_segment ids n.id k m) x)

  pub commit-IsSafe : IsSafe d (mapped (names_of ids)) committed
  unfolding held_bytes IsStage
  commit-IsSafe = record {
    same_bytes = λ n. bytes n (other_bytes n);
    consistent = record {
      refs = λ id b f. target id b f (packs-Mapped a ids d.packs qs id w);
      agree = λ n c f x y. agreed n c f x y (other_bytes n);
    };
    stage =
        All-mono (λ (n : Name). Memᴰ n.id ids) (IsArchived committed)
          (λ n m. let t = own_bytes n m in (t.0, t.1.1)) (names_of ids) (names_mem ids);
  }
    where
      bytes :
          (n : Name)
          → (archived_bytes n committed ≡ archived_bytes n d)
            ⊎ (Memᴰ n.id ids × (archived_bytes n d ≡ none))
          → or_archived (content_of n d.files) (archived_bytes n committed)
            ≡ or_archived (content_of n d.files) (archived_bytes n d)
      bytes n (inl q) = ap (λ o. or_archived (content_of n d.files) o) q
      bytes n (inr (m, q)) =
          let t = own_bytes n m in
          ap (λ x. or_archived x (archived_bytes n committed)) t.1.0
          ∙ sym (ap (λ x. or_archived x (archived_bytes n d)) t.1.0)

      target :
          (id b : ℕ)
          → pack_of id qs ≡ some b
          → Mapped a ids id d.packs qs
          → is_some (entries_of b d.archives) ≡ true
      target id b f (as_before q) = h.refs id b (sym q ∙ f)
      target id b f (new_row m x y) =
          ap (λ z. is_some (entries_of z d.archives)) (same_id (sym f ∙ y)) ∙ ap is_some e
        where
          same_id : some b ≡ some a → b ≡ a
          same_id z = cc

      agreed :
          (n : Name) (c f : ℕ)
          → content_of n d.files ≡ some c
          → archived_bytes n committed ≡ some f
          → (archived_bytes n committed ≡ archived_bytes n d)
            ⊎ (Memᴰ n.id ids × (archived_bytes n d ≡ none))
          → c ≡ f
      agreed n c f x y (inl q) = h.agree n c f x (sym q ∙ y)
      agreed n c f x y (inr (m, q)) =
          let t = own_bytes n m in same_content (sym x ∙ (t.1.0 ∙ (sym t.1.1 ∙ y)))
        where
          same_content : some c ≡ some f → c ≡ f
          same_content z = cc
