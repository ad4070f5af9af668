-- ===== src/Packing/Files.antt =====
-- What is read after a file is unlinked, an archive written or a mapping committed.
use bybitflow.Prelude.{
  ℕ, ◌≡◌, refl, sym, subst, ap, ◌∙◌, inl, inr, Bool, true, false, ◌&&◌, Option, none, some, List,
  [], ◌∷◌, Memᴰ, arith, ◌==◌, ==_iff, if◌then◌else◌, All, All-mono, Bool-cases,
}
use bybitflow.Packing.Disk.{
  Kind, raw, parquet, manifest, Name, same_kind, same_name, File, Pack, Archive, content_of,
  unlinked, pack_of, entries_of,
}
use bybitflow.Packing.Pack.{names_of, is_some, has_pack, same_digest, verified, with_packs}

same_kind_equal : (a b : Kind) → same_kind a b ≡ true → a ≡ b
unfolding same_kind
same_kind_equal raw raw h = refl
same_kind_equal raw parquet h = cc
same_kind_equal raw manifest h = cc
same_kind_equal parquet raw h = cc
same_kind_equal parquet parquet h = refl
same_kind_equal parquet manifest h = cc
same_kind_equal manifest raw h = cc
same_kind_equal manifest parquet h = cc
same_kind_equal manifest manifest h = refl

pub same_name_equal : (a b : Name) → same_name a b ≡ true → a ≡ b
same_name_equal a b h = go (parts a.id b.id (same_kind a.kind b.kind) h)
  where
    parts : (x y : ℕ) (k : Bool) → ((x == y) && k) ≡ true → (x ≡ y) × (k ≡ true)
    parts x y k e = ground arith

    go : (a.id ≡ b.id) × (same_kind a.kind b.kind ≡ true) → a ≡ b
    go (p, q) =
        let k : a.kind ≡ b.kind = same_kind_equal a.kind b.kind q in
        λ i. record { id = p i; kind = k i }

pub content_of-unlinked : (n : Name) (fs : List File) → content_of n (unlinked n fs) ≡ none
unfolding content_of unlinked
content_of-unlinked n [] = refl
content_of-unlinked n (f ∷ fs) = elim (Bool-cases (same_name f.name n)) [
  | inl e ↦ rw (unlinked, e) (content_of-unlinked n fs)
  | inr e ↦ rw (unlinked, e, content_of, e) (content_of-unlinked n fs)
]

pub content_of-unlinked_other :
    (n m : Name) (fs : List File)
    → same_name n m ≡ false
    → content_of m (unlinked n fs) ≡ content_of m fs
unfolding content_of unlinked
content_of-unlinked_other n m [] h = refl
content_of-unlinked_other n m (f ∷ fs) h = elim (Bool-cases (same_name f.name n)) [
  | inl e ↦
      rw (unlinked, e)
        (rw (content_of, ap (λ x. same_name x m) (same_name_equal f.name n e) ∙ h)
          (content_of-unlinked_other n m fs h))
  | inr e ↦
      rw (unlinked, e, content_of)
        (ap (λ r. if same_name f.name m then some f.content else r)
          (content_of-unlinked_other n m fs h))
]

-- A new archive hides none that is there.
pub entries_of-cons :
    (a b : ℕ) (es : List File) (xs : List Archive)
    → is_some (entries_of a xs) ≡ false
    → is_some (entries_of b xs) ≡ true
    → entries_of b ((record { id = a; entries = es }) ∷ xs) ≡ entries_of b xs
unfolding entries_of
entries_of-cons a b es xs h k = go (a == b) refl
  where
    contradiction : {A : Type 0} → false ≡ true → A
    contradiction e = cc

    go : (c : Bool) → (a == b) ≡ c → (if c then some es else entries_of b xs) ≡ entries_of b xs
    go true e = contradiction (sym h ∙ (ap (λ x. is_some (entries_of x xs)) ((==_iff a b).0 e) ∙ k))
    go false e = refl

-- The mapping of a segment is as before, or new where there was none.
pub data Mapped (a : ℕ) (ids : List ℕ) (id : ℕ) (ps qs : List Pack) : Type 0 where
  as_before : pack_of id qs ≡ pack_of id ps → Mapped a ids id ps qs
  new_row : Memᴰ id ids → pack_of id ps ≡ none → pack_of id qs ≡ some a → Mapped a ids id ps qs

packs_test :
    (a i : ℕ) (ids : List ℕ) (ps qs : List Pack)
    → with_packs a (i ∷ ids) ps ≡ some qs
    → (pack_of i ps ≡ none)
      × (with_packs a ids ((record { segment_id = i; archive = a }) ∷ ps) ≡ some qs)
unfolding with_packs
packs_test a i ids ps qs h = go (pack_of i ps) h
  where
    go :
        (o : Option ℕ)
        → (if has_pack o
            then none
            else with_packs a ids ((record { segment_id = i; archive = a }) ∷ ps))
          ≡ some qs
        → (o ≡ none) × (with_packs a ids ((record { segment_id = i; archive = a }) ∷ ps) ≡ some qs)
    go none e = (refl, e)
    go (some x) e = cc

pub packs-Mapped :
    (a : ℕ) (ids : List ℕ) (ps qs : List Pack) (id : ℕ)
    → with_packs a ids ps ≡ some qs
    → Mapped a ids id ps qs
unfolding with_packs pack_of
packs-Mapped a [] ps qs id h = as_before (ap (λ x. pack_of id x) (sym (same_list h)))
  where
    same_list : some ps ≡ some qs → ps ≡ qs
    same_list e = cc
packs-Mapped a (i ∷ ids) ps qs id h =
    let t = packs_test a i ids ps qs h in
    go t.0 (i == id) refl
      (packs-Mapped a ids ((record { segment_id = i; archive = a }) ∷ ps) qs id t.1)
  where
    absurd : {A : Type 0} → none ≡ some a → A
    absurd c = cc

    row :
        (b : Bool)
        → (i == id) ≡ b
        → pack_of id ((record { segment_id = i; archive = a }) ∷ ps)
          ≡ (if b then some a else pack_of id ps)
    row b e = ap (λ c. if c then some a else pack_of id ps) e

    go :
        pack_of i ps ≡ none
        → (b : Bool) → (i == id) ≡ b
        → Mapped a ids id ((record { segment_id = i; archive = a }) ∷ ps) qs
        → Mapped a (i ∷ ids) id ps qs
    go f true e (as_before q) =
        new_row (Memᴰ.head (sym ((==_iff i id).0 e)))
          (ap (λ x. pack_of x ps) (sym ((==_iff i id).0 e)) ∙ f) (q ∙ row true e)
    go f true e (new_row m n q) = absurd (sym n ∙ row true e)
    go f false e (as_before q) = as_before (q ∙ row false e)
    go f false e (new_row m n q) = new_row (Memᴰ.tail m) (sym (row false e) ∙ n) q

pub packs_own :
    (a : ℕ) (ids : List ℕ) (ps qs : List Pack) (id : ℕ)
    → with_packs a ids ps ≡ some qs
    → Memᴰ id ids
    → pack_of id qs ≡ some a
unfolding with_packs pack_of
packs_own a [] ps qs id h m = elim m [ ]
packs_own a (i ∷ ids) ps qs id h (Memᴰ.tail m) =
    packs_own a ids ((record { segment_id = i; archive = a }) ∷ ps) qs id
      (packs_test a i ids ps qs h).1 m
packs_own a (i ∷ ids) ps qs id h (Memᴰ.head e) = later (
    packs-Mapped a ids ((record { segment_id = i; archive = a }) ∷ ps) qs id
      (packs_test a i ids ps qs h).1)
  where
    row : pack_of id ((record { segment_id = i; archive = a }) ∷ ps) ≡ some a
    row = ap (λ b. if b then some a else pack_of id ps) ((==_iff i id).1 (sym e))

    later :
        Mapped a ids id ((record { segment_id = i; archive = a }) ∷ ps) qs → pack_of id qs ≡ some a
    later (as_before q) = q ∙ row
    later (new_row m n q) = q

-- What holds of all names of the segments holds of each file of each segment.
pub names_at :
    (P : Name → Type 0) (ids : List ℕ) (id : ℕ) (k : Kind)
    → All P (names_of ids)
    → Memᴰ id ids
    → P (record { id = id; kind = k })
unfolding names_of
names_at P [] id k h m = elim m [ ]
names_at P (i ∷ ids) id k h (Memᴰ.tail m) = names_at P ids id k h.1.1.1 m
names_at P (i ∷ ids) id k h (Memᴰ.head e) =
    subst (λ x. P (record { id = x; kind = k })) (sym e) (pick k)
  where
    pick : (j : Kind) → P (record { id = i; kind = j })
    pick raw = h.0
    pick parquet = h.1.0
    pick manifest = h.1.1.0

pub names_mem : (ids : List ℕ) → All (λ (n : Name). Memᴰ n.id ids) (names_of ids)
unfolding names_of
names_mem [] = tt
names_mem (i ∷ ids) = (
  Memᴰ.head refl,
  (
    Memᴰ.head refl,
    (
      Memᴰ.head refl,
      All-mono (λ (n : Name). Memᴰ n.id ids) (λ (n : Name). Memᴰ n.id (i ∷ ids))
          (λ n m. Memᴰ.tail m) (names_of ids) (names_mem ids),
    ),
  ),
)

-- A file that was compared has the bytes of its entry, if equal checksums mean equal bytes.
unfoldable pub Same : (es fs : List File) (n : Name) → Type 0
Same es fs n = (c : ℕ) × ((content_of n es ≡ some c) × (content_of n fs ≡ some c))

pub verified-Same :
    (digest : ℕ → ℕ)
    → ((x y : ℕ) → digest x ≡ digest y → x ≡ y)
    → (es fs : List File) (ns : List Name) → verified digest es fs ns ≡ true
    → All (Same es fs) ns
unfolding verified Same
verified-Same digest inj es fs [] h = tt
verified-Same digest inj es fs (n ∷ ns) h =
    let t =
      parts (same_digest digest (content_of n es) (content_of n fs)) (verified digest es fs ns) h in
    (same (content_of n es) (content_of n fs) refl refl t.0, verified-Same digest inj es fs ns t.1)
  where
    parts : (x y : Bool) → (x && y) ≡ true → (x ≡ true) × (y ≡ true)
    parts true y e = (refl, e)
    parts false y e = cc

    same :
        (x y : Option ℕ)
        → content_of n es ≡ x
        → content_of n fs ≡ y
        → same_digest digest x y ≡ true
        → (c : ℕ) × ((content_of n es ≡ some c) × (content_of n fs ≡ some c))
    same none y e f g = cc
    same (some x) none e f g = cc
    same (some x) (some y) e f g =
        (x, (e, f ∙ ap some (sym (inj x y ((==_iff (digest x) (digest y)).0 g)))))
