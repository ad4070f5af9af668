-- ===== src/Recorder/Conservation.antt =====
-- Where the rows are that the recorder has taken in, round by round.
use bybitflow.Prelude.{
  ℕ, zero, suc, ◌-◌, ◌≤◌, ◌≡◌, ◌≢◌, refl, sym, subst, ap, ◌∙◌, Bool, true, false, ◌&&◌, some, List,
  [], ◌∷◌, ◌++◌, arith, leb, length, take, drop, length-append, Bool-cases, Option-cases, inl, inr,
}
use bybitflow.Recorder.Queue.{Row, Gap, Settings}
use bybitflow.Recorder.Writer.{
  Segments, Loop, is_published, publish, Write, acknowledged, committed_unheard, failed, fill,
  gap_rows, last_times, with_gaps, id_of, flushed, retried, write, round,
}

-- The rows of the segments, in order.
abbrev pub rows_of : Segments → List Row
rows_of [] = []
rows_of ((i, rs) ∷ ss) = rs ++ rows_of ss

-- All rows that were admitted: published, in the batch, and in the queue.
abbrev pub all_rows : Loop → List Row
all_rows w = rows_of w.segments ++ (w.batch ++ w.recorder.queue)

-- The retained batch, if there is one, is not published.
abbrev pub IsUnheard : Loop → Type 0
IsUnheard w = (i : ℕ) → w.batch_id ≡ some i → is_published i w.segments ≡ false

append_nil {ℓ} : {A : Type ℓ} (xs : List A) → xs ++ [] ≡ xs
append_nil [] = refl
append_nil (x ∷ xs) = ap (λ r. x ∷ r) (append_nil xs)

assoc {ℓ} : {A : Type ℓ} (xs ys zs : List A) → (xs ++ ys) ++ zs ≡ xs ++ (ys ++ zs)
assoc [] ys zs = refl
assoc (x ∷ xs) ys zs = ap (λ r. x ∷ r) (assoc xs ys zs)

take-drop {ℓ} : {A : Type ℓ} (n : ℕ) (xs : List A) → take n xs ++ drop n xs ≡ xs
take-drop zero xs = refl
take-drop (suc n) [] = refl
take-drop (suc n) (x ∷ xs) = ap (λ r. x ∷ r) (take-drop n xs)

rows_of-append :
    (ss : Segments) (i : ℕ) (rs : List Row) → rows_of (ss ++ (i, rs) ∷ []) ≡ rows_of ss ++ rs
rows_of-append [] i rs = append_nil rs
rows_of-append ((j, qs) ∷ ss) i rs =
    ap (λ r. qs ++ r) (rows_of-append ss i rs) ∙ sym (assoc qs (rows_of ss) rs)

-- Filling the batch moves rows and loses none.
fill-all_rows : (c : Settings) (w : Loop) → all_rows (fill c w) ≡ all_rows w
unfolding fill
fill-all_rows c w =
    ap (λ r. rows_of w.segments ++ r)
      (assoc w.batch (take n w.recorder.queue) (drop n w.recorder.queue)
        ∙ ap (λ r. w.batch ++ r) (take-drop n w.recorder.queue))
  where
    n : ℕ
    n = c.recorder_segment_rows - length w.batch

-- An unpublished id is published with its batch.
published_rows :
    (i : ℕ) (batch : List Row) (ss : Segments)
    → is_published i ss ≡ false
    → rows_of (publish i batch ss) ≡ rows_of ss ++ batch
unfolding publish
published_rows i batch ss h = rw (publish, h) (rows_of-append ss i batch)

-- Which rows a round adds: none, or the controls of the gaps, which it then forgets.
pub data Inserted (text : Gap → ℕ × ℕ) (gaps rest : List Gap) : List Row → Type 0 where
  nothing : rest ≡ gaps → Inserted text gaps rest []
  controls :
      (event receipt : ℕ) → rest ≡ [] → Inserted text gaps rest (gap_rows text event receipt gaps)

-- The rows of `w` come to the rows of `x` with some inserted.
pub data Kept (text : Gap → ℕ × ℕ) (w x : Loop) : Type 0 where
  kept :
      (before after inserted : List Row)
      → all_rows w ≡ before ++ after
      → all_rows x ≡ before ++ (inserted ++ after)
      → Inserted text w.recorder.gaps x.recorder.gaps inserted
      → IsUnheard x
      → Kept text w x

module _ (c : Settings) (text : Gap → ℕ × ℕ) (now : ℕ) (over_budget : Bool) (fresh : ℕ) where
  -- The write of a batch that is not published yet.
  write-all_rows :
      (o : Write) (w : Loop)
      → o ≢ committed_unheard
      → is_published (id_of w.batch_id fresh) w.segments ≡ false
      → (all_rows (write c now over_budget fresh o w) ≡ all_rows w)
        × IsUnheard (write c now over_budget fresh o w)
        × ((write c now over_budget fresh o w).recorder.gaps ≡ w.recorder.gaps)
  unfolding write flushed retried
  write-all_rows acknowledged w n u = (
    ap (λ r. r ++ w.recorder.queue) (published_rows (id_of w.batch_id fresh) w.batch w.segments u)
        ∙ assoc (rows_of w.segments) w.batch w.recorder.queue,
    (λ i e. cc),
    refl,
  )
  write-all_rows failed w n u =
      (refl, (λ i e. subst (λ j. is_published j w.segments ≡ false) (same_id e) u), refl)
    where
      same_id : {i j : ℕ} → some i ≡ some j → i ≡ j
      same_id e = cc
  write-all_rows committed_unheard w n u = elim (n refl) [ ]

  gaps-Kept :
      (o : Write) (w : Loop)
      → o ≢ committed_unheard
      → is_published (id_of w.batch_id fresh) w.segments ≡ false
      → Kept text w (write c now over_budget fresh o (with_gaps text w))
  unfolding with_gaps
  gaps-Kept o w n u = elim (Option-cases w.batch_id) [
    | inr (i, e) ↦
        rw (with_gaps, e)
          (let (a, b, g) = write-all_rows o w n u in
            kept (all_rows w) [] [] (sym (append_nil (all_rows w)))
              (a ∙ sym (append_nil (all_rows w))) (nothing g) b)
    | inl e ↦
        rw (with_gaps, e)
          (let (a, b, g) = write-all_rows o gapped n u in
            kept (rows_of w.segments ++ w.batch) w.recorder.queue added
              (sym (assoc (rows_of w.segments) w.batch w.recorder.queue)) (a ∙ placed)
              (controls (last_times w.batch).0 (last_times w.batch).1 g) b)
  ]
    where
      added : List Row
      added = gap_rows text (last_times w.batch).0 (last_times w.batch).1 w.recorder.gaps

      gapped : Loop
      gapped = record w { batch = w.batch ++ added; recorder = record (w.recorder) { gaps = [] } }

      placed : all_rows gapped ≡ (rows_of w.segments ++ w.batch) ++ (added ++ w.recorder.queue)
      placed =
          ap (λ r. rows_of w.segments ++ r) (assoc w.batch added w.recorder.queue)
          ∙ sym (assoc (rows_of w.segments) w.batch (added ++ w.recorder.queue))

-- The id of a batch that is not published yet.
id_unpublished :
    (w : Loop) (fresh : ℕ)
    → IsUnheard w
    → is_published fresh w.segments ≡ false
    → is_published (id_of w.batch_id fresh) w.segments ≡ false
id_unpublished w fresh h f = elim (Option-cases w.batch_id) [
  | inl e ↦ rw e f
  | inr (i, e) ↦ rw e (h i e)
]

-- A round in which the worker either acknowledges its write or has committed nothing loses no row
-- and makes none twice: the rows in the segments, the batch and the queue are the same before and
-- after it, in one order, but for the controls of the gaps, which go in before the queue when the
-- gaps are forgotten. It leaves no batch behind that is published already.
pub round-Kept :
    (c : Settings) (text : Gap → ℕ × ℕ) (now : ℕ) (over_budget due : Bool) (fresh : ℕ) (o : Write)
    (w : Loop)
    → o ≢ committed_unheard
    → IsUnheard w
    → is_published fresh w.segments ≡ false
    → Kept text w (round c text now over_budget due fresh o w)
unfolding round fill
round-Kept c text now over_budget due fresh o w n h f =
    elim (Bool-cases (leb 1 (length (fill c w).batch) && due)) [
      | inl e ↦
          rw (round, e)
            (earlier
              (gaps-Kept c text now over_budget fresh o (fill c w) n (id_unpublished w fresh h f)))
      | inr e ↦
          rw (round, e)
            (kept (all_rows w) [] [] (sym (append_nil (all_rows w)))
              (fill-all_rows c w ∙ sym (append_nil (all_rows w))) (nothing refl) h)
    ]
  where
    earlier : {x : Loop} → Kept text (fill c w) x → Kept text w x
    earlier (kept a b i p q r u) = kept a b i (sym (fill-all_rows c w) ∙ p) q r u

with_gaps_again :
    (text : Gap → ℕ × ℕ) (w : Loop) (i : ℕ) → w.batch_id ≡ some i → with_gaps text w ≡ w
unfolding with_gaps
with_gaps_again text w i e = rw (with_gaps, e) (rw (← e) refl)

published_again :
    (i : ℕ) (batch : List Row) (ss : Segments) → is_published i ss ≡ true → publish i batch ss ≡ ss
unfolding publish
published_again i batch ss p = rw (publish, p) refl

again_all_rows :
    (c : Settings) (now : ℕ) (over_budget : Bool) (fresh i : ℕ) (w : Loop)
    → w.batch_id ≡ some i
    → is_published i w.segments ≡ true
    → all_rows (write c now over_budget fresh acknowledged w)
      ≡ rows_of w.segments ++ w.recorder.queue
unfolding write flushed
again_all_rows c now over_budget fresh i w e p =
    ap (λ ss. rows_of ss ++ w.recorder.queue)
      (ap (λ o. publish (id_of o fresh) w.batch w.segments) e
        ∙ published_again i w.batch w.segments p)

-- If the worker has committed a batch and was not heard of, the retry adds the rows that the queue
-- holds up to the size of a segment, and is acknowledged without being published: the segments stay
-- as they are, the batch is emptied, and the added rows are in no segment, batch or queue.
pub round_forgets :
    (c : Settings) (text : Gap → ℕ × ℕ) (now : ℕ) (over_budget : Bool) (fresh i : ℕ) (w : Loop)
    → w.batch_id ≡ some i
    → is_published i w.segments ≡ true
    → 1 ≤ length w.batch
    → all_rows (round c text now over_budget true fresh acknowledged w)
      ≡ rows_of w.segments ++ drop (c.recorder_segment_rows - length w.batch) w.recorder.queue
unfolding round fill with_gaps write flushed publish
round_forgets c text now over_budget fresh i w e p l =
    ap (λ x. all_rows x) due_round
    ∙ ap (λ x. all_rows (write c now over_budget fresh acknowledged x))
        (with_gaps_again text (fill c w) i e)
    ∙ again_all_rows c now over_budget fresh i (fill c w) e p
  where
    some_batch :
        (leb 1
            (length (w.batch ++ take (c.recorder_segment_rows - length w.batch) w.recorder.queue))
          && true)
        ≡ true
    some_batch =
        rw
          (length-append w.batch (take (c.recorder_segment_rows - length w.batch) w.recorder.queue))
          (ground arith)

    due_round :
        round c text now over_budget true fresh acknowledged w
        ≡ write c now over_budget fresh acknowledged (with_gaps text (fill c w))
    due_round = rw (round, some_batch) refl
