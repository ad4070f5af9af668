-- ===== src/Orderflow/Book/BucketLaws.antt =====
-- What the second buckets keep: at most 120, one for each second, in order, all of one epoch.
use bybitflow.Prelude.{
  ℕ, zero, suc, ◌+◌, ◌-◌, ◌≤◌, ◌<◌, ◌≡◌, refl, ap, false, ◌||◌, none, some, List, [], ◌∷◌, ◌++◌,
  arith, ltb, ◌==◌, Option-cases, Bool-cases, inl, inr, All, All-append, All-drop, All-mono, length,
  drop, length-drop, last?,
}
use bybitflow.Orderflow.Book.Buckets.{
  Bucket, Flow, Observed, bucket_limit, append_bounded, second_of, continue_events, drop_disordered,
  open_bucket, ensure_bucket, observe_in, map_last, update_bucket,
}

pub length-append_bounded {ℓ} :
    {A : Type ℓ} (cap : ℕ) (xs : List A) (x : A) → length (append_bounded cap xs x) ≤ cap
length-append_bounded cap xs x =
    omega (arith, length-drop (length (xs ++ x ∷ []) - cap) (xs ++ x ∷ []))

abbrev pub Ascending : List Bucket → Type 0
Ascending [] = Unit {0}
Ascending (b ∷ bs) = All (λ c. b.second_ms < c.second_ms) bs × Ascending bs

abbrev Below : ℕ → List Bucket → Type 0
Below n = All (λ c. c.second_ms < n)

abbrev UpTo : ℕ → List Bucket → Type 0
UpTo n = All (λ c. c.second_ms ≤ n)

pub record IsFlow (f : Flow) : Type 0 where
  pub bounded : length f.ofi_buckets ≤ bucket_limit
  pub ascending : Ascending f.ofi_buckets
  pub current : All (λ b. b.epoch ≡ f.ofi_epoch) f.ofi_buckets

Ascending-snoc :
    (bs : List Bucket) (b : Bucket) → Ascending bs → Below b.second_ms bs → Ascending (bs ++ b ∷ [])
Ascending-snoc [] b a u = (tt, tt)
Ascending-snoc (c ∷ bs) b a u = (
  All-append (λ (d : Bucket). c.second_ms < d.second_ms) bs (b ∷ []) a.0 (u.0, tt),
  Ascending-snoc bs b a.1 u.1,
)

Ascending-drop : (n : ℕ) (bs : List Bucket) → Ascending bs → Ascending (drop n bs)
Ascending-drop zero bs a = a
Ascending-drop (suc n) [] a = tt
Ascending-drop (suc n) (b ∷ bs) a = Ascending-drop n bs a.1

last?-none : (bs : List Bucket) → last? bs ≡ none → bs ≡ []
last?-none [] e = refl
last?-none (b ∷ bs) e = ground arith

-- The last bucket has the greatest second.
last?-UpTo :
    (bs : List Bucket) (l : Bucket) → last? bs ≡ some l → Ascending bs → UpTo l.second_ms bs
last?-UpTo [] l e a = tt
last?-UpTo (b ∷ []) l e a = (ground arith, tt)
last?-UpTo (b ∷ c ∷ bs) l e a = let u = last?-UpTo (c ∷ bs) l (ground arith) a.1 in (omega arith, u)

-- Writing to the last bucket keeps every second, every epoch and the length.
map_last-seconds :
    (o : Observed) (g : Flow) (n : ℕ) (bs : List Bucket)
    → All (λ c. n < c.second_ms) bs
    → All (λ c. n < c.second_ms) (map_last (observe_in o g) bs)
unfolding observe_in
map_last-seconds o g n [] h = tt
map_last-seconds o g n (b ∷ []) h = h
map_last-seconds o g n (b ∷ c ∷ bs) h = (h.0, map_last-seconds o g n (c ∷ bs) h.1)

map_last-Ascending :
    (o : Observed) (g : Flow) (bs : List Bucket)
    → Ascending bs
    → Ascending (map_last (observe_in o g) bs)
map_last-Ascending o g [] a = tt
map_last-Ascending o g (b ∷ []) a = (tt, tt)
map_last-Ascending o g (b ∷ c ∷ bs) a =
    (map_last-seconds o g b.second_ms (c ∷ bs) a.0, map_last-Ascending o g (c ∷ bs) a.1)

map_last-epochs :
    (o : Observed) (g : Flow) (e : ℕ) (bs : List Bucket)
    → All (λ b. b.epoch ≡ e) bs
    → All (λ b. b.epoch ≡ e) (map_last (observe_in o g) bs)
unfolding observe_in
map_last-epochs o g e [] h = tt
map_last-epochs o g e (b ∷ []) h = h
map_last-epochs o g e (b ∷ c ∷ bs) h = (h.0, map_last-epochs o g e (c ∷ bs) h.1)

length-map_last :
    (o : Observed) (g : Flow) (bs : List Bucket) → length (map_last (observe_in o g) bs) ≡ length bs
length-map_last o g [] = refl
length-map_last o g (b ∷ []) = refl
length-map_last o g (b ∷ c ∷ bs) = ap suc (length-map_last o g (c ∷ bs))

-- After the disorder check no bucket is later than the event's second.
drop_disordered-IsFlow :
    (n : ℕ) (f : Flow)
    → IsFlow f
    → IsFlow (drop_disordered n f) × UpTo n (drop_disordered n f).ofi_buckets
unfolding drop_disordered
drop_disordered-IsFlow n f v = elim (Option-cases (last? f.ofi_buckets)) [
  | inl e ↦ rw (e, drop_disordered) (v, rw (last?-none f.ofi_buckets e) tt)
  | inr (b, e) ↦ elim (Bool-cases (ltb n b.second_ms)) [
    | inl h ↦
        rw (e, drop_disordered, h)
          (record { bounded = omega arith; ascending = tt; current = tt }, tt)
    | inr h ↦
        rw (e, drop_disordered, h)
          (
            v,
            All-mono (λ (c : Bucket). c.second_ms ≤ b.second_ms) (λ (c : Bucket). c.second_ms ≤ n)
                (λ x k. ground arith) f.ofi_buckets (last?-UpTo f.ofi_buckets b e v.ascending),
          )
  ]
]

-- A bucket for a later second goes behind the others.
append-IsFlow :
    (o : Observed) (f : Flow)
    → IsFlow f
    → Below (second_of o.receipt_ms) f.ofi_buckets
    → IsFlow
        (record f { ofi_buckets = append_bounded bucket_limit f.ofi_buckets (open_bucket o f) })
unfolding open_bucket
append-IsFlow o f v h = record {
  bounded = length-append_bounded bucket_limit f.ofi_buckets (open_bucket o f);
  ascending =
      Ascending-drop (length (f.ofi_buckets ++ open_bucket o f ∷ []) - bucket_limit) _
        (Ascending-snoc f.ofi_buckets (open_bucket o f) v.ascending h);
  current =
      All-drop (λ (b : Bucket). b.epoch ≡ f.ofi_epoch)
        (length (f.ofi_buckets ++ open_bucket o f ∷ []) - bucket_limit) _
        (All-append (λ (b : Bucket). b.epoch ≡ f.ofi_epoch) f.ofi_buckets (open_bucket o f ∷ [])
          v.current (refl, tt));
}

-- Below the second of the event, if the last bucket is of another second that is not later.
last?-Below :
    (n : ℕ) (bs : List Bucket) (l : Bucket)
    → last? bs ≡ some l
    → Ascending bs
    → UpTo n bs
    → (l.second_ms == n) ≡ false
    → Below n bs
last?-Below n [] l e a u h = tt
last?-Below n (b ∷ []) l e a u h = (ground arith, tt)
last?-Below n (b ∷ c ∷ bs) l e a u h =
    let k = last?-Below n (c ∷ bs) l (ground arith) a.1 u.1 h in (omega arith, k)

ensure_bucket-IsFlow :
    (o : Observed) (f : Flow)
    → IsFlow f
    → UpTo (second_of o.receipt_ms) f.ofi_buckets
    → IsFlow (ensure_bucket o f)
unfolding ensure_bucket
ensure_bucket-IsFlow o f v u = elim (Option-cases (last? f.ofi_buckets)) [
  | inl e ↦ rw (e, ensure_bucket) (append-IsFlow o f v (rw (last?-none f.ofi_buckets e) tt))
  | inr (b, e) ↦ elim (Bool-cases (b.second_ms == second_of o.receipt_ms)) [
    | inl h ↦ rw (e, ensure_bucket, h) v
    | inr h ↦
        rw (e, ensure_bucket, h)
          (append-IsFlow o f v
            (last?-Below (second_of o.receipt_ms) f.ofi_buckets b e v.ascending u h))
  ]
]

continue_events-IsFlow : (receipt : ℕ) (f : Flow) → IsFlow f → IsFlow (continue_events receipt f)
unfolding continue_events
continue_events-IsFlow receipt f v =
    elim (Bool-cases (
      (f.event_ofi_start_ms == 0)
      || (ltb receipt f.event_ofi_last_ms || ltb (f.event_ofi_last_ms + 5000) receipt))) [
        | inl e ↦
            rw (e, continue_events)
              (record { bounded = v.bounded; ascending = v.ascending; current = v.current })
        | inr e ↦
            rw (e, continue_events)
              (record { bounded = v.bounded; ascending = v.ascending; current = v.current })
      ]

-- If the buckets are at most 120, one for each second and in the order of the seconds, and all
-- carry the current epoch, then so they are after any observed event.
pub update_bucket-IsFlow : (o : Observed) (f : Flow) → IsFlow f → IsFlow (update_bucket o f)
unfolding update_bucket
update_bucket-IsFlow o f v =
    let d = drop_disordered (second_of o.receipt_ms) (continue_events o.receipt_ms f) in
    let g = ensure_bucket o d in
    let (vd, ud) =
      drop_disordered-IsFlow (second_of o.receipt_ms) (continue_events o.receipt_ms f)
        (continue_events-IsFlow o.receipt_ms f v) in
    let w : IsFlow g = ensure_bucket-IsFlow o d vd ud in
    record {
      bounded = rw (length-map_last o g g.ofi_buckets) w.bounded;
      ascending = map_last-Ascending o g g.ofi_buckets w.ascending;
      current = map_last-epochs o g g.ofi_epoch g.ofi_buckets w.current;
    }
