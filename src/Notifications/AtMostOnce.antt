-- ===== src/Notifications/AtMostOnce.antt =====
-- At most one POST for each key of the outbox, whatever deliveries run.
use bybitflow.Prelude.{
  ℕ, ◌+◌, ◌≤◌, ◌≡◌, refl, sym, subst, ap, ◌∙◌, Bool, true, false, Option, List, [], ◌∷◌, ◌++◌,
  arith, if◌then◌else◌,
}
use bybitflow.Notifications.Keys.{Key, same_key, Row, is_free}
use bybitflow.Notifications.Visibility.{Plan}
use bybitflow.Notifications.Outbox.{Request, Phase, started, advance}
use bybitflow.Notifications.Interleaving.{
  Task, System, advanced, Step, call, run, stop, Reach, begin, next, live, unsent, weight, total,
  posts_of,
}
use bybitflow.Notifications.Once.{IsOnce, unsent_le, run-IsOnce}

total-append :
    (f : Phase → ℕ) (k : Key) (xs ys : List Task)
    → total f k (xs ++ ys) ≡ total f k xs + total f k ys
total-append f k [] ys = omega arith
total-append f k (x ∷ xs) ys = omega (arith, total-append f k xs ys)

total_around :
    (f : Phase → ℕ) (k : Key) (xs ys : List Task) (t : Task)
    → total f k (xs ++ t ∷ ys) ≡ weight f k t + (total f k xs + total f k ys)
total_around f k xs ys t = omega (arith, total-append f k xs (t ∷ ys))

weight_le : (k : Key) (t : Task) → weight unsent k t ≤ weight live k t
weight_le k t = go (same_key t.request.key k)
  where
    go : (b : Bool) → (if b then unsent t.phase else 0) ≤ (if b then live t.phase else 0)
    go true = unsent_le t.phase
    go false = omega arith

total_le : (k : Key) (ts : List Task) → total unsent k ts ≤ total live k ts
total_le k [] = omega arith
total_le k (t ∷ ts) = omega (arith, weight_le k t, total_le k ts)

-- Every key is posted at most once and held at most once, and a key that is free to claim is not
-- held and was never posted.
unfoldable pub IsAtMostOnce : System → Type 0
IsAtMostOnce s =
    (k : Key)
    → IsOnce (total unsent k s.tasks) (total live k s.tasks) (posts_of k s.store.posts)
        (is_free k s.store.rows)

-- Fewer deliveries hold no more.
IsOnce-less : (p q l m n : ℕ) (free : Bool) → q ≤ p → m ≤ l → IsOnce p l n free → IsOnce q m n free
IsOnce-less p q l m n free x y (one, (posts, clear)) =
    (omega arith, (omega arith, λ e. none_left (clear e)))
  where
    none_left : (l ≡ 0) × (n ≡ 0) → (m ≡ 0) × (n ≡ 0)
    none_left (z, w) = (omega arith, w)

fresh_weight :
    (f : Phase → ℕ) (k : Key) (r : Request)
    → f started ≡ 0
    → weight f k (record { request = r; phase = started }) ≡ 0
fresh_weight f k r e = go (same_key r.key k)
  where
    go : (b : Bool) → (if b then f started else 0) ≡ 0
    go true = e
    go false = refl

module _ (allowed : Plan → Plan → Bool) where
  Step-IsAtMostOnce : (s u : System) → Step allowed s u → IsAtMostOnce s → IsAtMostOnce u
  unfolding IsAtMostOnce
  Step-IsAtMostOnce s _ (call r) h k =
      let t : Task = record { request = r; phase = started } in
      let x : weight unsent k t ≡ 0 = fresh_weight unsent k r refl in
      let y : weight live k t ≡ 0 = fresh_weight live k r refl in
      IsOnce-less (total unsent k s.tasks) (total unsent k (t ∷ s.tasks)) (total live k s.tasks)
        (total live k (t ∷ s.tasks)) (posts_of k s.store.posts) (is_free k s.store.rows)
        (omega arith) (omega arith) (h k)
  Step-IsAtMostOnce s _ (run before after t i e) h k =
      let v : Task = advanced allowed i t s.store in
      let a : ℕ = total unsent k before + total unsent k after in
      let b : ℕ = total live k before + total live k after in
      let le : a ≤ b = omega (arith, total_le k before, total_le k after) in
      subst
        (λ p.
          IsOnce p (total live k (before ++ v ∷ after))
            (posts_of k (advance allowed i t.request t.phase s.store).1.posts)
            (is_free k (advance allowed i t.request t.phase s.store).1.rows))
        (sym (total_around unsent k before after v))
        (subst
          (λ l.
            IsOnce (weight unsent k v + a) l
              (posts_of k (advance allowed i t.request t.phase s.store).1.posts)
              (is_free k (advance allowed i t.request t.phase s.store).1.rows))
          (sym (total_around live k before after v))
          (run-IsOnce allowed i t s.store k a b le (around e (h k))))
    where
      around :
          s.tasks ≡ before ++ t ∷ after
          → IsOnce
              (total unsent k s.tasks)
              (total live k s.tasks)
              (posts_of k s.store.posts)
              (is_free k s.store.rows)
          → IsOnce
              (weight unsent k t + (total unsent k before + total unsent k after))
              (weight live k t + (total live k before + total live k after))
              (posts_of k s.store.posts)
              (is_free k s.store.rows)
      around d g =
          subst
            (λ p.
              IsOnce p (weight live k t + (total live k before + total live k after))
                (posts_of k s.store.posts) (is_free k s.store.rows))
            (ap (λ ts. total unsent k ts) d ∙ total_around unsent k before after t)
            (subst
              (λ l.
                IsOnce (total unsent k s.tasks) l (posts_of k s.store.posts)
                  (is_free k s.store.rows))
              (ap (λ ts. total live k ts) d ∙ total_around live k before after t) g)
  Step-IsAtMostOnce s _ (stop before after t e) h k =
      IsOnce-less (total unsent k s.tasks) (total unsent k (before ++ after)) (total live k s.tasks)
        (total live k (before ++ after)) (posts_of k s.store.posts) (is_free k s.store.rows)
        (fewer unsent) (fewer live) (h k)
    where
      fewer : (f : Phase → ℕ) → total f k (before ++ after) ≤ total f k s.tasks
      fewer f =
          let x : total f k s.tasks ≡ total f k (before ++ t ∷ after) = ap (λ ts. total f k ts) e in
          let y : total f k (before ++ t ∷ after)
              ≡ weight f k t + (total f k before + total f k after) =
            total_around f k before after t in
          let z : total f k (before ++ after) ≡ total f k before + total f k after =
            total-append f k before after in
          omega arith

  -- From a system in which every key is posted and held at most once, and those that are free to
  -- claim neither, any history of calls, steps in any interleaving and crashes leads to one.
  pub Reach-IsAtMostOnce : (s u : System) → IsAtMostOnce s → Reach allowed s u → IsAtMostOnce u
  Reach-IsAtMostOnce s _ h begin = h
  Reach-IsAtMostOnce s _ h (next {t = m} {u = w} r st) =
      Step-IsAtMostOnce m w st (Reach-IsAtMostOnce s m h r)

empty-IsAtMostOnce :
    (rows : List Row) (d : ℕ → Option Bool) (w : ℕ → ℕ → Option ℕ) (v : ℕ → Option ℕ)
    → IsAtMostOnce (record {
      store = record {
        rows = rows;
        dispatched = d;
        delivered_to = w;
        initial_webhook = v;
        posts = [];
      };
      tasks = [];
    })
unfolding IsAtMostOnce posts_of
empty-IsAtMostOnce rows d w v k = (omega arith, (omega arith, λ e. (refl, refl)))

-- Whatever the outbox holds when the program starts, and whatever calls of `deliver` follow, with
-- their steps in any interleaving, on whatever they read, and with crashes anywhere: no key gets a
-- second POST.
pub one_post_per_key :
    (allowed : Plan → Plan → Bool) (rows : List Row) (d : ℕ → Option Bool) (w : ℕ → ℕ → Option ℕ)
    (v : ℕ → Option ℕ) (u : System) (k : Key)
    → Reach allowed
        (record {
          store = record {
            rows = rows;
            dispatched = d;
            delivered_to = w;
            initial_webhook = v;
            posts = [];
          };
          tasks = [];
        })
        u
    → posts_of k u.store.posts ≤ 1
unfolding IsAtMostOnce
one_post_per_key allowed rows d w v u k r =
    bound (Reach-IsAtMostOnce allowed _ u (empty-IsAtMostOnce rows d w v) r k).1.0
  where
    bound : total unsent k u.tasks + posts_of k u.store.posts ≤ 1 → posts_of k u.store.posts ≤ 1
    bound h = omega arith
