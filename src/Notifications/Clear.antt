-- ===== src/Notifications/Clear.antt =====
-- When `initial_delivery_block` lets the first message of a plan go out.
use bybitflow.Prelude.{
  ℕ, ◌+◌, ◌≤◌, ◌≡◌, refl, ap, ◌↔◌, Bool, true, false, not, ◌&&◌, Option, none, some, List, [], ◌∷◌,
  arith, leb, ltb, if◌then◌else◌, All,
}
use bybitflow.Lifecycle.Signal.{is_terminal}
use bybitflow.Notifications.Keys.{terminal_setup, entry_window_expired, entry_window_too_short}
use bybitflow.Notifications.Visibility.{
  Plan, View, opposes, opposing_among, opposing_visible_setup, entry_deadline, opposed,
  window_block, current_block, initial_delivery_block, stored,
}

-- The plan that is judged: the stored one, which must not have ended, else the one at hand.
pub data Current (v : View) (id : ℕ) (signal : Option Plan) (p : Plan) : Type 0 where
  from_store : stored id v.signals ≡ some p → is_terminal p.state ≡ false → Current v id signal p
  at_hand : stored id v.signals ≡ none → signal ≡ some p → Current v id signal p

module _ (allowed : Plan → Plan → Bool) where
  -- There are 15 s left to enter, and every visible plan that opposes is one that may coexist.
  pub record IsClear (v : View) (p : Plan) : Type 0 where
    pub in_time : v.now + 15000 ≤ entry_deadline p
    pub may_coexist : All (λ q. opposes v p q ≡ true → allowed p q ≡ true) v.signals

  opposing_none :
      (v : View) (p : Plan) (ps : List Plan)
      → opposing_among allowed v p ps ≡ none
      → All (λ q. opposes v p q ≡ true → allowed p q ≡ true) ps
  unfolding opposing_among
  opposing_none v p [] h = tt
  opposing_none v p (q ∷ ps) h = go (λ e. opposing_none v p ps e) (opposes v p q) (allowed p q) h
    where
      go :
          (opposing_among allowed v p ps ≡ none
            → All (λ x. opposes v p x ≡ true → allowed p x ≡ true) ps)
          → (a b : Bool) → (if a && not b then some q.id else opposing_among allowed v p ps) ≡ none
          → (a ≡ true → b ≡ true) × All (λ x. opposes v p x ≡ true → allowed p x ≡ true) ps
      go ih true true e = ((λ k. refl), ih e)
      go ih true false e = cc
      go ih false b e = ((λ k. cc), ih e)

  none_opposing :
      (v : View) (p : Plan) (ps : List Plan)
      → All (λ q. opposes v p q ≡ true → allowed p q ≡ true) ps
      → opposing_among allowed v p ps ≡ none
  unfolding opposing_among
  none_opposing v p [] h = refl
  none_opposing v p (q ∷ ps) h = go (none_opposing v p ps h.1) (opposes v p q) (allowed p q) h.0
    where
      go :
          opposing_among allowed v p ps ≡ none
          → (a b : Bool) → (a ≡ true → b ≡ true)
          → (if a && not b then some q.id else opposing_among allowed v p ps) ≡ none
      go ih true true k = ih
      go ih true false k = absurd (k refl)
        where
          absurd : {A : Type 0} → false ≡ true → A
          absurd c = cc
      go ih false b k = ih

  opposed-none : (o : Option ℕ) → opposed o ≡ none → o ≡ none
  unfolding opposed
  opposed-none none h = refl
  opposed-none (some a) h = cc

  window-IsClear : (v : View) (p : Plan) → window_block allowed v p ≡ none → IsClear v p
  unfolding window_block opposing_visible_setup
  window-IsClear v p h =
      go (leb (entry_deadline p) v.now) (ltb (entry_deadline p) (v.now + 15000)) refl h
    where
      later : ltb (entry_deadline p) (v.now + 15000) ≡ false → v.now + 15000 ≤ entry_deadline p
      later e = bound (entry_deadline p) (v.now + 15000) e
        where
          bound : (a b : ℕ) → ltb a b ≡ false → b ≤ a
          bound a b k = ground arith

      go :
          (a b : Bool)
          → ltb (entry_deadline p) (v.now + 15000) ≡ b
          → (if a
              then some entry_window_expired
              else if b
              then some entry_window_too_short
              else opposed (opposing_among allowed v p v.signals))
            ≡ none
          → IsClear v p
      go true b e k = cc
      go false true e k = cc
      go false false e k = record {
        in_time = later e;
        may_coexist =
            opposing_none v p v.signals (opposed-none (opposing_among allowed v p v.signals) k);
      }

  window_of_IsClear : (v : View) (p : Plan) → IsClear v p → window_block allowed v p ≡ none
  unfolding window_block opposing_visible_setup opposed
  window_of_IsClear v p h =
      rw
        (
          window_block,
          not_expired (entry_deadline p) v.now h.in_time,
          long_enough (entry_deadline p) (v.now + 15000) h.in_time,
        )
        (ap opposed (none_opposing v p v.signals h.may_coexist))
    where
      not_expired : (a b : ℕ) → b + 15000 ≤ a → leb a b ≡ false
      not_expired a b k = ground arith

      long_enough : (a b : ℕ) → b ≤ a → ltb a b ≡ false
      long_enough a b k = ground arith

  pub block-Current :
      (v : View) (id : ℕ) (signal o : Option Plan)
      → stored id v.signals ≡ o
      → current_block allowed v o signal ≡ none
      → (p : Plan) × (Current v id signal p × IsClear v p)
  unfolding current_block
  block-Current v id signal (some p) e h = go (is_terminal p.state) refl h
    where
      go :
          (b : Bool)
          → is_terminal p.state ≡ b
          → (if b then some terminal_setup else window_block allowed v p) ≡ none
          → (q : Plan) × (Current v id signal q × IsClear v q)
      go true f k = cc
      go false f k = (p, (from_store e f, window-IsClear v p k))
  block-Current v id (some p) none e h = (p, (at_hand e refl, window-IsClear v p h))
  block-Current v id none none e h = cc

  block_of_Current :
      (v : View) (id : ℕ) (signal : Option Plan) (p : Plan)
      → Current v id signal p
      → IsClear v p
      → current_block allowed v (stored id v.signals) signal ≡ none
  unfolding current_block
  block_of_Current v id signal p (from_store e f) h =
      rw (e, current_block, f) (window_of_IsClear v p h)
  block_of_Current v id signal p (at_hand e f) h =
      rw (e, f, current_block) (window_of_IsClear v p h)

  -- An initial message is not blocked exactly if its plan, as stored and not ended, or as given
  -- where none is stored, has 15 seconds or more left to enter, and every visible active plan of
  -- the opposite direction on its symbol is one that `assess` lets coexist.
  pub unblocked_iff :
      (v : View) (id : ℕ) (signal : Option Plan)
      → (initial_delivery_block allowed v id signal ≡ none)
        ↔ ((p : Plan) × (Current v id signal p × IsClear v p))
  unfolding initial_delivery_block current_block
  unblocked_iff v id signal = (block-Current v id signal (stored id v.signals) refl, λ h. back h)
    where
      back :
          (p : Plan) × (Current v id signal p × IsClear v p)
          → current_block allowed v (stored id v.signals) signal ≡ none
      back (p, (c, h)) = block_of_Current v id signal p c h
