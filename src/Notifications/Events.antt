-- ===== src/Notifications/Events.antt =====
-- `same_v22_execution_event` and the query for an open claim, told without their tests.
use bybitflow.Prelude.{
  ℕ, ◌≡◌, refl, sym, subst, ap, ◌∙◌, ◌↔◌, ◌⊎◌, inl, inr, Bool, true, false, ◌&&◌, ◌||◌, Option,
  none, some, List, [], ◌∷◌, Memᴰ, arith, any, ◌==◌, ==_iff, Bool-cases,
}
use bybitflow.Lifecycle.Signal.{Direction, long, short}
use bybitflow.Notifications.Keys.{Status, sending, sent, uncertain, rate_limited, rejected, refused}
use bybitflow.Notifications.Visibility.{same_direction}
use bybitflow.Notifications.Opportunity.{
  Opportunity, same_option, is_known, same_v22_execution_event,
}
use bybitflow.Notifications.Claims.{Claim, is_open, has_prior}

-- The plans have one execution event: the start of the event or the end of the bar that triggered
-- is known and the same, and the prices are the same in ticks of the first.
pub record IsSameEvent (rounded : Opportunity → ℕ → ℕ) (a b : Opportunity) : Type 0 where
  pub v22 : a.is_v22 ≡ true
  pub source : a.source ≡ b.source
  pub symbol : a.symbol ≡ b.symbol
  pub direction : a.direction ≡ b.direction
  pub horizon : a.horizon_profile ≡ b.horizon_profile
  pub event :
      ((t : ℕ) × ((a.event_start_ms ≡ some t) × (b.event_start_ms ≡ some t)))
      ⊎ ((t : ℕ) × ((a.trigger_bar_end ≡ some t) × (b.trigger_bar_end ≡ some t)))
  pub entry : rounded a a.entry ≡ rounded a b.entry
  pub stop : rounded a a.stop ≡ rounded a b.stop
  pub tp1 : rounded a a.tp1 ≡ rounded a b.tp1

known_same :
    (x y : Option ℕ)
    → ((is_known x && same_option x y) ≡ true) ↔ ((t : ℕ) × ((x ≡ some t) × (y ≡ some t)))
known_same none y = ((λ h. cc), (λ h. cc))
known_same (some a) none = ((λ h. cc), (λ h. cc))
known_same (some a) (some b) = ((λ h. (a, (refl, ap some (sym ((==_iff a b).0 h))))), back)
  where
    back : (t : ℕ) × ((some a ≡ some t) × (some b ≡ some t)) → (true && (a == b)) ≡ true
    back (t, (p, q)) = (==_iff a b).1 cc

direction_same : (x y : Direction) → (same_direction x y ≡ true) ↔ (x ≡ y)
unfolding same_direction
direction_same long long = ((λ h. refl), (λ h. refl))
direction_same long short = ((λ h. cc), (λ h. cc))
direction_same short long = ((λ h. cc), (λ h. cc))
direction_same short short = ((λ h. refl), (λ h. refl))

pub IsSameEvent-iff :
    (rounded : Opportunity → ℕ → ℕ) (a b : Opportunity)
    → (same_v22_execution_event rounded a b ≡ true) ↔ IsSameEvent rounded a b
unfolding same_v22_execution_event
IsSameEvent-iff rounded a b = (forth, back)
  where
    parts :
        (v s y d h k l p q r : Bool)
        → (v && ((s && (y && (d && h))) && ((k || l) && (p && (q && r))))) ≡ true
        → (v ≡ true)
          × (s ≡ true)
          × (y ≡ true)
          × (d ≡ true)
          × (h ≡ true)
          × ((k ≡ true) ⊎ (l ≡ true))
          × (p ≡ true)
          × (q ≡ true)
          × (r ≡ true)
    parts true true true true true true l true true true e =
        (refl, refl, refl, refl, refl, inl refl, refl, refl, refl)
    parts true true true true true false true true true true e =
        (refl, refl, refl, refl, refl, inr refl, refl, refl, refl)
    parts true true true true true false false p q r e = cc
    parts true true true true true true l false q r e = cc
    parts true true true true true true l true false r e = cc
    parts true true true true true true l true true false e = cc
    parts true true true true true false true false q r e = cc
    parts true true true true true false true true false r e = cc
    parts true true true true true false true true true false e = cc
    parts true true true true false k l p q r e = cc
    parts true true true false h k l p q r e = cc
    parts true true false d h k l p q r e = cc
    parts true false y d h k l p q r e = cc
    parts false s y d h k l p q r e = cc

    together :
        (v s y d h k l p q r : Bool)
        → (v ≡ true)
          × (s ≡ true)
          × (y ≡ true)
          × (d ≡ true)
          × (h ≡ true)
          × ((k ≡ true) ⊎ (l ≡ true))
          × (p ≡ true)
          × (q ≡ true)
          × (r ≡ true)
        → (v && ((s && (y && (d && h))) && ((k || l) && (p && (q && r))))) ≡ true
    together v s y d h k l p q r (e, f, g, i, j, inl m, n, o, t) = cc
    together v s y d h k l p q r (e, f, g, i, j, inr m, n, o, t) = elim (Bool-cases k) [
      | inl u ↦ cc
      | inr u ↦ cc
    ]

    forth : same_v22_execution_event rounded a b ≡ true → IsSameEvent rounded a b
    forth e =
        let (v, s, y, d, h, o, p, q, r) =
          parts a.is_v22 (a.source == b.source) (a.symbol == b.symbol)
            (same_direction a.direction b.direction) (a.horizon_profile == b.horizon_profile)
            (is_known a.event_start_ms && same_option a.event_start_ms b.event_start_ms)
            (is_known a.trigger_bar_end && same_option a.trigger_bar_end b.trigger_bar_end)
            (rounded a a.entry == rounded a b.entry) (rounded a a.stop == rounded a b.stop)
            (rounded a a.tp1 == rounded a b.tp1) e in
        record {
          v22 = v;
          source = (==_iff a.source b.source).0 s;
          symbol = (==_iff a.symbol b.symbol).0 y;
          direction = (direction_same a.direction b.direction).0 d;
          horizon = (==_iff a.horizon_profile b.horizon_profile).0 h;
          event = elim o [
            | inl k ↦ inl ((known_same a.event_start_ms b.event_start_ms).0 k)
            | inr k ↦ inr ((known_same a.trigger_bar_end b.trigger_bar_end).0 k)
          ];
          entry = (==_iff (rounded a a.entry) (rounded a b.entry)).0 p;
          stop = (==_iff (rounded a a.stop) (rounded a b.stop)).0 q;
          tp1 = (==_iff (rounded a a.tp1) (rounded a b.tp1)).0 r;
        }

    back : IsSameEvent rounded a b → same_v22_execution_event rounded a b ≡ true
    back i =
        together a.is_v22 (a.source == b.source) (a.symbol == b.symbol)
          (same_direction a.direction b.direction) (a.horizon_profile == b.horizon_profile)
          (is_known a.event_start_ms && same_option a.event_start_ms b.event_start_ms)
          (is_known a.trigger_bar_end && same_option a.trigger_bar_end b.trigger_bar_end)
          (rounded a a.entry == rounded a b.entry) (rounded a a.stop == rounded a b.stop)
          (rounded a a.tp1 == rounded a b.tp1)
          (
            i.v22,
            (==_iff a.source b.source).1 i.source,
            (==_iff a.symbol b.symbol).1 i.symbol,
            (direction_same a.direction b.direction).1 i.direction,
            (==_iff a.horizon_profile b.horizon_profile).1 i.horizon,
            known i.event,
            (==_iff (rounded a a.entry) (rounded a b.entry)).1 i.entry,
            (==_iff (rounded a a.stop) (rounded a b.stop)).1 i.stop,
            (==_iff (rounded a a.tp1) (rounded a b.tp1)).1 i.tp1,
          )
      where
        known :
            ((t : ℕ) × ((a.event_start_ms ≡ some t) × (b.event_start_ms ≡ some t)))
              ⊎ ((t : ℕ) × ((a.trigger_bar_end ≡ some t) × (b.trigger_bar_end ≡ some t)))
            → ((is_known a.event_start_ms && same_option a.event_start_ms b.event_start_ms) ≡ true)
              ⊎ ((is_known a.trigger_bar_end && same_option a.trigger_bar_end b.trigger_bar_end)
                  ≡ true)
        known (inl k) = inl ((known_same a.event_start_ms b.event_start_ms).1 k)
        known (inr k) = inr ((known_same a.trigger_bar_end b.trigger_bar_end).1 k)

-- A claim of the plan whose message was sent, may have been sent or is on its way.
abbrev pub IsOpenClaim : ℕ → List Claim → Claim → Type 0
IsOpenClaim id cs c =
    Memᴰ c cs
    × (c.signal_id ≡ id)
    × ((c.delivery_status ≡ sent)
        ⊎ ((c.delivery_status ≡ uncertain) ⊎ (c.delivery_status ≡ sending)))

pub any_iff :
    {A : Type 0} (p : A → Bool) (xs : List A)
    → (any p xs ≡ true) ↔ ((x : A) × (Memᴰ x xs × (p x ≡ true)))
any_iff {A} p xs = (forth xs, λ e. back xs e.0 e.1.0 e.1.1)
  where
    forth : (xs : List A) → any p xs ≡ true → (x : A) × (Memᴰ x xs × (p x ≡ true))
    forth [] h = cc
    forth (x ∷ xs) h = elim (Bool-cases (p x)) [
      | inl e ↦ (x, (Memᴰ.head refl, e))
      | inr e ↦
          let (y, (m, k)) = forth xs (subst (λ b. (b || any p xs) ≡ true) e h) in
          (y, (Memᴰ.tail m, k))
    ]

    back : (xs : List A) (x : A) → Memᴰ x xs → p x ≡ true → any p xs ≡ true
    back [] x m h = elim m [ ]
    back (y ∷ xs) x (Memᴰ.head e) h = rw (sym (ap p e) ∙ h) refl
    back (y ∷ xs) x (Memᴰ.tail m) h = rw (back xs x m h) (ground arith)

open_iff : (st : Status) → (is_open st ≡ true) ↔ ((st ≡ sent) ⊎ ((st ≡ uncertain) ⊎ (st ≡ sending)))
unfolding is_open
open_iff sending = ((λ h. inr (inr refl)), (λ h. refl))
open_iff sent = ((λ h. inl refl), (λ h. refl))
open_iff uncertain = ((λ h. inr (inl refl)), (λ h. refl))
open_iff rate_limited = ((λ h. cc), never)
  where
    never :
        (rate_limited ≡ sent) ⊎ ((rate_limited ≡ uncertain) ⊎ (rate_limited ≡ sending))
        → false ≡ true
    never (inl e) = cc
    never (inr (inl e)) = cc
    never (inr (inr e)) = cc
open_iff rejected = ((λ h. cc), never)
  where
    never : (rejected ≡ sent) ⊎ ((rejected ≡ uncertain) ⊎ (rejected ≡ sending)) → false ≡ true
    never (inl e) = cc
    never (inr (inl e)) = cc
    never (inr (inr e)) = cc
open_iff (refused b) = ((λ h. cc), never)
  where
    never : (refused b ≡ sent) ⊎ ((refused b ≡ uncertain) ⊎ (refused b ≡ sending)) → false ≡ true
    never (inl e) = cc
    never (inr (inl e)) = cc
    never (inr (inr e)) = cc

pub prior_iff :
    (id : ℕ) (cs : List Claim) → (has_prior id cs ≡ true) ↔ ((c : Claim) × IsOpenClaim id cs c)
unfolding has_prior
prior_iff id cs = (forth, back)
  where
    test : Claim → Bool
    test c = (c.signal_id == id) && is_open c.delivery_status

    both : (a b : Bool) → (a && b) ≡ true → (a ≡ true) × (b ≡ true)
    both a b e = ground arith

    forth :
        any (λ (c : Claim). (c.signal_id == id) && is_open c.delivery_status) cs ≡ true
        → (c : Claim) × IsOpenClaim id cs c
    forth h =
        let (c, (m, k)) =
          (any_iff (λ (c : Claim). (c.signal_id == id) && is_open c.delivery_status) cs).0 h in
        let (a, b) = both (c.signal_id == id) (is_open c.delivery_status) k in
        (c, (m, (==_iff c.signal_id id).0 a, (open_iff c.delivery_status).0 b))

    back :
        (c : Claim) × IsOpenClaim id cs c
        → any (λ (c : Claim). (c.signal_id == id) && is_open c.delivery_status) cs ≡ true
    back (c, (m, e, o)) =
        (any_iff (λ (c : Claim). (c.signal_id == id) && is_open c.delivery_status) cs).1
          (c, (m, rw ((==_iff c.signal_id id).1 e, (open_iff c.delivery_status).1 o) refl))
