-- ===== src/Signals/Terminal.antt =====
-- A plan that has ended stays ended, with one terminal event.
use bybitflow.Prelude.{
  ℕ, ◌≡◌, ◌≢◌, refl, sym, subst, ap, ◌∙◌, Bool, true, false, not, ◌&&◌, Option, none, some, List,
  [], ◌∷◌, arith, ◌==◌, if◌then◌else◌, Bool-cases, inl, inr,
}
use bybitflow.Lifecycle.Signal.{is_terminal}
use bybitflow.Signals.Table.{
  Payload, Tables, TerminalEvent, find, replace, merged, has_event, with_event, written, save,
  save_new, save_old, save_found, synthetic_refused,
}

-- The preservation of frozen fields leaves the id of a plan alone.
pub record IsPreserving (preserve : Payload → Payload → Payload) : Type 0 where
  pub same_id : (old p : Payload) → old.id ≡ p.id → (preserve old p).id ≡ p.id

find_id : (id : ℕ) (q : Payload) (ps : List Payload) → find id ps ≡ some q → q.id ≡ id
unfolding find
find_id id q [] h = cc
find_id id q (p ∷ ps) h = go (λ k. find_id id q ps k) (p.id == id) refl h
  where
    same_payload : some p ≡ some q → p ≡ q
    same_payload c = cc

    equal : (p.id == id) ≡ true → p.id ≡ id
    equal e = ground arith

    go :
        (find id ps ≡ some q → q.id ≡ id)
        → (b : Bool) → (p.id == id) ≡ b
        → (if b then some p else find id ps) ≡ some q
        → q.id ≡ id
    go next true e k = sym (ap (λ (x : Payload). x.id) (same_payload k)) ∙ equal e
    go next false e k = next k

find-replace : (p : Payload) (ps : List Payload) → find p.id (replace p ps) ≡ some p
unfolding find replace
find-replace p [] = ground arith
find-replace p (q ∷ qs) = elim (Bool-cases (q.id == p.id)) [
  | inl h ↦ rw (replace, h) (ground arith)
  | inr h ↦ rw (replace, h, find, h) (find-replace p qs)
]

find-replace_other :
    (p : Payload) (id : ℕ) (ps : List Payload) → p.id ≢ id → find id (replace p ps) ≡ find id ps
unfolding find replace
find-replace_other p id [] n = ground arith
find-replace_other p id (q ∷ qs) n = elim (Bool-cases (q.id == p.id)) [
  | inl h ↦ rw (replace, h) (ground arith)
  | inr h ↦
      rw (replace, h, find)
        (ap (λ r. if q.id == id then some q else r) (find-replace_other p id qs n))
]

-- Every ended plan has its terminal event.
pub record IsEnded (t : Tables) : Type 0 where
  pub event :
      (id : ℕ) (p : Payload)
      → find id t.signals ≡ some p
      → is_terminal p.state ≡ true
      → has_event id t.terminal_events ≡ true

with_event_keeps :
    (d : Bool) (p : Payload) (es : List TerminalEvent) (id : ℕ)
    → has_event id es ≡ true
    → has_event id (with_event d p es) ≡ true
unfolding with_event has_event
with_event_keeps d p es id h = elim (Bool-cases (is_terminal p.state && not (has_event p.id es))) [
  | inl e ↦ rw (with_event, e) (rw h (ground arith))
  | inr e ↦ rw (with_event, e) h
]

with_event_adds :
    (d : Bool) (p : Payload) (es : List TerminalEvent)
    → is_terminal p.state ≡ true
    → has_event p.id (with_event d p es) ≡ true
unfolding with_event has_event
with_event_adds d p es h = elim (Bool-cases (is_terminal p.state && not (has_event p.id es))) [
  | inl e ↦ rw (with_event, e) (ground arith)
  | inr e ↦ rw (with_event, e) (ground arith)
]

written-IsEnded :
    (d : Bool) (now reason : ℕ) (o : Option Payload) (p : Payload) (t : Tables)
    → IsEnded t
    → IsEnded (written d now reason o p t)
unfolding written
written-IsEnded d now reason o p t h = record {
  event = λ id q f e. elim (Bool-cases (p.id == id)) [
    | inl s ↦ here id q (equal id s) f e
    | inr s ↦
        with_event_keeps d p t.terminal_events id
          (h.event id q (sym (find-replace_other p id t.signals (unequal id s)) ∙ f) e)
  ];
}
  where
    equal : (id : ℕ) → (p.id == id) ≡ true → p.id ≡ id
    equal id s = ground arith

    unequal : (id : ℕ) → (p.id == id) ≡ false → p.id ≢ id
    unequal id s = ground arith

    same_payload : {a b : Payload} → some a ≡ some b → a ≡ b
    same_payload e = cc

    here :
        (id : ℕ) (q : Payload)
        → p.id ≡ id
        → find id (replace p t.signals) ≡ some q
        → is_terminal q.state ≡ true
        → has_event id (with_event d p t.terminal_events) ≡ true
    here id q s f e =
        subst (λ i. has_event i (with_event d p t.terminal_events) ≡ true) s
          (with_event_adds d p t.terminal_events (
            subst (λ (x : Payload). is_terminal x.state ≡ true)
              (sym (
                same_payload
                  (sym (find-replace p t.signals) ∙ ap (λ i. find i (replace p t.signals)) s ∙ f)))
              e))

module _ (preserve : Payload → Payload → Payload) (delivered : ℕ → Bool) (now reason : ℕ) where
  save_new-IsEnded :
      (b : Bool) (p : Payload) (t : Tables)
      → IsEnded t
      → IsEnded (save_new preserve delivered now reason b p t).1
  unfolding save_new
  save_new-IsEnded true p t h = h
  save_new-IsEnded false p t h = written-IsEnded (delivered p.id) now reason none p t h

  save_old-IsEnded :
      (b : Bool) (old p : Payload) (t : Tables)
      → IsEnded t
      → IsEnded (save_old preserve delivered now reason b old p t).1
  unfolding save_old
  save_old-IsEnded true old p t h = h
  save_old-IsEnded false old p t h =
      written-IsEnded (delivered p.id) now reason (some old) (merged old (preserve old p)) t h

  save_found-IsEnded :
      (o : Option Payload) (p : Payload) (t : Tables)
      → IsEnded t
      → IsEnded (save_found preserve delivered now reason o p t).1
  unfolding save_found
  save_found-IsEnded none p t h = save_new-IsEnded p.from_tradingview p t h
  save_found-IsEnded (some old) p t h = save_old-IsEnded (is_terminal old.state) old p t h

  -- If every plan that has ended has a terminal event on record, so it is after a save.
  pub save-IsEnded :
      (p : Payload) (t : Tables) → IsEnded t → IsEnded (save preserve delivered now reason p t).1
  unfolding save
  save-IsEnded p t h = go p.synthetic
    where
      go :
          (b : Bool)
          → IsEnded
              (if b
                then (synthetic_refused, t)
                else save_found preserve delivered now reason (find p.id t.signals) p t).1
      go true = h
      go false = save_found-IsEnded (find p.id t.signals) p t h

  module _ (k : IsPreserving preserve) (id : ℕ) (q : Payload) (e : is_terminal q.state ≡ true) where
    save_new_keeps :
        (b : Bool) (p : Payload) (t : Tables)
        → find p.id t.signals ≡ none
        → find id t.signals ≡ some q
        → find id (save_new preserve delivered now reason b p t).1.signals ≡ some q
    unfolding save_new written
    save_new_keeps true p t m f = f
    save_new_keeps false p t m f =
        find-replace_other p id t.signals (λ s. clash (sym m ∙ ap (λ i. find i t.signals) s ∙ f))
        ∙ f
      where
        clash : {x : Payload} → none ≡ some x → ⊥
        clash c = cc

    save_old_keeps :
        (b : Bool) (old p : Payload) (t : Tables)
        → is_terminal old.state ≡ b
        → find p.id t.signals ≡ some old
        → find id t.signals ≡ some q
        → find id (save_old preserve delivered now reason b old p t).1.signals ≡ some q
    unfolding save_old written merged
    save_old_keeps true old p t g m f = f
    save_old_keeps false old p t g m f =
        find-replace_other (merged old (preserve old p)) id t.signals (λ s. apart (
          sym m
          ∙ ap (λ i. find i t.signals) (sym (k.same_id old p (find_id p.id old t.signals m)) ∙ s)
          ∙ f))
        ∙ f
      where
        contradiction : false ≡ true → ⊥
        contradiction d = cc

        same_payload : some old ≡ some q → old ≡ q
        same_payload c = cc

        apart : some old ≡ some q → ⊥
        apart c =
            contradiction
              (sym (subst (λ (x : Payload). is_terminal x.state ≡ false) (same_payload c) g) ∙ e)

    -- A plan that has ended is never written again, whatever is saved.
    pub save_keeps :
        (p : Payload) (t : Tables)
        → find id t.signals ≡ some q
        → find id (save preserve delivered now reason p t).1.signals ≡ some q
    unfolding save save_found
    save_keeps p t f = go p.synthetic
      where
        found :
            (o : Option Payload)
            → find p.id t.signals ≡ o
            → find id (save_found preserve delivered now reason o p t).1.signals ≡ some q
        found none m = save_new_keeps p.from_tradingview p t m f
        found (some old) m = save_old_keeps (is_terminal old.state) old p t refl m f

        go :
            (b : Bool)
            → find id
                (if b
                  then (synthetic_refused, t)
                  else save_found preserve delivered now reason (find p.id t.signals) p t).1.signals
              ≡ some q
        go true = f
        go false = found (find p.id t.signals) refl
