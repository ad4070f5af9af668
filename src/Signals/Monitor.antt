-- ===== src/Signals/Monitor.antt =====
-- `monitor` and the states of the plans.
use bybitflow.Prelude.{
  ℕ, ◌≡◌, refl, sym, ap, ◌∙◌, Bool, true, false, ◌&&◌, Option, none, some, List, [], ◌∷◌, arith,
  ◌==◌, if◌then◌else◌, Bool-cases, inl, inr,
}
use bybitflow.Lifecycle.Signal.{State}
use bybitflow.Signals.Table.{Payload, Tables, find, frozen, update, monitor, same_state, state_code}

abbrev pub state_of : Option Payload → Option State
state_of none = none
state_of (some p) = some p.state

decode : ℕ → State
decode n =
    if n == 0
    then State.watchlist
    else if n == 1
    then State.pending_confirmation
    else if n == 2
    then State.confirmed
    else if n == 3
    then State.alerted
    else if n == 4
    then State.invalidated
    else if n == 5
    then State.expired
    else State.resolved

decode-state_code : (a : State) → decode (state_code a) ≡ a
unfolding decode
decode-state_code State.watchlist = refl
decode-state_code State.pending_confirmation = refl
decode-state_code State.confirmed = refl
decode-state_code State.alerted = refl
decode-state_code State.invalidated = refl
decode-state_code State.expired = refl
decode-state_code State.resolved = refl

same_state-eq : (a b : State) → same_state a b ≡ true → a ≡ b
same_state-eq a b h = sym (decode-state_code a) ∙ ap decode (codes h) ∙ decode-state_code b
  where
    codes : (state_code a == state_code b) ≡ true → state_code a ≡ state_code b
    codes k = ground arith

same_head :
    (j i id : ℕ) (x y : Payload) (r s : Option Payload)
    → j ≡ i
    → y.state ≡ x.state
    → state_of r ≡ state_of s
    → state_of (if j == id then some x else r) ≡ state_of (if i == id then some y else s)
same_head j i id x y r s a b k = rw a (go (i == id))
  where
    go : (c : Bool) → state_of (if c then some x else r) ≡ state_of (if c then some y else s)
    go true = ap some (sym b)
    go false = k

find-update :
    (p : Payload) (id : ℕ) (ps : List Payload)
    → state_of (find id (update p ps)) ≡ state_of (find id ps)
unfolding find update
find-update p id [] = refl
find-update p id (q ∷ qs) = elim (Bool-cases ((q.id == p.id) && same_state q.state p.state)) [
  | inr h ↦ rw h (
      same_head q.id q.id id q q (find id (update p qs)) (find id qs) refl refl
        (find-update p id qs))
  | inl h ↦ rw h (
      same_head p.id q.id id p q (find id (update p qs)) (find id qs) (ids h)
        (same_state-eq q.state p.state (states h)) (find-update p id qs))
]
  where
    ids : ((q.id == p.id) && same_state q.state p.state) ≡ true → p.id ≡ q.id
    ids h = ground arith

    states :
        ((q.id == p.id) && same_state q.state p.state) ≡ true → same_state q.state p.state ≡ true
    states h = ground arith

-- Monitoring a plan changes the state of no plan.
pub monitor_keeps :
    (preserve : Payload → Payload → Payload) (p : Payload) (t : Tables) (id : ℕ)
    → state_of (find id (monitor preserve p t).signals) ≡ state_of (find id t.signals)
unfolding monitor
monitor_keeps preserve p t id = find-update (frozen preserve (find p.id t.signals) p) id t.signals
