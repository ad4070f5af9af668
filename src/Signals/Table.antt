-- ===== src/Signals/Table.antt =====
-- `Store.signal` and `Store.monitor` on the tables signals, transitions and terminal_events and on
-- the horizon counts. Left out are the writes to research tables, which take their own rows, and
-- the preservation of frozen fields (Signals/Freeze) is an argument here.
use bybitflow.Prelude.{
  ℕ, ◌+◌, Bool, true, false, not, ◌&&◌, ◌||◌, Option, none, some, List, [], ◌∷◌, ◌==◌,
  if◌then◌else◌, select,
}
use bybitflow.Lifecycle.Signal.{
  State, watchlist, pending_confirmation, confirmed, alerted, invalidated, expired, resolved,
  is_terminal,
}
use bybitflow.Signals.Merge.{Dict, monitored_at, merge_coverage, fill_evidence, entry_keys}

-- The columns of a plan and the parts of its payload that the store reads.
pub record Payload : Type 0 where
  pub id : ℕ
  pub created_ms : ℕ
  pub state : State
  pub synthetic : Bool
  pub from_tradingview : Bool
  pub horizon_profile : ℕ
  pub evidence : Dict
  pub coverage : Dict

pub record Transition : Type 0 where
  pub signal_id : ℕ
  pub at_ms : ℕ
  pub state : State
  pub reason : ℕ

-- The text of the event is left out; `notification_status` is "pending" or "unseen".
pub record TerminalEvent : Type 0 where
  pub signal_id : ℕ
  pub terminal_state : State
  pub is_pending : Bool

pub record Tables : Type 0 where
  pub signals : List Payload
  pub transitions : List Transition
  pub terminal_events : List TerminalEvent
  pub horizon_counts : Dict

unfoldable pub find : ℕ → List Payload → Option Payload
find id [] = none
find id (p ∷ ps) = if p.id == id then some p else find id ps

-- INSERT OR REPLACE by primary key.
unfoldable pub replace : Payload → List Payload → List Payload
replace p [] = p ∷ []
replace p (q ∷ qs) = if q.id == p.id then p ∷ qs else q ∷ replace p qs

abbrev pub state_code : State → ℕ
state_code watchlist = 0
state_code pending_confirmation = 1
state_code confirmed = 2
state_code alerted = 3
state_code invalidated = 4
state_code expired = 5
state_code resolved = 6

abbrev pub same_state : State → State → Bool
same_state a b = state_code a == state_code b

-- The lines before `with self.db`, for a plan whose stored payload is `old`.
unfoldable pub merged : Payload → Payload → Payload
merged old p = record p {
  evidence = fill_evidence entry_keys old.evidence p.evidence;
  coverage = merge_coverage (monitored_at old.coverage) old.coverage p.coverage;
}

unfoldable pub has_event : ℕ → List TerminalEvent → Bool
has_event id [] = false
has_event id (e ∷ es) = (e.signal_id == id) || has_event id es

-- INSERT OR IGNORE INTO terminal_events.
unfoldable pub with_event : Bool → Payload → List TerminalEvent → List TerminalEvent
with_event delivered p es =
    if is_terminal p.state && not (has_event p.id es)
    then record { signal_id = p.id; terminal_state = p.state; is_pending = delivered } ∷ es
    else es

-- `if not old or old[0] != signal.state`
abbrev pub is_transition : Option Payload → Payload → Bool
is_transition none p = true
is_transition (some old) p = not (same_state old.state p.state)

abbrev pub transitioned : ℕ → ℕ → Option Payload → Payload → List Transition → List Transition
transitioned now reason old p ts =
    if is_transition old p
    then record { signal_id = p.id; at_ms = now; state = p.state; reason = reason } ∷ ts
    else ts

abbrev pub counted : Option Payload → Payload → Dict → Dict
counted none p counts =
    bybitflow.Signals.Merge.assign p.horizon_profile
      (bybitflow.Signals.Merge.get_or (bybitflow.Signals.Merge.lookup p.horizon_profile counts) 0
        + 1)
      counts
counted (some old) p counts = counts

unfoldable pub written : Bool → ℕ → ℕ → Option Payload → Payload → Tables → Tables
written delivered now reason old p t = record {
  signals = replace p t.signals;
  transitions = transitioned now reason old p t.transitions;
  terminal_events = with_event delivered p t.terminal_events;
  horizon_counts = counted old p t.horizon_counts;
}

-- How `signal` ends: it raises for a synthetic plan or a retired source, returns early for a plan
-- that has ended, or writes.
pub data Saved : Type 0 where
  synthetic_refused retired already_ended saved : Saved

-- `delivered` says for an id whether its initial message was sent, and `preserve` takes the stored
-- payload and the new one.
module _ (preserve : Payload → Payload → Payload) (delivered : ℕ → Bool) (now reason : ℕ) where
  -- A plan without a row: `retired` is `signal.source == "tradingview"`.
  unfoldable pub save_new : Bool → Payload → Tables → Saved × Tables
  save_new true p t = (retired, t)
  save_new false p t = (saved, written (delivered p.id) now reason none p t)

  -- A plan with a row, which has ended or not.
  unfoldable pub save_old : Bool → Payload → Payload → Tables → Saved × Tables
  save_old true old p t = (already_ended, t)
  save_old false old p t =
      (saved, written (delivered p.id) now reason (some old) (merged old (preserve old p)) t)

  unfoldable pub save_found : Option Payload → Payload → Tables → Saved × Tables
  save_found none p t = save_new p.from_tradingview p t
  save_found (some old) p t = save_old (is_terminal old.state) old p t

  -- `signal(signal, reason)`
  unfoldable pub save : Payload → Tables → Saved × Tables
  save p t = if p.synthetic then (synthetic_refused, t) else save_found (find p.id t.signals) p t

-- UPDATE signals SET payload WHERE id AND state.
unfoldable pub update : Payload → List Payload → List Payload
update p [] = []
update p (q ∷ qs) = (if (q.id == p.id) && same_state q.state p.state then p else q) ∷ update p qs

abbrev pub frozen : (Payload → Payload → Payload) → Option Payload → Payload → Payload
frozen preserve none p = p
frozen preserve (some old) p = preserve old p

-- `monitor(signal)`
unfoldable pub monitor : (Payload → Payload → Payload) → Payload → Tables → Tables
monitor preserve p t = record t {
  signals = update (frozen preserve (find p.id t.signals) p) t.signals;
}

-- The rows of `active_signals`, before they are put in order.
unfoldable pub active_signals : Tables → List Payload
active_signals t = select (λ p. not (is_terminal p.state)) t.signals
