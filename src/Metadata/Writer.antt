-- ===== src/Metadata/Writer.antt =====
-- `MetadataWriter`: what is offered, read, written and given up. The task `run` is cut where it
-- gives up control: while it waits for the event, and while it sleeps before a row.
use bybitflow.Prelude.{
  ℕ, ◌+◌, ◌≡◌, Bool, true, false, not, ◌&&◌, Option, none, some, [], ◌∷◌, leb, ◌==◌, if◌then◌else◌,
  length,
}
use bybitflow.Metadata.Keys.{Key, is_global, diagnostic_key}
use bybitflow.Metadata.Dict.{Dict, lookup, assign, remove}

-- `(self.sequence, payload)`; payloads are texts that are only stored.
abbrev pub Value : Type 0
Value = ℕ × ℕ

abbrev pub same_value : Option Value → Value → Bool
same_value none v = false
same_value (some w) v = (w.0 == v.0) && (w.1 == v.1)

-- Where the task `run` stands.
pub data Place : Type 0 where
  at_wait at_sleep returned cancelled crashed : Place

pub record Writer : Type 0 where
  pub capacity : ℕ
  pub pending : Dict Value
  pub overlay : Dict Value
  pub sequence : ℕ
  pub stopping : Bool
  pub wakeup : Bool
  pub place : Place
  -- The table kv.
  pub kv : Dict ℕ
  -- The counters diagnostic_metadata_dropped, sqlite_busy_retries, diagnostic_metadata_failures and
  -- diagnostic_shutdown_unflushed.
  pub dropped : ℕ
  pub retries : ℕ
  pub failures : ℕ
  pub unflushed : ℕ

abbrev pub new : ℕ → Dict ℕ → Writer
new capacity kv = record {
  capacity = capacity;
  pending = [];
  overlay = [];
  sequence = 0;
  stopping = false;
  wakeup = false;
  place = at_wait;
  kv = kv;
  dropped = 0;
  retries = 0;
  failures = 0;
  unflushed = 0;
}

-- `next((name for name in self.pending if name not in DIAGNOSTIC_KEYS), None)`
unfoldable pub first_market : Dict Value → Option Key
first_market [] = none
first_market ((k, v) ∷ d) = if is_global k then first_market d else some k

abbrev pub first_key : Dict Value → Option Key
first_key [] = none
first_key ((k, v) ∷ d) = some k

-- `if self.overlay.get(old) == dropped: self.overlay.pop(old, None)`
abbrev pub pop_if : Key → Value → Dict Value → Dict Value
pop_if k v overlay = if same_value (lookup k overlay) v then remove k overlay else overlay

-- `dropped = self.pending.pop(old)` and what follows it; `none` stands for a KeyError.
unfoldable pub evict : Key → Writer → Option Writer
evict old w = elim (lookup old w.pending) [
  | none ↦ none
  | some v ↦ some (record w {
    pending = remove old w.pending;
    overlay = pop_if old v w.overlay;
    dropped = w.dropped + 1;
  })
]

abbrev pub counted : Writer → Writer
counted w = record w { sequence = w.sequence + 1 }

abbrev pub stored : Key → Value → Writer → Writer
stored k v w = record w {
  pending = assign k v w.pending;
  overlay = assign k v w.overlay;
  wakeup = true;
}

-- What `offer` does: raise ValueError, raise StopIteration or KeyError, or return.
pub data Offered : Type 0 where
  critical nothing_to_evict : Offered
  offered : Writer → Offered

abbrev pub evicted_for : Key → Value → Option Writer → Offered
evicted_for k v none = nothing_to_evict
evicted_for k v (some w) = offered (stored k v w)

-- A new key when the queue is full.
unfoldable pub displace : Key → Value → Writer → Offered
displace k v w = elim (first_market w.pending) [
  | some old ↦ evicted_for k v (evict old w)
  | none ↦
      if is_global k
      then elim (first_key w.pending) [
        | none ↦ nothing_to_evict
        | some old ↦ evicted_for k v (evict old w)
      ]
      else offered (record w { dropped = w.dropped + 1 })
]

abbrev pub is_held : Option Value → Bool
is_held none = false
is_held (some v) = true

-- `offer(key, payload)`
unfoldable pub offer : Key → ℕ → Writer → Offered
offer k payload w =
    if not (diagnostic_key k)
    then critical
    else if not (is_held (lookup k w.pending)) && leb w.capacity (length w.pending)
    then displace k (w.sequence + 1, payload) (counted w)
    else offered (stored k (w.sequence + 1, payload) (counted w))

-- `read(key)`
abbrev pub shown : Option Value → Option ℕ
shown none = none
shown (some v) = some v.1

abbrev pub read : Key → Writer → Option ℕ
read k w = shown (lookup k w.overlay)

-- What the database does with a row; `corrupt` is an error that is no OperationalError.
pub data Write : Type 0 where
  written locked write_failed corrupt : Write

-- What a turn of `run` does after its sleep: raise KeyError at an empty queue, go on, or end with
-- the error of the database.
pub data Turn : Type 0 where
  key_error : Turn
  turned died : Writer → Turn

-- `if not self.pending: …`
abbrev pub settled : Writer → Writer
settled w = elim w.pending [
  | [] ↦ record w { wakeup = false; place = if w.stopping then returned else at_wait }
  | e ∷ d ↦ record w { place = at_wait }
]

-- `self.pending.setdefault(key, value)`
abbrev pub set_default : Key → Value → Dict Value → Dict Value
set_default k v d = elim (lookup k d) [ none ↦ assign k v d | some w ↦ d ]

-- The turn, with `self.db.in_transaction` as its first argument.
unfoldable pub turn : Bool → Write → Writer → Turn
turn true o w = turned (record w { place = at_wait })
turn false o w = elim w.pending [
  | [] ↦ key_error
  | e ∷ rest ↦ elim o [
    | written ↦ turned (
        settled (record w {
          pending = rest;
          overlay = pop_if e.0 e.1 w.overlay;
          kv = assign e.0 e.1.1 w.kv;
        }))
    | locked ↦
        turned (settled (record w { pending = set_default e.0 e.1 rest; retries = w.retries + 1 }))
    | write_failed ↦ turned (
        settled (record w {
          pending = rest;
          overlay = pop_if e.0 e.1 w.overlay;
          failures = w.failures + 1;
        }))
    | corrupt ↦ died (record w { pending = rest; place = crashed })
  ]
]

-- The event is set: the task leaves its wait, to sleep or to return.
unfoldable pub wake : Writer → Writer
wake w = record w {
  place = if w.stopping then elim w.pending [ [] ↦ returned | e ∷ d ↦ at_sleep ] else at_sleep;
}

-- `close` up to its wait, and `abort`, which follows when the wait is too long.
abbrev pub close : Writer → Writer
close w = record w { stopping = true; wakeup = true }

unfoldable pub abort : Writer → Writer
abort w = record w {
  unflushed = w.unflushed + (elim w.pending [ [] ↦ 0 | e ∷ d ↦ 1 ]);
  place = cancelled;
  pending = [];
  overlay = [];
}

-- One step of the loop, whoever takes it.
pub data Step : Writer → Writer → Type 0 where
  offers : (k : Key) (p : ℕ) {w x : Writer} → offer k p w ≡ offered x → Step w x
  wakes : {w : Writer} → w.place ≡ at_wait → w.wakeup ≡ true → Step w (wake w)
  turns :
      (busy : Bool) (o : Write) {w x : Writer}
      → w.place ≡ at_sleep
      → turn busy o w ≡ turned x
      → Step w x
  dies :
      (busy : Bool) (o : Write) {w x : Writer}
      → w.place ≡ at_sleep
      → turn busy o w ≡ died x
      → Step w x
  closes : {w : Writer} → Step w (close w)
  aborts : {w : Writer} → Step w (abort w)

-- The writers that a store can have.
pub data Reach (capacity : ℕ) (kv : Dict ℕ) : Writer → Type 0 where
  starts : Reach capacity kv (new capacity kv)
  steps : {w x : Writer} → Reach capacity kv w → Step w x → Reach capacity kv x
