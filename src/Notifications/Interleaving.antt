-- ===== src/Notifications/Interleaving.antt =====
-- Any number of deliveries at once, in any interleaving, which crashes may stop anywhere.
use bybitflow.Prelude.{ℕ, ◌+◌, ◌≡◌, Bool, List, [], ◌∷◌, ◌++◌, if◌then◌else◌}
use bybitflow.Notifications.Keys.{
  Key, same_key, Status, sending, sent, uncertain, rate_limited, rejected, refused,
}
use bybitflow.Notifications.Visibility.{Plan}
use bybitflow.Notifications.Outbox.{
  Store, Request, Inputs, Phase, started, opened, claimed, reset, passed, marked, posted, closing,
  done, advance,
}

pub record Task : Type 0 where
  pub request : Request
  pub phase : Phase

pub record System : Type 0 where
  pub store : Store
  pub tasks : List Task

abbrev pub advanced : (Plan → Plan → Bool) → Inputs → Task → Store → Task
advanced allowed i t s = record t { phase = (advance allowed i t.request t.phase s).0 }

-- A call begins, a delivery takes its next step on what it reads then, or it stops for good: an
-- exception, a cancellation, or the end of its process.
pub data Step (allowed : Plan → Plan → Bool) (s : System) : System → Type 0 where
  call :
      (r : Request)
      → Step allowed s (record s { tasks = (record { request = r; phase = started }) ∷ s.tasks })
  run :
      (before after : List Task) (t : Task) (i : Inputs)
      → s.tasks ≡ before ++ t ∷ after
      → Step allowed s (record {
        store = (advance allowed i t.request t.phase s.store).1;
        tasks = before ++ advanced allowed i t s.store ∷ after;
      })
  stop :
      (before after : List Task) (t : Task)
      → s.tasks ≡ before ++ t ∷ after
      → Step allowed s (record s { tasks = before ++ after })

-- A history that starts with an outbox without rows, or goes on from one.
pub data Reach (allowed : Plan → Plan → Bool) (s : System) : System → Type 0 where
  begin : Reach allowed s s
  next : {t u : System} → Reach allowed s t → Step allowed t u → Reach allowed s u

-- Whether a delivery holds the claim of its key, and whether it holds it and has made no POST.
abbrev pub live : Phase → ℕ
live started = 0
live (opened safe) = 0
live claimed = 1
live reset = 1
live passed = 1
live marked = 1
live posted = 1
live (closing st m) = 1
live (done a) = 0

abbrev pub unsent_status : Status → ℕ
unsent_status (refused b) = 1
unsent_status sending = 0
unsent_status sent = 0
unsent_status uncertain = 0
unsent_status rate_limited = 0
unsent_status rejected = 0

abbrev pub unsent : Phase → ℕ
unsent started = 0
unsent (opened safe) = 0
unsent claimed = 1
unsent reset = 1
unsent passed = 1
unsent marked = 1
unsent posted = 0
unsent (closing st m) = unsent_status st
unsent (done a) = 0

abbrev pub weight : (Phase → ℕ) → Key → Task → ℕ
weight f k t = if same_key t.request.key k then f t.phase else 0

abbrev pub total : (Phase → ℕ) → Key → List Task → ℕ
total f k [] = 0
total f k (t ∷ ts) = weight f k t + total f k ts

-- How many POST requests were made for a key.
unfoldable pub posts_of : Key → List Key → ℕ
posts_of k [] = 0
posts_of k (j ∷ js) = let rest = posts_of k js in if same_key j k then 1 + rest else rest
