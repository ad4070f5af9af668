-- ===== src/Orderflow/Book/Tests.antt =====
-- Books at concrete messages.
use bybitflow.Prelude.{◌≡◌, refl, true, false, [], ◌∷◌}
use bybitflow.Prelude.Int.{pos}
use bybitflow.Orderflow.Book.State.{Message, gap, before_snapshot, new, apply}
use bybitflow.Orderflow.Book.Body.{new-IsBook}
use bybitflow.Orderflow.Book.Outcome.{Outcome, apply-Outcome}
use bybitflow.Orderflow.Book.Bounds.{IsBounded, new-IsBounded, apply-IsBounded}

abbrev full : Message
full = record {
  snapshot = true;
  u = 5;
  seq = 50;
  b = (pos 100, pos 3) ∷ (pos 99, pos 7) ∷ [];
  a = (pos 101, pos 2) ∷ [];
  event_ms = 1000;
}

abbrev delta : Message
delta = record {
  snapshot = false;
  u = 6;
  seq = 51;
  b = (pos 100, pos 0) ∷ [];
  a = (pos 101, pos 4) ∷ [];
  event_ms = 1100;
}

early : (apply delta 1200 new).0 ≡ gap before_snapshot
unfolding apply new
early = refl

apply-Outcome_example : Outcome full 1010 new (apply full 1010 new)
apply-Outcome_example = apply-Outcome full 1010 new new-IsBook

apply-IsBounded_example : IsBounded (apply full 1010 new).1
apply-IsBounded_example = apply-IsBounded full 1010 new new-IsBounded
