-- ===== src/Signals/Freeze.antt =====
-- `preserve` of src/bybit_flow/v2.py and of src/bybit_flow/setup_freeze.py: a stored plan keeps its
-- frozen fields and evidence when it is saved again.
use bybitflow.Prelude.{
  ℕ, ◌≡◌, refl, Bool, true, false, none, some, List, [], ◌∷◌, ◌==◌, if◌then◌else◌,
}
use bybitflow.Signals.Merge.{Dict, lookup, assign}
use bybitflow.Signals.Table.{Payload}
use bybitflow.Signals.Terminal.{IsPreserving}

-- `evidence.pop(name, None)`
unfoldable pub remove : ℕ → Dict → Dict
remove k [] = []
remove k (e ∷ d) = if e.0 == k then remove k d else e ∷ remove k d

-- The loop over the frozen evidence.
unfoldable pub freeze_evidence : List ℕ → Dict → Dict → Dict
freeze_evidence [] saved evidence = evidence
freeze_evidence (k ∷ ks) saved evidence =
    freeze_evidence ks saved
      (elim (lookup k saved) [ none ↦ remove k evidence | some v ↦ assign k v evidence ])

-- Both loops, with the keys of the frozen evidence; of the frozen fields a payload has four.
unfoldable pub freeze : List ℕ → Payload → Payload → Payload
freeze keys old p = record p {
  id = old.id;
  created_ms = old.created_ms;
  from_tradingview = old.from_tradingview;
  horizon_profile = old.horizon_profile;
  evidence = freeze_evidence keys old.evidence p.evidence;
}

-- The evidence keys that go with a plan from before the cutover.
unfoldable pub discard : List ℕ → Payload → Payload
discard keys p = record p { evidence = without keys p.evidence }
  where
    without : List ℕ → Dict → Dict
    without [] evidence = evidence
    without (k ∷ ks) evidence = without ks (remove k evidence)

-- The two functions in the order in which `Store.signal` calls them. `is_before` says of a stored
-- plan whether it is from before the cutover, `is_published` whether it is a published plan of the
-- current policy.
unfoldable pub preserve :
    (Payload → Bool) → (Payload → Bool) → List ℕ → List ℕ → List ℕ → Payload → Payload → Payload
preserve is_before is_published frozen dropped evidence old p =
    let q = if is_before old then discard dropped (freeze frozen old p) else p in
    if is_published old then freeze evidence old q else q

pub preserve-IsPreserving :
    (is_before is_published : Payload → Bool) (frozen dropped evidence : List ℕ)
    → IsPreserving (preserve is_before is_published frozen dropped evidence)
unfolding preserve freeze discard
preserve-IsPreserving is_before is_published frozen dropped evidence = record {
  same_id = λ old p e. go old p e (is_before old) (is_published old);
}
  where
    go :
        (old p : Payload)
        → old.id ≡ p.id
        → (a b : Bool)
        → (if b
            then freeze evidence old (if a then discard dropped (freeze frozen old p) else p)
            else (if a then discard dropped (freeze frozen old p) else p)).id
          ≡ p.id
    go old p e a true = e
    go old p e true false = e
    go old p e false false = refl
