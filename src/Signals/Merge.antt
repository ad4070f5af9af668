-- ===== src/Signals/Merge.antt =====
-- `Store.signal`: what a save keeps of the evidence and the coverage that are stored already. Dicts keep the order
-- in which keys were first set, also through JSON.
use bybitflow.Prelude.{
  ℕ, ◌%◌, ◌≤◌, ◌<◌, ◌≡◌, ◌≢◌, refl, sym, ap, ◌∙◌, Bool, true, false, ◌||◌, ◌&&◌, Option, none, some,
  List, [], ◌∷◌, ◌++◌, arith, ltb, ◌==◌, if◌then◌else◌, All, Bool-cases, inl, inr,
}

-- Values are texts and numbers; only those of times are read.
abbrev pub Dict : Type 0
Dict = List (ℕ × ℕ)

unfoldable pub lookup : ℕ → Dict → Option ℕ
lookup k [] = none
lookup k (e ∷ d) = if e.0 == k then some e.1 else lookup k d

unfoldable pub assign : ℕ → ℕ → Dict → Dict
assign k v [] = (k, v) ∷ []
assign k v (e ∷ d) = if e.0 == k then (k, v) ∷ d else e ∷ assign k v d

abbrev pub get_or : Option ℕ → ℕ → ℕ
get_or none d = d
get_or (some v) d = v

-- The keys of the coverage: last_monitor_ms, last_checked_trade_id, those that start with "monitor_"
-- (the other even numbers), and all others.
abbrev pub last_monitor_ms : ℕ
last_monitor_ms = 0

abbrev pub last_checked_trade_id : ℕ
last_checked_trade_id = 1

abbrev pub is_tracked : ℕ → Bool
is_tracked k = k % 2 == 0 || (k == last_monitor_ms || k == last_checked_trade_id)

abbrev pub monitored_at : Dict → ℕ
monitored_at d = get_or (lookup last_monitor_ms d) 0

-- The loop over the saved coverage; `at` is its last_monitor_ms.
unfoldable pub merge_coverage : ℕ → Dict → Dict → Dict
merge_coverage at [] cov = cov
merge_coverage at (e ∷ saved) cov =
    merge_coverage at saved
      (if is_tracked e.0 && ltb (monitored_at cov) at then assign e.0 e.1 cov else cov)

-- The seven keys of the evidence that `setdefault` fills in are the numbers below 7.
unfoldable pub fill_evidence : List ℕ → Dict → Dict → Dict
fill_evidence [] saved evidence = evidence
fill_evidence (k ∷ ks) saved evidence = fill_evidence ks saved (elim (lookup k saved) [
  | none ↦ evidence
  | some v ↦ elim (lookup k evidence) [ none ↦ assign k v evidence | some w ↦ evidence ]
])

abbrev pub entry_keys : List ℕ
entry_keys = 0 ∷ 1 ∷ 2 ∷ 3 ∷ 4 ∷ 5 ∷ 6 ∷ []

pub lookup-assign : (k v : ℕ) (d : Dict) → lookup k (assign k v d) ≡ some v
unfolding lookup assign
lookup-assign k v [] = ground arith
lookup-assign k v (e ∷ d) = elim (Bool-cases (e.0 == k)) [
  | inl h ↦ rw (assign, h) (ground arith)
  | inr h ↦ rw (assign, h, lookup, h) (lookup-assign k v d)
]

pub lookup-assign_other : (k j v : ℕ) (d : Dict) → k ≢ j → lookup j (assign k v d) ≡ lookup j d
unfolding lookup assign
lookup-assign_other k j v [] n = ground arith
lookup-assign_other k j v (e ∷ d) n = elim (Bool-cases (e.0 == k)) [
  | inl h ↦ rw (assign, h) (ground arith)
  | inr h ↦
      rw (assign, h, lookup)
        (ap (λ r. if e.0 == j then some e.1 else r) (lookup-assign_other k j v d n))
]

-- A saved coverage that was not monitored later changes nothing.
pub merge_coverage_old :
    (at : ℕ) (saved cov : Dict) → at ≤ monitored_at cov → merge_coverage at saved cov ≡ cov
unfolding merge_coverage
merge_coverage_old at [] cov h = refl
merge_coverage_old at (e ∷ saved) cov h =
    rw (merge_coverage, kept) (merge_coverage_old at saved cov h)
  where
    kept : (is_tracked e.0 && ltb (monitored_at cov) at) ≡ false
    kept = ground arith

-- Where the saved coverage was monitored later, the keys that stand after its last_monitor_ms are not
-- taken over: they keep the value of the coverage that is being saved, whatever they are.
pub merge_coverage_cut :
    (at k : ℕ) (before after cov : Dict)
    → All (λ (e : ℕ × ℕ). e.0 ≢ last_monitor_ms) before
    → All (λ (e : ℕ × ℕ). e.0 ≢ k) before
    → k ≢ last_monitor_ms
    → monitored_at cov < at
    → lookup k (merge_coverage at (before ++ (last_monitor_ms, at) ∷ after) cov) ≡ lookup k cov
unfolding merge_coverage
merge_coverage_cut at k [] after cov a b n h =
    rw (merge_coverage, later)
      (ap (lookup k) (merge_coverage_old at after (assign 0 at cov) (now (lookup-assign 0 at cov)))
        ∙ lookup-assign_other 0 k at cov (λ e. n (sym e)))
  where
    later : ltb (monitored_at cov) at ≡ true
    later = ground arith

    now : lookup 0 (assign 0 at cov) ≡ some at → at ≤ get_or (lookup 0 (assign 0 at cov)) 0
    now e = rw e (omega arith)
merge_coverage_cut at k (e ∷ before) after cov a b n h =
    elim (Bool-cases (is_tracked e.0 && ltb (monitored_at cov) at)) [
      | inr f ↦ rw (merge_coverage, f) (merge_coverage_cut at k before after cov a.1 b.1 n h)
      | inl f ↦
          rw (merge_coverage, f)
            (merge_coverage_cut at k before after (assign e.0 e.1 cov) a.1 b.1 n
                (unmoved (lookup-assign_other e.0 0 e.1 cov a.0))
              ∙ lookup-assign_other e.0 k e.1 cov b.0)
    ]
  where
    unmoved :
        lookup 0 (assign e.0 e.1 cov) ≡ lookup 0 cov → get_or (lookup 0 (assign e.0 e.1 cov)) 0 < at
    unmoved q = rw q h
