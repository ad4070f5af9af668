-- ===== src/Metadata/Keys.antt =====
-- Keys of the table kv, and which of them are diagnostic.
use bybitflow.Prelude.{
  ℕ, ◌≡◌, refl, sym, ap, ◌∙◌, Bool, true, false, ◌&&◌, arith, ◌==◌, if◌then◌else◌,
}

-- The texts of DIAGNOSTIC_KEYS, each prefix of `diagnostic_key`, and all other texts.
pub data Space : Type 0 where
  diagnostic supervisor feed depth_recovery flow_warmup liquidity other : Space

-- A key, by its space and its number in the space.
pub record Key : Type 0 where
  pub space : Space
  pub name : ℕ

abbrev pub code : Space → ℕ
code diagnostic = 0
code supervisor = 1
code feed = 2
code depth_recovery = 3
code flow_warmup = 4
code liquidity = 5
code other = 6

decode : ℕ → Space
decode n =
    if n == 0
    then diagnostic
    else if n == 1
    then supervisor
    else if n == 2
    then feed
    else if n == 3
    then depth_recovery
    else if n == 4
    then flow_warmup
    else if n == 5
    then liquidity
    else other

decode-code : (s : Space) → decode (code s) ≡ s
unfolding decode
decode-code diagnostic = refl
decode-code supervisor = refl
decode-code feed = refl
decode-code depth_recovery = refl
decode-code flow_warmup = refl
decode-code liquidity = refl
decode-code other = refl

-- Equality of keys, kept shut.
unfoldable pub same : Key → Key → Bool
same j k = (code j.space == code k.space) && (j.name == k.name)

pub same_refl : (k : Key) → same k k ≡ true
unfolding same
same_refl k = ground arith

pub same_eq : (j k : Key) → same j k ≡ true → j ≡ k
unfolding same
same_eq j k h = together s n
  where
    c : code j.space ≡ code k.space
    c = ground arith

    n : j.name ≡ k.name
    n = ground arith

    s : j.space ≡ k.space
    s = sym (decode-code j.space) ∙ ap decode c ∙ decode-code k.space

    together : j.space ≡ k.space → j.name ≡ k.name → j ≡ k
    together x y = cc

pub same_sym : (j k : Key) → same j k ≡ false → same k j ≡ false
unfolding same
same_sym j k h = ground arith

-- `key in DIAGNOSTIC_KEYS`
abbrev pub is_global : Key → Bool
is_global k = elim k.space [ diagnostic ↦ true | _ ↦ false ]

-- `diagnostic_key(key)`
abbrev pub diagnostic_key : Key → Bool
diagnostic_key k = elim k.space [ other ↦ false | _ ↦ true ]
