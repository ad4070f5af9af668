-- ===== src/Orderflow/Book/Buckets.antt =====
-- The second buckets of observed queue changes (src/bybit_flow/ofi.py: `l1_event`,
-- `update_bucket`). The code sums floats; here every quotient is kept exact: a mid price is twice
-- the mid, and a microprice is its numerator and denominator.
use bybitflow.Prelude.{
  ℕ, ◌+◌, ◌-◌, ◌*◌, ◌/◌, Bool, ◌||◌, Option, none, some, List, [], ◌∷◌, ◌++◌, ltb, leb, ◌==◌,
  if◌then◌else◌, max, min, length, drop, last?,
}
use bybitflow.Prelude.Int.{ℤ, pos, ◌+ℤ◌, ◌-ℤ◌, ◌*ℤ◌}
use bybitflow.Orderflow.Book.Levels.{Levels, bid, ask, Change}

-- A price and its quantity at the top of one side.
abbrev pub Quote : Type 0
Quote = ℕ × ℕ

pub record Bucket : Type 0 where
  pub second_ms : ℕ
  pub source_ms : ℕ
  pub epoch : ℕ
  pub ofi_l1_sum : ℤ
  pub ofi_5bps_notional_sum : ℤ
  pub ofi_10bps_notional_sum : ℤ
  pub ofi_25bps_notional_sum : ℤ
  pub event_count : ℕ
  pub mid_open : ℕ
  pub mid_close : ℕ
  pub microprice_open : ℕ × ℕ
  pub microprice_close : ℕ × ℕ
  pub touch_depth_mean : ℕ
  pub depth_5bps_mean : ℕ
  pub depth_10bps_mean : ℕ
  pub depth_25bps_mean : ℕ
  pub event_epoch : Option ℕ
  pub continuity_start_ms : ℕ
  pub last_receipt_ms : ℕ

-- The fields of the book that bucketing reads and writes.
pub record Flow : Type 0 where
  pub ofi_epoch : ℕ
  pub ofi_buckets : List Bucket
  pub event_ofi_epoch : ℕ
  pub event_ofi_start_ms : ℕ
  pub event_ofi_last_ms : ℕ

abbrev pub bucket_limit : ℕ
bucket_limit = 120

-- `l1_event` at four quotes that are there; a zero price counts as a quote of the code's tuples.
unfoldable pub l1_event : Quote → Quote → Quote → Quote → ℤ
l1_event (bp, bq) (ap, aq) (nbp, nbq) (nap, naq) =
    (if ltb bp nbp then pos nbq else if nbp == bp then pos nbq -ℤ pos bq else pos 0 -ℤ pos bq)
    +ℤ (if ltb nap ap then pos 0 -ℤ pos naq else if nap == ap then pos aq -ℤ pos naq else pos aq)

-- `abs(float(p) / mid - 1) <= bps / 10_000` at twice the mid.
abbrev pub is_near : ℕ → ℕ → ℕ → Bool
is_near bps twice_mid p =
    leb ((max (2 * p) twice_mid - min (2 * p) twice_mid) * 10000) (bps * twice_mid)

unfoldable pub depth : ℕ → ℕ → Levels → ℕ
depth bps twice_mid [] = 0
depth bps twice_mid ((p, q) ∷ ls) =
    (if is_near bps twice_mid p then p * q else 0) + depth bps twice_mid ls

unfoldable pub near_flow : ℕ → ℕ → List Change → ℤ
near_flow bps twice_mid [] = pos 0
near_flow bps twice_mid (c ∷ cs) =
    (if is_near bps twice_mid c.price
      then elim c.side [ bid ↦ pos c.price *ℤ c.amount | ask ↦ pos 0 -ℤ pos c.price *ℤ c.amount ]
      else pos 0)
    +ℤ near_flow bps twice_mid cs

-- `deque.append` with a `maxlen`.
abbrev pub append_bounded {ℓ} : {A : Type ℓ} → ℕ → List A → A → List A
append_bounded cap xs x = drop (length (xs ++ x ∷ []) - cap) (xs ++ x ∷ [])

-- What `Book.apply` hands to `update_bucket`, and the sides after the message.
pub record Observed : Type 0 where
  pub receipt_ms : ℕ
  pub event_ms : ℕ
  pub l1 : ℤ
  pub old_mid : ℕ
  pub mid : ℕ
  pub old_micro : ℕ × ℕ
  pub micro : ℕ × ℕ
  pub touch : ℕ
  pub bids : Levels
  pub asks : Levels
  pub changes : List Change

-- `receipt // 1000 * 1000`
abbrev pub second_of : ℕ → ℕ
second_of receipt = receipt / 1000 * 1000

-- A new event epoch begins without a predecessor, at a clock step back, or after more than five
-- seconds.
unfoldable pub continue_events : ℕ → Flow → Flow
continue_events receipt f =
    if (f.event_ofi_start_ms == 0)
      || (ltb receipt f.event_ofi_last_ms || ltb (f.event_ofi_last_ms + 5000) receipt)
    then record f {
      event_ofi_epoch = f.event_ofi_epoch + 1;
      event_ofi_start_ms = receipt;
      event_ofi_last_ms = receipt;
    }
    else record f { event_ofi_last_ms = receipt }

-- A second that is earlier than the last bucket's drops the buckets and begins a new epoch.
unfoldable pub drop_disordered : ℕ → Flow → Flow
drop_disordered second f = elim (last? f.ofi_buckets) [
  | none ↦ f
  | some b ↦
      if ltb second b.second_ms
      then record f { ofi_buckets = []; ofi_epoch = f.ofi_epoch + 1 }
      else f
]

unfoldable pub open_bucket : Observed → Flow → Bucket
open_bucket o f = record {
  second_ms = second_of o.receipt_ms;
  source_ms = o.event_ms;
  epoch = f.ofi_epoch;
  ofi_l1_sum = pos 0;
  ofi_5bps_notional_sum = pos 0;
  ofi_10bps_notional_sum = pos 0;
  ofi_25bps_notional_sum = pos 0;
  event_count = 0;
  mid_open = o.old_mid;
  mid_close = o.mid;
  microprice_open = o.old_micro;
  microprice_close = o.micro;
  touch_depth_mean = o.touch;
  depth_5bps_mean = depth 5 o.mid o.bids + depth 5 o.mid o.asks;
  depth_10bps_mean = depth 10 o.mid o.bids + depth 10 o.mid o.asks;
  depth_25bps_mean = depth 25 o.mid o.bids + depth 25 o.mid o.asks;
  event_epoch = some f.event_ofi_epoch;
  continuity_start_ms = f.event_ofi_start_ms;
  last_receipt_ms = o.receipt_ms;
}

-- `if not buckets or second != buckets[-1].second_ms: buckets.append(…)`
unfoldable pub ensure_bucket : Observed → Flow → Flow
ensure_bucket o f = elim (last? f.ofi_buckets) [
  | none ↦ record f { ofi_buckets = append_bounded bucket_limit f.ofi_buckets (open_bucket o f) }
  | some b ↦
      if b.second_ms == second_of o.receipt_ms
      then f
      else record f { ofi_buckets = append_bounded bucket_limit f.ofi_buckets (open_bucket o f) }
]

abbrev pub same_epoch : ℕ → Option ℕ → Option ℕ
same_epoch now none = none
same_epoch now (some e) = if e == now then some e else none

-- The lines that write to the last bucket.
unfoldable pub observe_in : Observed → Flow → Bucket → Bucket
observe_in o f b = record b {
  event_epoch = same_epoch f.event_ofi_epoch b.event_epoch;
  last_receipt_ms = o.receipt_ms;
  source_ms = max b.source_ms o.event_ms;
  ofi_l1_sum = b.ofi_l1_sum +ℤ o.l1;
  event_count = b.event_count + 1;
  mid_close = o.mid;
  microprice_close = o.micro;
  ofi_5bps_notional_sum = b.ofi_5bps_notional_sum +ℤ near_flow 5 o.mid o.changes;
  ofi_10bps_notional_sum = b.ofi_10bps_notional_sum +ℤ near_flow 10 o.mid o.changes;
  ofi_25bps_notional_sum = b.ofi_25bps_notional_sum +ℤ near_flow 25 o.mid o.changes;
}

abbrev pub map_last : (Bucket → Bucket) → List Bucket → List Bucket
map_last g [] = []
map_last g (b ∷ []) = g b ∷ []
map_last g (b ∷ c ∷ bs) = b ∷ map_last g (c ∷ bs)

-- `update_bucket`
unfoldable pub update_bucket : Observed → Flow → Flow
update_bucket o f =
    let g =
      ensure_bucket o (drop_disordered (second_of o.receipt_ms) (continue_events o.receipt_ms f)) in
    record g { ofi_buckets = map_last (observe_in o g) g.ofi_buckets }
