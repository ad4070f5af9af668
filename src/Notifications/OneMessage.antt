-- ===== src/Notifications/OneMessage.antt =====
-- One message for one fingerprint, over the whole of `deliver_initial`.
use bybitflow.Prelude.{
  ℕ, ◌≡◌, ◌≢◌, refl, sym, subst, ap, Bool, true, false, not, ◌&&◌, Option, none, some,
  if◌then◌else◌,
}
use bybitflow.Notifications.Keys.{Key, initial_key, Refusal, refused, row_of}
use bybitflow.Notifications.Visibility.{Plan, initial_delivery_block}
use bybitflow.Notifications.Outbox.{
  Store, Phase, started, done, already_attempted, not_official, raised, answered, deliver, view,
}
use bybitflow.Notifications.Opportunity.{Opportunity}
use bybitflow.Notifications.Claims.{Ledger, claim_alert}
use bybitflow.Notifications.Ownership.{Reach, begin, next, settle, one_plan_per_fingerprint}
use bybitflow.Notifications.Initial.{
  Call, InitialAnswer, not_sent, live_check_unavailable, macro_paused, duplicate_plan_suppressed,
  Called, request_of, message_of, settled, with_claim, may_retry, prepared, unblocked,
  deliver_initial,
}

module _ (allowed : Plan → Plan → Bool) (rounded : Opportunity → ℕ → ℕ)
    (fingerprint : Opportunity → ℕ) where
  -- What a call came to: nothing was sent and the ledger is left or one claim was refused, or the
  -- claim was granted.
  data Went (c : Call) (o : Opportunity) (s : Store) (l : Ledger) : Called → Type 0 where
    unsent :
        (a : InitialAnswer) (m : Ledger)
        → Went c o s l (record { answer = a; store = s; ledger = m })
    granted :
        (t : Called)
        → (claim_alert rounded fingerprint c.plans (may_retry o s) c.at_ms o l).0 ≡ true
        → Reach rounded fingerprint
            (claim_alert rounded fingerprint c.plans (may_retry o s) c.at_ms o l).1
            t.ledger
        → Went c o s l t

  settled-Reach :
      (fp : ℕ) (k : Key) (ph : Phase) (s : Store) (l : Ledger)
      → Reach rounded fingerprint l (settled fp k ph s l)
  unfolding settled
  settled-Reach fp k (done (answered st)) s l =
      next begin (settle st (message_of (row_of k s.rows)) fp)
  settled-Reach fp k (done already_attempted) s l =
      next begin (settle (refused (Refusal.refused_by 0)) (message_of (row_of k s.rows)) fp)
  settled-Reach fp k (done not_official) s l = begin
  settled-Reach fp k (done raised) s l = begin
  settled-Reach fp k Phase.started s l = begin
  settled-Reach fp k (Phase.opened b) s l = begin
  settled-Reach fp k Phase.claimed s l = begin
  settled-Reach fp k Phase.reset s l = begin
  settled-Reach fp k Phase.passed s l = begin
  settled-Reach fp k Phase.marked s l = begin
  settled-Reach fp k Phase.posted s l = begin
  settled-Reach fp k (Phase.closing st m) s l = begin

  module _ (c : Call) (o : Opportunity) (s : Store) (l : Ledger) where
    claim-Went :
        (x : Bool × Ledger)
        → claim_alert rounded fingerprint c.plans (may_retry o s) c.at_ms o l ≡ x
        → Went c o s l (with_claim allowed rounded fingerprint c o s x)
    unfolding with_claim
    claim-Went (false, m) e = unsent duplicate_plan_suppressed m
    claim-Went (true, m) e = granted _ (ap (λ x. x.0) e) (
        subst
          (λ y. Reach rounded fingerprint y (
            settled (fingerprint o) (initial_key c.channel o.id)
              (deliver allowed 8 c.steps (request_of c o) started s).0
              (deliver allowed 8 c.steps (request_of c o) started s).1 m))
          (sym (ap (λ x. x.1) e))
          (settled-Reach (fingerprint o) (initial_key c.channel o.id)
            (deliver allowed 8 c.steps (request_of c o) started s).0
            (deliver allowed 8 c.steps (request_of c o) started s).1 m))

    call-Went : Went c o s l (deliver_initial allowed rounded fingerprint c o s l)
    unfolding deliver_initial unblocked prepared
    call-Went =
        by_block (initial_delivery_block allowed (view c.first s) o.id c.first.initial_signal)
      where
        by_macro :
            (b : Bool)
            → Went c o s l (
                if b
                then record { answer = macro_paused; store = s; ledger = l }
                else with_claim allowed rounded fingerprint c o s
                    (claim_alert rounded fingerprint c.plans (may_retry o s) c.at_ms o l))
        by_macro true = unsent macro_paused l
        by_macro false =
            claim-Went (claim_alert rounded fingerprint c.plans (may_retry o s) c.at_ms o l) refl

        by_prepare :
            (p : Option Refusal) → Went c o s l (prepared allowed rounded fingerprint c o s l p)
        by_prepare (some b) = unsent (not_sent b) l
        by_prepare none = by_macro c.macro_pause

        by_checks :
            (b : Bool) (p : Option Refusal)
            → Went c o s l (
                if b
                then record { answer = live_check_unavailable; store = s; ledger = l }
                else prepared allowed rounded fingerprint c o s l p)
        by_checks true p = unsent live_check_unavailable l
        by_checks false p = by_prepare p

        by_block :
            (p : Option Refusal) → Went c o s l (unblocked allowed rounded fingerprint c o s l p)
        by_block (some b) = unsent (not_sent b) l
        by_block none =
            by_checks (o.is_v22 && not c.live_checks) (if o.is_v22 then c.prepare_initial else none)

  Reach-append :
      (l m n : Ledger)
      → Reach rounded fingerprint l m
      → Reach rounded fingerprint m n
      → Reach rounded fingerprint l n
  Reach-append l m _ r begin = r
  Reach-append l m _ r (next q st) = next (Reach-append l m _ r q) st

  -- If a call makes a POST for a plan, then whatever claims and results come after it, no call
  -- makes a POST for another plan of the same fingerprint.
  pub one_message_per_fingerprint :
      (c d : Call) (o p : Opportunity) (s t : Store) (l m : Ledger)
      → (deliver_initial allowed rounded fingerprint c o s l).store.posts ≢ s.posts
      → Reach rounded fingerprint (deliver_initial allowed rounded fingerprint c o s l).ledger m
      → fingerprint p ≡ fingerprint o
      → p.id ≢ o.id
      → (deliver_initial allowed rounded fingerprint d p t m).store.posts ≡ t.posts
  one_message_per_fingerprint c d o p s t l m sent_one r e n =
      first (deliver_initial allowed rounded fingerprint c o s l) (call-Went c o s l) sent_one r
    where
      second :
          (claim_alert rounded fingerprint c.plans (may_retry o s) c.at_ms o l).0 ≡ true
          → Reach rounded fingerprint
              (claim_alert rounded fingerprint c.plans (may_retry o s) c.at_ms o l).1
              m
          → (y : Called) → Went d p t m y
          → y.store.posts ≡ t.posts
      second g q _ (unsent a k) = refl
      second g q y (granted _ h k) =
          elim (n (
            one_plan_per_fingerprint rounded fingerprint c.plans d.plans (may_retry o s)
              (may_retry p t) c.at_ms d.at_ms o p l m g q e h)) [ ]

      first :
          (x : Called)
          → Went c o s l x
          → x.store.posts ≢ s.posts
          → Reach rounded fingerprint x.ledger m
          → (deliver_initial allowed rounded fingerprint d p t m).store.posts ≡ t.posts
      first _ (unsent a k) f q = elim (f refl) [ ]
      first x (granted _ g k) f q =
          second g (Reach-append _ x.ledger m k q)
            (deliver_initial allowed rounded fingerprint d p t m) (call-Went d p t m)
