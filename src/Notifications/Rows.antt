-- ===== src/Notifications/Rows.antt =====
-- What one step of a delivery does to the rows of the outbox: it touches at most its own row.
use bybitflow.Prelude.{
  ◌≡◌, refl, sym, subst, ap, ◌∙◌, Bool, true, false, Option, none, some, List, ◌∷◌, if◌then◌else◌,
}
use bybitflow.Notifications.Keys.{
  Key, same_key, Refusal, is_retryable, Row, row_of, change, row_of-change_other,
}
use bybitflow.Notifications.Visibility.{Plan}
use bybitflow.Notifications.Outbox.{
  Store, Request, Inputs, Phase, started, opened, claimed, reset, passed, marked, posted, closing,
  done, advance, claim, claim_again, claim_first, put_dispatched, finalized, inspect, dispatch,
  sending_again, first_row, with_payload, with_status, initial_block, last_block, already_attempted,
}
use bybitflow.Notifications.Advance.{close_same}
use bybitflow.Notifications.Changes.{put_dispatched_rows}

pub data Written (r : Request) (rs : List Row) : List Row → Type 0 where
  untouched : Written r rs rs
  added : (q : Row) → q.key ≡ r.key → Written r rs (q ∷ rs)
  changed : (f : Row → Row) → ((q : Row) → (f q).key ≡ q.key) → Written r rs (change f r.key rs)

put_dispatched-Written :
    (b : Bool) (r : Request) (s : Store) → Written r s.rows (put_dispatched b r s).rows
put_dispatched-Written b r s =
    subst (λ rs. Written r s.rows rs) (sym (put_dispatched_rows b r s)) untouched

claim-Written :
    (safe : Bool) (i : Inputs) (r : Request) (s : Store)
    → Written r s.rows (claim safe i r s).1.rows
unfolding claim claim_again claim_first
claim-Written true i r s = again (row_of r.key s.rows)
  where
    retry :
        (b : Bool)
        → (x y : Phase × Store) → Written r s.rows x.1.rows
        → Written r s.rows y.1.rows
        → Written r s.rows (if b then x else y).1.rows
    retry true x y p q = p
    retry false x y p q = q

    again : (o : Option Row) → Written r s.rows (claim_again i r s o).1.rows
    again none = untouched
    again (some row) =
        retry (is_retryable row.status)
          (claimed, record s { rows = change (sending_again i r) r.key s.rows })
          (done already_attempted, s) (changed (sending_again i r) (λ q. refl)) untouched
claim-Written false i r s = first (row_of r.key s.rows)
  where
    first : (o : Option Row) → Written r s.rows (claim_first i r s o).1.rows
    first none = added (first_row i r) refl
    first (some row) = untouched

module _ (allowed : Plan → Plan → Bool) (i : Inputs) (r : Request) (s : Store) where
  inspect-Written : (o : Option Refusal) → Written r s.rows (inspect allowed i r s o).1.rows
  unfolding inspect finalized
  inspect-Written (some b) = untouched
  inspect-Written none = go r.has_factory
    where
      final : (o : Option Refusal) → Written r s.rows (finalized allowed i r s o).1.rows
      final (some b) = untouched
      final none = changed (with_payload i) (λ q. refl)

      go :
          (b : Bool)
          → Written r s.rows
              (if b then finalized allowed i r s i.finalize_initial else (passed, s)).1.rows
      go true = final i.finalize_initial
      go false = untouched

  dispatch-Written : (o : Option Refusal) → Written r s.rows (dispatch r s o).1.rows
  unfolding dispatch
  dispatch-Written none = untouched
  dispatch-Written (some b) = put_dispatched-Written false r s

pub advance-Written :
    (allowed : Plan → Plan → Bool) (i : Inputs) (r : Request) (ph : Phase) (s : Store)
    → Written r s.rows (advance allowed i r ph s).1.rows
unfolding advance
advance-Written allowed i r started s = untouched
advance-Written allowed i r (opened safe) s = claim-Written safe i r s
advance-Written allowed i r claimed s = put_dispatched-Written false r s
advance-Written allowed i r reset s = inspect-Written allowed i r s (initial_block allowed i r s)
advance-Written allowed i r passed s = put_dispatched-Written true r s
advance-Written allowed i r marked s = dispatch-Written allowed i r s (last_block allowed i r s)
advance-Written allowed i r posted s = untouched
advance-Written allowed i r (closing st m) s =
    subst (λ rs. Written r s.rows rs) (sym (close_same i r st m s).0)
      (changed (with_status i st m) (λ q. refl))
advance-Written allowed i r (done a) s = untouched

-- No other key sees it.
pub Written-other :
    (r : Request) (k : Key) (rs qs : List Row)
    → same_key r.key k ≡ false
    → Written r rs qs
    → row_of k qs ≡ row_of k rs
unfolding row_of
Written-other r k rs _ n untouched = refl
Written-other r k rs _ n (added q e) = rw (row_of, ap (λ x. same_key x k) e ∙ n) refl
Written-other r k rs _ n (changed f s) = row_of-change_other f s r.key k rs n
