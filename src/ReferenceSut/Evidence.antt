-- ===== src/ReferenceSut/Evidence.antt =====
-- The evidence behind a payment that src/psv/reference_sut/server.py answers as settled.
use psv.Base.{
  ◌+◌, ◌≡◌, refl, sym, ap, subst, ◌∙◌, inl, inr, Bool, true, false, ◌&&◌, Option, none, some, arith,
  if-both, ok, err,
}
use psv.Base.Int.{ℤ, ltb_ℤ}
use psv.Text.{Text}
use psv.Value.{Fields}
use psv.ReferenceSut.State.{
  find_order, text_item, rpc_error, SutConfig, Order, Sut, Outside, Answer,
}
use psv.ReferenceSut.Submit.{submit_settlement}
use psv.ReferenceSut.Server.{
  unresolved, is_refused, cached_reply, refused, pay_found, pay_order, unless_unresolved,
  unless_stale, after_submit, pending_reply, submit_and_confirm, confirm, after_wait, PayReply, pay,
}
use psv.ReferenceSut.Confirmation.{
  IsEvident, Claims, IsSettledBy, confirm_index-IsEvident, confirm_index-none, Claims-map,
  confirm_with-Claims,
}

abbrev Evident : Outside → SutConfig → Order → Fields → Text → Type 0
Evident out config o authorization tx_hash =
    IsEvident out config o.amount o.created_block authorization tx_hash

-- The evidence is of the transaction that is confirmed.
abbrev EvidentAt : Outside → SutConfig → Order → Fields → Text → Text → Type 0
EvidentAt out config o authorization tx_hash t =
    (t ≡ tx_hash) × Evident out config o authorization tx_hash

after_wait-Claims :
    (out : Outside) (config : SutConfig) (o : Order) (authorization : Fields) (tx_hash : Text)
    (r : Answer Fields)
    → out.wait_for_receipt tx_hash config.receipt_tries ≡ r
    → Claims
        (EvidentAt out config o authorization tx_hash)
        (after_wait out config o authorization tx_hash r)
unfolding after_wait pending_reply
after_wait-Claims out config o authorization tx_hash (ok receipt) waited =
    confirm_with-Claims out config o authorization tx_hash (some receipt)
      (EvidentAt out config o authorization tx_hash)
      λ index e.
        (refl, confirm_index-IsEvident out config o authorization tx_hash receipt index waited e)
after_wait-Claims out config o authorization tx_hash (err rpc_error) waited =
    λ reply e s i. absurd (ground arith)
after_wait-Claims out config o authorization tx_hash (err _) waited = λ reply e s i. absurd (cc)

confirm-Claims :
    (out : Outside) (config : SutConfig) (o : Order) (authorization : Fields) (tx_hash : Text)
    → Claims
        (EvidentAt out config o authorization tx_hash)
        (confirm out config o authorization tx_hash)
unfolding confirm
confirm-Claims out config o authorization tx_hash =
    if-both (Claims (EvidentAt out config o authorization tx_hash)) config.confirm_without_waiting
      (confirm_with-Claims out config o authorization tx_hash none
        (EvidentAt out config o authorization tx_hash)
        (λ index e. absurd (confirm_index-none out config o authorization tx_hash index e)))
      (after_wait-Claims out config o authorization tx_hash
        (out.wait_for_receipt tx_hash config.receipt_tries) refl)

after_submit-Claims :
    (out : Outside) (config : SutConfig) (o : Order) (authorization : Fields) (r : Answer Text)
    → submit_settlement out config authorization ≡ r
    → Claims (IsSettledBy out config o authorization) (after_submit out config o authorization r)
unfolding after_submit
after_submit-Claims out config o authorization (err x) sent = λ reply e s i. absurd (cc)
after_submit-Claims out config o authorization (ok tx_hash) sent =
    Claims-map (IsSettledBy out config o authorization)
      (confirm out config (record o { submitted_tx = some tx_hash }) authorization tx_hash)
      (confirm-Claims out config (record o { submitted_tx = some tx_hash }) authorization tx_hash)
      λ t (same, h). (
        authorization,
        inl (refl, sent ∙ ap ok (sym same)),
        subst (Evident out config o authorization) (sym same) h,
      )

submit_and_confirm-Claims :
    (out : Outside) (config : SutConfig) (o : Order) (authorization : Fields) (r : Answer Text)
    → Claims
        (IsSettledBy out config o authorization)
        (submit_and_confirm out config o authorization r)
unfolding submit_and_confirm
submit_and_confirm-Claims out config o authorization (err x) = λ reply e s i. absurd (cc)
submit_and_confirm-Claims out config o authorization (ok nonce) =
    after_submit-Claims out config
      (record o { nonce_seen = some nonce; settle_attempts = o.settle_attempts + 1 }) authorization
      (submit_settlement out config authorization) refl

unless_stale-Claims :
    (out : Outside) (config : SutConfig) (o : Order) (authorization : Fields) (r : Answer Bool)
    → Claims (IsSettledBy out config o authorization) (unless_stale out config o authorization r)
unfolding unless_stale refused
unless_stale-Claims out config o authorization (err x) = λ reply e s i. absurd (cc)
unless_stale-Claims out config o authorization (ok true) = λ reply e s i. absurd (ground arith)
unless_stale-Claims out config o authorization (ok false) =
    submit_and_confirm-Claims out config o authorization (text_item out "nonce" authorization)

unless_unresolved-Claims :
    (out : Outside) (config : SutConfig) (fair_price : ℤ) (o : Order) (authorization : Fields)
    (r : Option (Text × Fields))
    → ((tx_hash : Text) (pending : Fields)
        → r ≡ some (tx_hash, pending)
        → (o.pending_authorization ≡ some pending) × (o.pending_tx ≡ some tx_hash))
    → Claims
        (IsSettledBy out config o authorization)
        (unless_unresolved out config fair_price o authorization r)
unfolding unless_unresolved refused
unless_unresolved-Claims out config fair_price o authorization (some (tx_hash, pending)) left =
    let (a, x) = left tx_hash pending refl in
    Claims-map (IsSettledBy out config o authorization) (confirm out config o pending tx_hash)
      (confirm-Claims out config o pending tx_hash)
      λ t (same, h). (
        pending,
        inr (a, x ∙ ap some (sym same)),
        subst (Evident out config o pending) (sym same) h,
      )
unless_unresolved-Claims out config fair_price o authorization none left =
    if-both (Claims (IsSettledBy out config o authorization)) (ltb_ℤ o.expires_at out.now)
      (λ reply e s i. absurd (ground arith))
      (unless_stale-Claims out config o authorization (is_refused config fair_price o))

unresolved-cases :
    (b : Bool) (t : Option Text) (a : Option Fields) (tx_hash : Text) (pending : Fields)
    → unresolved b t a ≡ some (tx_hash, pending)
    → (a ≡ some pending) × (t ≡ some tx_hash)
unresolved-cases true (some t) (some a) tx_hash pending e = (cc e, cc e)
unresolved-cases true none a tx_hash pending e = absurd (cc)
unresolved-cases true (some t) none tx_hash pending e = absurd (cc)
unresolved-cases false t a tx_hash pending e = absurd (cc)

pub pay_order-Claims :
    (out : Outside) (config : SutConfig) (fair_price : ℤ) (o : Order) (authorization : Fields)
    → Claims
        (IsSettledBy out config o authorization)
        (pay_order out config fair_price o authorization)
unfolding pay_order cached_reply
pay_order-Claims out config fair_price o authorization =
    if-both (Claims (IsSettledBy out config o authorization)) (o.paid && config.idempotent_pay)
      (λ reply e s i. absurd (ground arith))
      (unless_unresolved-Claims out config fair_price o authorization
        (unresolved config.idempotent_pay o.pending_tx o.pending_authorization)
        (unresolved-cases config.idempotent_pay o.pending_tx o.pending_authorization))

pay_found-Claims :
    (out : Outside) (config : SutConfig) (order_id : Text) (authorization : Fields) (sut : Sut)
    (found : Option Order) (reply : PayReply)
    → (pay_found out config order_id authorization sut found).1 ≡ ok reply
    → reply.settled ≡ true
    → reply.idempotent ≡ false
    → (o : Order) × (found ≡ some o)
      × (tx_hash : Text) × (reply.submitted_tx ≡ some tx_hash)
      × IsSettledBy out config o authorization tx_hash
unfolding pay_found refused
pay_found-Claims out config order_id authorization sut none reply e s i = absurd (ground arith)
pay_found-Claims out config order_id authorization sut (some o) reply e s i =
    let (tx_hash, t, h) = pay_order-Claims out config sut.fair_price o authorization reply e s i in
    (o, refl, tx_hash, t, h)

-- No phantom credit: when `pay` answers that an order is settled, and not from its cache, then it
-- names a transaction that this call submitted for the given authorization, or that the order had
-- pending with its own. The receipt that the node returned when it was waited for confirms the
-- transfer of the quoted amount from the payer of that authorization to the merchant, and the use of
-- its nonce, in a block no earlier than that of the quote.
pub pay_settled :
    (out : Outside) (config : SutConfig) (order_id : Text) (authorization : Fields) (sut : Sut)
    (reply : PayReply)
    → (pay out config order_id authorization sut).1 ≡ ok reply
    → reply.settled ≡ true
    → reply.idempotent ≡ false
    → (o : Order) × (find_order order_id sut.orders ≡ some o)
      × (tx_hash : Text) × (reply.submitted_tx ≡ some tx_hash)
      × IsSettledBy out config o authorization tx_hash
unfolding pay
pay_settled out config order_id authorization sut =
    pay_found-Claims out config order_id authorization sut (find_order order_id sut.orders)
