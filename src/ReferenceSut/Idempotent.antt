-- ===== src/ReferenceSut/Idempotent.antt =====
-- An idempotent system settles an order once.
use psv.ReferenceSut.Orders.{find_order-put_order_other, find_order-id, find_order-put_order}
use psv.Text.Laws.{text_eq_iff}
use psv.ReferenceSut.Kept.{Leaves, confirm-Kept, pay_order-Kept}
use psv.Base.{
  ◌≡◌, refl, sym, ap, subst, ◌∙◌, ◌≢◌, inl, inr, Bool, true, false, ◌&&◌, Option, none, some, List,
  arith, Bool-cases, is_some, if-both, ok,
}
use psv.Base.Int.{ℤ}
use psv.Text.{Text, text_eq}
use psv.Value.{Fields}
use psv.ReferenceSut.State.{put_order, find_order, SutConfig, Order, Sut, Outside}
use psv.ReferenceSut.Server.{unresolved, unless_unresolved, cached_reply, pay_found, pay_order, pay}
use psv.ReferenceSut.Sound.{HasId, HasId-IsClosed, HasAttempts, HasAttempts-IsConfirmClosed}

-- Any number of calls of `pay`, with any answers of the outside.
pub data Payments (config : SutConfig) (first : Sut) : Sut → Type 0 where
  no_more : Payments config first first
  then_pay :
      (out : Outside) (order_id : Text) (authorization : Fields) (sut : Sut)
      → Payments config first sut
      → Payments config first (pay out config order_id authorization sut).0

pay_order-cached :
    (out : Outside) (config : SutConfig) (fair_price : ℤ) (o : Order) (authorization : Fields)
    → config.idempotent_pay ≡ true
    → o.paid ≡ true
    → pay_order out config fair_price o authorization ≡ (o, ok (cached_reply o))
unfolding pay_order
pay_order-cached out config fair_price o authorization i p = ground (arith, i, p)

put_same :
    (i : Text) (o : Order) (os : List Order)
    → find_order o.order_id os ≡ some o
    → find_order i (put_order o os) ≡ find_order i os
put_same i o os e = elim (Bool-cases (text_eq o.order_id i)) [
  | inl t ↦
      subst (λ j. find_order j (put_order o os) ≡ find_order j os) ((text_eq_iff o.order_id i).0 t)
        (find_order-put_order o os ∙ sym e)
  | inr f ↦ find_order-put_order_other i o os λ q. cc (f, (text_eq_iff o.order_id i).1 q)
]

-- `pay` on another order leaves this one alone.
pay_found-other :
    (out : Outside) (config : SutConfig) (order_id i : Text) (authorization : Fields) (sut : Sut)
    (found : Option Order)
    → find_order order_id sut.orders ≡ found
    → order_id ≢ i
    → find_order i (pay_found out config order_id authorization sut found).0.orders
      ≡ find_order i sut.orders
unfolding pay_found
pay_found-other out config order_id i authorization sut none e h = refl
pay_found-other out config order_id i authorization sut (some o) e h =
    let same =
      pay_order-Kept (HasId order_id) (HasId-IsClosed order_id) out config sut.fair_price o
        authorization (find_order-id order_id sut.orders o e) in
    find_order-put_order_other i (pay_order out config sut.fair_price o authorization).0 sut.orders
      λ q. h (sym same ∙ q)

pay_found-cached :
    (out : Outside) (config : SutConfig) (order_id i : Text) (authorization : Fields) (sut : Sut)
    (o : Order)
    → config.idempotent_pay ≡ true
    → o.paid ≡ true
    → find_order order_id sut.orders ≡ some o
    → ((pay_found out config order_id authorization sut (some o)).1 ≡ ok (cached_reply o))
      × (find_order i (pay_found out config order_id authorization sut (some o)).0.orders
          ≡ find_order i sut.orders)
unfolding pay_found
pay_found-cached out config order_id i authorization sut o idem paid e =
    let c = pay_order-cached out config sut.fair_price o authorization idem paid in
    let id = find_order-id order_id sut.orders o e in
    (
      ap (λ r. r.1) c,
      ap (λ r. find_order i (put_order r.0 sut.orders)) c
          ∙ put_same i o sut.orders (subst (λ j. find_order j sut.orders ≡ some o) (sym id) e),
    )

-- In an idempotent system, paying a paid order again changes no order and is answered with the
-- settlement that is booked.
pub pay_cached :
    (out : Outside) (config : SutConfig) (order_id i : Text) (authorization : Fields) (sut : Sut)
    (o : Order)
    → config.idempotent_pay ≡ true
    → o.paid ≡ true
    → find_order order_id sut.orders ≡ some o
    → ((pay out config order_id authorization sut).1 ≡ ok (cached_reply o))
      × (find_order i (pay out config order_id authorization sut).0.orders
          ≡ find_order i sut.orders)
unfolding pay
pay_cached out config order_id i authorization sut o idem paid e =
    subst
      (λ f.
        ((pay_found out config order_id authorization sut f).1 ≡ ok (cached_reply o))
        × (find_order i (pay_found out config order_id authorization sut f).0.orders
            ≡ find_order i sut.orders))
      (sym e) (pay_found-cached out config order_id i authorization sut o idem paid e)

-- A paid order is settled once and for all: an idempotent system that is asked to pay, for any orders
-- and any number of times, leaves a paid order as it is, with its settlement and its attempts.
pub Payments-paid :
    (config : SutConfig) (first sut : Sut) (i : Text) (o : Order)
    → config.idempotent_pay ≡ true
    → o.paid ≡ true
    → find_order i first.orders ≡ some o
    → Payments config first sut
    → find_order i sut.orders ≡ some o
unfolding pay
Payments-paid config first _ i o idem paid e no_more = e
Payments-paid config first _ i o idem paid e (then_pay out order_id authorization sut more) =
    let before = Payments-paid config first sut i o idem paid e more in
    elim (Bool-cases (text_eq order_id i)) [
      | inl t ↦
          let here =
            subst (λ j. find_order j sut.orders ≡ some o) (sym ((text_eq_iff order_id i).0 t))
              before in
          (pay_cached out config order_id i authorization sut o idem paid here).1 ∙ before
      | inr f ↦
          pay_found-other out config order_id i authorization sut (find_order order_id sut.orders)
            refl (λ q. cc (f, (text_eq_iff order_id i).1 q))
          ∙ before
    ]

waits_on :
    (out : Outside) (config : SutConfig) (fair_price : ℤ) (o : Order) (authorization : Fields)
    (idem : Bool) (tx_hash : Option Text) (pending : Option Fields)
    → idem ≡ true
    → is_some tx_hash ≡ true
    → is_some pending ≡ true
    → HasAttempts o.settle_attempts o.submitted_tx
        (unless_unresolved out config fair_price o authorization
          (unresolved idem tx_hash pending)).0
unfolding unless_unresolved
waits_on out config fair_price o authorization true (some t) (some a) i p q =
    confirm-Kept (HasAttempts o.settle_attempts o.submitted_tx)
      (HasAttempts-IsConfirmClosed o.settle_attempts o.submitted_tx) out config o a t (refl, refl)
waits_on out config fair_price o authorization false t a i p q = absurd (cc)
waits_on out config fair_price o authorization true none a i p q = absurd (cc)
waits_on out config fair_price o authorization true (some t) none i p q = absurd (cc)

-- An idempotent system never broadcasts beside an unresolved settlement: it waits on the transaction
-- that is pending, so the attempts and the submitted transaction stay.
pub pay_order_waits :
    (out : Outside) (config : SutConfig) (fair_price : ℤ) (o : Order) (authorization : Fields)
    → config.idempotent_pay ≡ true
    → is_some o.pending_tx ≡ true
    → is_some o.pending_authorization ≡ true
    → let left = (pay_order out config fair_price o authorization).0 in
      (left.settle_attempts ≡ o.settle_attempts) × (left.submitted_tx ≡ o.submitted_tx)
unfolding pay_order
pay_order_waits out config fair_price o authorization idem p q =
    if-both
      (Leaves (HasAttempts o.settle_attempts o.submitted_tx)
        (HasAttempts-IsConfirmClosed o.settle_attempts o.submitted_tx))
      (o.paid && config.idempotent_pay) (refl, refl)
      (waits_on out config fair_price o authorization config.idempotent_pay o.pending_tx
        o.pending_authorization idem p q)
