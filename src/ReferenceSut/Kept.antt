-- ===== src/ReferenceSut/Kept.antt =====
-- What `pay` does to an order is one of six changes: a property that each of them keeps is kept.
use psv.Base.{◌+◌, ◌≡◌, refl, Bool, true, false, ◌&&◌, Option, none, some, if-both, Result, ok, err}
use psv.Base.Int.{ℤ, ltb_ℤ}
use psv.Text.{Text}
use psv.Value.{Fields}
use psv.ReferenceSut.State.{text_item, rpc_error, SutConfig, Order, Outside, Answer}
use psv.ReferenceSut.Submit.{submit_settlement}
use psv.ReferenceSut.Server.{
  unresolved, is_refused, confirm_index, book, pay_order, unless_unresolved, unless_stale,
  submit_and_confirm, after_submit, confirm, after_wait, confirm_with, after_confirmer,
  book_identity, premium_content, PayReply,
}
use psv.Reconciliation.Credit.{settlement_identity, SettlementIdentity}
use psv.Reconciliation.Fields.{ReconciliationError}

-- A property of orders that the four changes of `_confirm` keep.
pub record IsConfirmClosed (P : Order → Type 0) : Type 0 where
  pub waiting :
      (o : Order) (tx_hash : Text) (authorization : Fields)
      → P o
      → P (record o { pending_tx = some tx_hash; pending_authorization = some authorization })
  pub cleared : (o : Order) → P o → P (record o { pending_tx = none; pending_authorization = none })
  pub booked :
      (o : Order) → P o → P (record o { paid = true; resource = some (premium_content o.order_id) })
  pub identified :
      (o : Order) (identity : SettlementIdentity)
      → o.paid ≡ true
      → P o
      → P (record o { settlement_identity = some identity })

-- A property that the two changes before it keep too.
pub record IsClosed (P : Order → Type 0) : Type 0 where
  pub confirming : IsConfirmClosed P
  pub attempted :
      (o : Order) (nonce : Text)
      → P o
      → P (record o { nonce_seen = some nonce; settle_attempts = o.settle_attempts + 1 })
  pub submitted : (o : Order) (tx_hash : Text) → P o → P (record o { submitted_tx = some tx_hash })

module _ (P : Order → Type 0) (closed : IsConfirmClosed P) where
  abbrev pub Leaves : Order × Answer PayReply → Type 0
  Leaves r = P r.0

  book_identity-Kept :
      (o : Order) (tx_hash : Text) (r : Result ReconciliationError SettlementIdentity)
      → o.paid ≡ true
      → P o
      → P (book_identity o tx_hash r).0
  unfolding book_identity
  book_identity-Kept o tx_hash (err e) paid h = h
  book_identity-Kept o tx_hash (ok i) paid h = closed.identified o i paid h

  after_confirmer-Kept :
      (config : SutConfig) (o : Order) (tx_hash : Text) (r : Answer (Option ℤ))
      → P o
      → P (after_confirmer config o tx_hash r).0
  unfolding after_confirmer book
  after_confirmer-Kept config o tx_hash (err e) h = h
  after_confirmer-Kept config o tx_hash (ok none) h = h
  after_confirmer-Kept config o tx_hash (ok (some index)) h =
      book_identity-Kept (record o { paid = true; resource = some (premium_content o.order_id) })
        tx_hash (settlement_identity config.chain_id config.token_address tx_hash index) refl
        (closed.booked o h)

  confirm_with-Kept :
      (out : Outside) (config : SutConfig) (o : Order) (authorization : Fields) (tx_hash : Text)
      (receipt : Option Fields)
      → P o
      → P (confirm_with out config o authorization tx_hash receipt).0
  unfolding confirm_with
  confirm_with-Kept out config o authorization tx_hash receipt h =
      after_confirmer-Kept config (record o { pending_tx = none; pending_authorization = none })
        tx_hash (confirm_index out config o authorization tx_hash receipt) (closed.cleared o h)

  after_wait-Kept :
      (out : Outside) (config : SutConfig) (o : Order) (authorization : Fields) (tx_hash : Text)
      (r : Answer Fields)
      → P o
      → P (after_wait out config o authorization tx_hash r).0
  unfolding after_wait
  after_wait-Kept out config o authorization tx_hash (ok receipt) h =
      confirm_with-Kept out config o authorization tx_hash (some receipt) h
  after_wait-Kept out config o authorization tx_hash (err rpc_error) h =
      closed.waiting o tx_hash authorization h
  after_wait-Kept out config o authorization tx_hash (err _) h = h

  pub confirm-Kept :
      (out : Outside) (config : SutConfig) (o : Order) (authorization : Fields) (tx_hash : Text)
      → P o
      → P (confirm out config o authorization tx_hash).0
  unfolding confirm
  confirm-Kept out config o authorization tx_hash h =
      if-both Leaves config.confirm_without_waiting
        (confirm_with-Kept out config o authorization tx_hash none h)
        (after_wait-Kept out config o authorization tx_hash
          (out.wait_for_receipt tx_hash config.receipt_tries) h)

module _ (P : Order → Type 0) (closed : IsClosed P) where
  after_submit-Kept :
      (out : Outside) (config : SutConfig) (o : Order) (authorization : Fields) (r : Answer Text)
      → P o
      → P (after_submit out config o authorization r).0
  unfolding after_submit
  after_submit-Kept out config o authorization (err e) h = h
  after_submit-Kept out config o authorization (ok tx_hash) h =
      confirm-Kept P closed.confirming out config (record o { submitted_tx = some tx_hash })
        authorization tx_hash (closed.submitted o tx_hash h)

  submit_and_confirm-Kept :
      (out : Outside) (config : SutConfig) (o : Order) (authorization : Fields) (r : Answer Text)
      → P o
      → P (submit_and_confirm out config o authorization r).0
  unfolding submit_and_confirm
  submit_and_confirm-Kept out config o authorization (err e) h = h
  submit_and_confirm-Kept out config o authorization (ok nonce) h =
      after_submit-Kept out config
        (record o { nonce_seen = some nonce; settle_attempts = o.settle_attempts + 1 })
        authorization (submit_settlement out config authorization) (closed.attempted o nonce h)

  unless_stale-Kept :
      (out : Outside) (config : SutConfig) (o : Order) (authorization : Fields) (r : Answer Bool)
      → P o
      → P (unless_stale out config o authorization r).0
  unfolding unless_stale
  unless_stale-Kept out config o authorization (err e) h = h
  unless_stale-Kept out config o authorization (ok true) h = h
  unless_stale-Kept out config o authorization (ok false) h =
      submit_and_confirm-Kept out config o authorization (text_item out "nonce" authorization) h

  unless_unresolved-Kept :
      (out : Outside) (config : SutConfig) (fair_price : ℤ) (o : Order) (authorization : Fields)
      (r : Option (Text × Fields))
      → P o
      → P (unless_unresolved out config fair_price o authorization r).0
  unfolding unless_unresolved
  unless_unresolved-Kept out config fair_price o authorization (some (tx_hash, pending)) h =
      confirm-Kept P closed.confirming out config o pending tx_hash h
  unless_unresolved-Kept out config fair_price o authorization none h =
      if-both (Leaves P closed.confirming) (ltb_ℤ o.expires_at out.now) h
        (unless_stale-Kept out config o authorization (is_refused config fair_price o) h)

  pub pay_order-Kept :
      (out : Outside) (config : SutConfig) (fair_price : ℤ) (o : Order) (authorization : Fields)
      → P o
      → P (pay_order out config fair_price o authorization).0
  unfolding pay_order
  pay_order-Kept out config fair_price o authorization h =
      if-both (Leaves P closed.confirming) (o.paid && config.idempotent_pay) h (
        unless_unresolved-Kept out config fair_price o authorization
          (unresolved config.idempotent_pay o.pending_tx o.pending_authorization) h)
