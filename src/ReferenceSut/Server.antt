-- ===== src/ReferenceSut/Server.antt =====
-- The operations of src/psv/reference_sut/server.py. Python changes an order in place, so the part
-- of a change that precedes an exception stays: an operation on an order returns the order it leaves
-- and what it answers or raises.
use psv.ReferenceSut.Submit.{submit_settlement}
use psv.Reconciliation.Fields.{ReconciliationError}
use psv.QuoteOption.{quote_is_stale}
use psv.Base.{
  ◌+◌, Bool, true, false, ◌&&◌, Option, none, some, ◌++◌, map, if◌then◌else◌, Result, ok, err,
  ◌>>=◌, reraise,
}
use psv.Base.Int.{ℤ, ltb_ℤ}
use psv.Text.{Text, codes}
use psv.Value.{Fields, int}
use psv.ReferenceSut.State.{
  rpc_error, put_order, find_order, quote_error, reconciliation_error, text_item, SutConfig, Order,
  Sut, Outside, Answer,
}
use psv.ReferenceSut.Confirmer.{settlement_log_index}
use psv.Reconciliation.Credit.{SettlementIdentity, topic_transfer, settlement_identity}

-- The `reason` of an answer to `pay`.
pub data Reason : Type 0 where
  unknown_order quote_expired stale_quote settlement_pending : Reason

-- The dict that `pay` answers; a missing key is `none`, or `false`.
pub record PayReply : Type 0 where
  pub order_id : Text
  pub submitted_tx : Option Text
  pub settled : Bool
  pub reason : Option Reason
  pub idempotent : Bool

unfoldable pub refused : Text → Reason → PayReply
refused order_id reason = record {
  order_id = order_id;
  submitted_tx = none;
  settled = false;
  reason = some reason;
  idempotent = false;
}

-- `{"order_id": order_id, "submitted_tx": tx_hash, "settled": settled}`
unfoldable pub answered : Text → Text → Bool → PayReply
answered order_id tx_hash settled = record {
  order_id = order_id;
  submitted_tx = some tx_hash;
  settled = settled;
  reason = none;
  idempotent = false;
}

-- The call of the confirmer in `_confirm`.
unfoldable pub confirm_index :
    Outside → SutConfig → Order → Fields → Text → Option Fields → Answer (Option ℤ)
confirm_index out config order authorization tx_hash receipt = do
  payer ← text_item out "from" authorization
  nonce ← text_item out "nonce" authorization
  settlement_log_index (λ token topics from_block. out.get_logs token (map some topics) from_block)
      topic_transfer
      (record {
        token = config.token_address;
        payer = payer;
        payee = config.merchant_address;
        expected_value = order.amount;
        authorization_nonce = nonce;
        submitted_tx = tx_hash;
        from_block = order.created_block;
      })
      receipt

-- `f"premium-content::{order_id}"`
unfoldable pub premium_content : Text → Text
premium_content order_id = codes "premium-content::" ++ order_id

-- The answer of `_confirm` once the identity has been built, or has raised after the order was paid.
unfoldable pub book_identity :
    Order → Text → Result ReconciliationError SettlementIdentity → Order × Answer PayReply
book_identity order tx_hash (err e) = (order, err (reconciliation_error e))
book_identity order tx_hash (ok identity) = (
  record order { settlement_identity = some identity },
  ok (answered order.order_id tx_hash true),
)

-- The booking of a confirmed settlement in `_confirm`.
unfoldable pub book : SutConfig → Order → Text → ℤ → Order × Answer PayReply
unfolding book_identity
book config order tx_hash log_index =
    book_identity (record order { paid = true; resource = some (premium_content order.order_id) })
      tx_hash (settlement_identity config.chain_id config.token_address tx_hash log_index)

-- The end of `_confirm`, by what the confirmer answers.
unfoldable pub after_confirmer :
    SutConfig → Order → Text → Answer (Option ℤ) → Order × Answer PayReply
unfolding book
after_confirmer config order tx_hash (err e) = (order, err e)
after_confirmer config order tx_hash (ok none) = (order, ok (answered order.order_id tx_hash false))
after_confirmer config order tx_hash (ok (some index)) = book config order tx_hash index

-- `_confirm` once the receipt has been dealt with.
unfoldable pub confirm_with :
    Outside → SutConfig → Order → Fields → Text → Option Fields → Order × Answer PayReply
unfolding after_confirmer
confirm_with out config order authorization tx_hash receipt =
    after_confirmer config (record order { pending_tx = none; pending_authorization = none })
      tx_hash (confirm_index out config order authorization tx_hash receipt)

unfoldable pub pending_reply : Text → Text → PayReply
pending_reply order_id tx_hash = record {
  order_id = order_id;
  submitted_tx = some tx_hash;
  settled = false;
  reason = some settlement_pending;
  idempotent = false;
}

-- `_confirm`, by what the wait for the receipt answers.
unfoldable pub after_wait :
    Outside → SutConfig → Order → Fields → Text → Answer Fields → Order × Answer PayReply
unfolding confirm_with
after_wait out config order authorization tx_hash (ok receipt) =
    confirm_with out config order authorization tx_hash (some receipt)
after_wait out config order authorization tx_hash (err rpc_error) = (
  record order { pending_tx = some tx_hash; pending_authorization = some authorization },
  ok (pending_reply order.order_id tx_hash),
)
after_wait out config order authorization tx_hash (err e) = (order, err e)

-- `_confirm`
unfoldable pub confirm : Outside → SutConfig → Order → Fields → Text → Order × Answer PayReply
unfolding after_wait
confirm out config order authorization tx_hash =
    if config.confirm_without_waiting
    then confirm_with out config order authorization tx_hash none
    else after_wait out config order authorization tx_hash
        (out.wait_for_receipt tx_hash config.receipt_tries)

-- The unresolved settlement that an idempotent system waits on.
abbrev pub unresolved : Bool → Option Text → Option Fields → Option (Text × Fields)
unresolved true (some tx_hash) (some authorization) = some (tx_hash, authorization)
unresolved _ _ _ = none

-- `reprice_on_pay and quote_is_stale(...)`
abbrev pub is_refused : SutConfig → ℤ → Order → Answer Bool
is_refused config fair_price order =
    if config.reprice_on_pay
    then reraise quote_error
        (quote_is_stale (int order.amount) (int fair_price) config.reprice_tolerance)
    else ok false

-- The end of `pay`, by what the submission answers.
unfoldable pub after_submit :
    Outside → SutConfig → Order → Fields → Answer Text → Order × Answer PayReply
unfolding confirm
after_submit out config order authorization (err e) = (order, err e)
after_submit out config order authorization (ok tx_hash) =
    confirm out config (record order { submitted_tx = some tx_hash }) authorization tx_hash

-- The end of `pay`, from `str(authorization["nonce"])` on.
unfoldable pub submit_and_confirm :
    Outside → SutConfig → Order → Fields → Answer Text → Order × Answer PayReply
unfolding after_submit
submit_and_confirm out config order authorization (err e) = (order, err e)
submit_and_confirm out config order authorization (ok nonce) =
    after_submit out config
      (record order { nonce_seen = some nonce; settle_attempts = order.settle_attempts + 1 })
      authorization (submit_settlement out config authorization)

-- The second guard of `pay`, by what the comparison of the prices answers.
unfoldable pub unless_stale :
    Outside → SutConfig → Order → Fields → Answer Bool → Order × Answer PayReply
unfolding submit_and_confirm
unless_stale out config order authorization (err e) = (order, err e)
unless_stale out config order authorization (ok true) =
    (order, ok (refused order.order_id stale_quote))
unless_stale out config order authorization (ok false) =
    submit_and_confirm out config order authorization (text_item out "nonce" authorization)

-- `pay` on an order that is not answered from its cache: wait on the unresolved settlement, or pass
-- the guards.
unfoldable pub unless_unresolved :
    Outside → SutConfig → ℤ → Order → Fields → Option (Text × Fields) → Order × Answer PayReply
unfolding confirm unless_stale
unless_unresolved out config fair_price order authorization (some (tx_hash, pending)) =
    confirm out config order pending tx_hash
unless_unresolved out config fair_price order authorization none =
    if ltb_ℤ order.expires_at out.now
    then (order, ok (refused order.order_id quote_expired))
    else unless_stale out config order authorization (is_refused config fair_price order)

unfoldable pub cached_reply : Order → PayReply
cached_reply order = record {
  order_id = order.order_id;
  submitted_tx = order.submitted_tx;
  settled = true;
  reason = none;
  idempotent = true;
}

-- `pay` on the order it found.
unfoldable pub pay_order : Outside → SutConfig → ℤ → Order → Fields → Order × Answer PayReply
unfolding unless_unresolved
pay_order out config fair_price order authorization =
    if order.paid && config.idempotent_pay
    then (order, ok (cached_reply order))
    else unless_unresolved out config fair_price order authorization
        (unresolved config.idempotent_pay order.pending_tx order.pending_authorization)

-- `pay`, by what the lookup finds.
unfoldable pub pay_found :
    Outside → SutConfig → Text → Fields → Sut → Option Order → Sut × Answer PayReply
unfolding pay_order
pay_found out config order_id authorization sut none = (sut, ok (refused order_id unknown_order))
pay_found out config order_id authorization sut (some order) =
    let left = pay_order out config sut.fair_price order authorization in
    (record sut { orders = put_order left.0 sut.orders }, left.1)

unfoldable pub pay : Outside → SutConfig → Text → Fields → Sut → Sut × Answer PayReply
unfolding pay_found
pay out config order_id authorization sut =
    pay_found out config order_id authorization sut (find_order order_id sut.orders)
