-- ===== src/ReferenceSut/Confirmation.antt =====
-- What the server confirms in src/psv/reference_sut/server.py, and what a settled answer claims.
use psv.Base.{
  ◌≡◌, refl, ◌⊎◌, true, false, Option, none, some, List, map, arith, Result, ok, err, >>=-eq-ok,
}
use psv.Base.Int.{ℤ}
use psv.Text.{Text}
use psv.Value.{Fields}
use psv.ReferenceSut.State.{text_item, SutConfig, Order, Outside, Answer}
use psv.ReferenceSut.Submit.{submit_settlement}
use psv.ReferenceSut.Server.{
  premium_content, book, answered, confirm_with, after_confirmer, book_identity, confirm_index,
  PayReply,
}
use psv.ReferenceSut.Confirmer.{Settlement, settlement_log_index}
use psv.ReferenceSut.Settled.{settlement_log_index-IsConfirmed, IsConfirmed}
use psv.Reconciliation.Credit.{settlement_identity, topic_transfer, SettlementIdentity}
use psv.Reconciliation.Fields.{ReconciliationError}

-- The transport that the confirmer is wired to.
abbrev pub wired : Outside → Text → List Text → ℤ → Answer (List Fields)
wired out token topics from_block = out.get_logs token (map some topics) from_block

-- The settlement that an order asks for, of a payer and a nonce.
abbrev pub expected_settlement : SutConfig → ℤ → ℤ → Text → Text → Text → Settlement
expected_settlement config amount created_block payer nonce tx_hash = record {
  token = config.token_address;
  payer = payer;
  payee = config.merchant_address;
  expected_value = amount;
  authorization_nonce = nonce;
  submitted_tx = tx_hash;
  from_block = created_block;
}

-- The receipt that the node returned for the transaction confirms the settlement, by the payer and the
-- nonce of this authorization.
pub record IsEvident (out : Outside) (config : SutConfig) (amount created_block : ℤ)
    (authorization : Fields) (tx_hash : Text) : Type 0 where
  pub payer : Text
  pub payer_eq : text_item out "from" authorization ≡ ok payer
  pub nonce : Text
  pub nonce_eq : text_item out "nonce" authorization ≡ ok nonce
  pub receipt : Fields
  pub waited : out.wait_for_receipt tx_hash config.receipt_tries ≡ ok receipt
  pub log_index : ℤ
  pub confirmed :
      IsConfirmed
        (wired out)
        topic_transfer
        (expected_settlement config amount created_block payer nonce tx_hash)
        (some receipt)
        log_index

-- The transaction and its authorization: submitted by this call, or left pending by an earlier one.
abbrev pub IsSubmitted : Outside → SutConfig → Fields → Order → Fields → Text → Type 0
IsSubmitted out config given o authorization tx_hash =
    ((authorization ≡ given) × (submit_settlement out config authorization ≡ ok tx_hash))
    ⊎ ((o.pending_authorization ≡ some authorization) × (o.pending_tx ≡ some tx_hash))

-- An answer that claims a settlement names a transaction with a property.
abbrev pub Claims : (Text → Type 0) → Order × Answer PayReply → Type 0
Claims P r =
    (reply : PayReply)
    → r.1 ≡ ok reply
    → reply.settled ≡ true
    → reply.idempotent ≡ false
    → (tx_hash : Text) × (reply.submitted_tx ≡ some tx_hash) × P tx_hash

-- A transaction that was submitted for an order, with its evidence.
abbrev pub IsSettledBy : Outside → SutConfig → Order → Fields → Text → Type 0
IsSettledBy out config o given tx_hash =
    (authorization : Fields) × IsSubmitted out config given o authorization tx_hash
    × IsEvident out config o.amount o.created_block authorization tx_hash

pub confirm_index-IsEvident :
    (out : Outside) (config : SutConfig) (o : Order) (authorization : Fields) (tx_hash : Text)
    (receipt : Fields) (index : ℤ)
    → out.wait_for_receipt tx_hash config.receipt_tries ≡ ok receipt
    → confirm_index out config o authorization tx_hash (some receipt) ≡ ok (some index)
    → IsEvident out config o.amount o.created_block authorization tx_hash
unfolding confirm_index
confirm_index-IsEvident out config o authorization tx_hash receipt index waited e =
    let (payer, p, f) = >>=-eq-ok (text_item out "from" authorization) _ e in
    let (nonce, n, g) = >>=-eq-ok (text_item out "nonce" authorization) _ f in
    record {
      payer = payer;
      payer_eq = p;
      nonce = nonce;
      nonce_eq = n;
      receipt = receipt;
      waited = waited;
      log_index = index;
      confirmed =
          settlement_log_index-IsConfirmed (wired out) topic_transfer
            (expected_settlement config o.amount o.created_block payer nonce tx_hash) (some receipt)
            index g;
    }

-- Without a receipt nothing is confirmed.
pub confirm_index-none :
    (out : Outside) (config : SutConfig) (o : Order) (authorization : Fields) (tx_hash : Text)
    (index : ℤ)
    → confirm_index out config o authorization tx_hash none ≡ ok (some index)
    → ⊥
unfolding confirm_index settlement_log_index
confirm_index-none out config o authorization tx_hash index e =
    let (payer, p, f) = >>=-eq-ok (text_item out "from" authorization) _ e in
    let (nonce, n, g) = >>=-eq-ok (text_item out "nonce" authorization) _ f in cc g

module _ (P : Text → Type 0) where
  book_identity-Claims :
      (p : Order) (tx_hash : Text) (r : Result ReconciliationError SettlementIdentity)
      → P tx_hash
      → Claims P (book_identity p tx_hash r)
  unfolding book_identity answered
  book_identity-Claims p tx_hash (err x) h = λ reply e s i. absurd (cc)
  book_identity-Claims p tx_hash (ok identity) h = λ reply e s i. (tx_hash, ground arith, h)

  after_confirmer-Claims :
      (config : SutConfig) (p : Order) (tx_hash : Text) (r : Answer (Option ℤ))
      → ((index : ℤ) → r ≡ ok (some index) → P tx_hash)
      → Claims P (after_confirmer config p tx_hash r)
  unfolding after_confirmer book answered
  after_confirmer-Claims config p tx_hash (err x) h = λ reply e s i. absurd (cc)
  after_confirmer-Claims config p tx_hash (ok none) h = λ reply e s i. absurd (ground arith)
  after_confirmer-Claims config p tx_hash (ok (some index)) h =
      book_identity-Claims (record p { paid = true; resource = some (premium_content p.order_id) })
        tx_hash (settlement_identity config.chain_id config.token_address tx_hash index)
        (h index refl)

  pub Claims-map :
      {Q : Text → Type 0} (r : Order × Answer PayReply)
      → Claims Q r
      → ((t : Text) → Q t → P t)
      → Claims P r
  Claims-map r h k = λ reply e s i. let (t, q, x) = h reply e s i in (t, q, k t x)

pub confirm_with-Claims :
    (out : Outside) (config : SutConfig) (o : Order) (authorization : Fields) (tx_hash : Text)
    (receipt : Option Fields) (P : Text → Type 0)
    → ((index : ℤ)
        → confirm_index out config o authorization tx_hash receipt ≡ ok (some index)
        → P tx_hash)
    → Claims P (confirm_with out config o authorization tx_hash receipt)
unfolding confirm_with
confirm_with-Claims out config o authorization tx_hash receipt P h =
    after_confirmer-Claims P config (record o { pending_tx = none; pending_authorization = none })
      tx_hash (confirm_index out config o authorization tx_hash receipt) h
