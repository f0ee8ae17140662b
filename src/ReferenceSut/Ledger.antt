-- ===== src/ReferenceSut/Ledger.antt =====
-- The operations of src/psv/reference_sut/server.py on the ledger: quotes, status, backup, restore
-- and reconciliation.
use psv.Base.{
  ℕ, Bool, true, false, Option, none, some, List, [], ◌∷◌, ◌++◌, if◌then◌else◌, ok, err, ◌>>=◌,
  reraise,
}
use psv.Base.Int.{ℤ, pos, ◌+ℤ◌}
use psv.Text.{Text, codes}
use psv.ReferenceSut.State.{
  reconciliation_error, find_order, put_order, new_order, SutConfig, Order, Sut, Outside, Answer,
}
use psv.Reconciliation.Credit.{SettlementIdentity, OnChainCredit, topic_transfer}
use psv.Reconciliation.Find.{by_identity, LedgerEntry, find_unreconciled}
use psv.Reconciliation.Fields.{topic_addr}

-- The dict that `quote` answers; `amount` and `network` are kept as numbers.
pub record Quote : Type 0 where
  pub order_id : Text
  pub amount : ℤ
  pub pay_to : Text
  pub asset : Text
  pub network : ℤ
  pub name : Text
  pub version : Text
  pub expires_at : ℤ

-- The order that `quote` creates.
unfoldable pub quoted_order : Outside → SutConfig → ℤ → ℤ → Order
quoted_order out config fair_price block_number =
    record (new_order (codes "ord_" ++ out.order_token) config.price (out.now +ℤ config.quote_ttl)
      fair_price) { created_block = block_number }

-- `quote`, by what the node answers.
unfoldable pub quote_at : Outside → SutConfig → Sut → Answer ℤ → Sut × Answer Quote
unfolding quoted_order
quote_at out config sut (err e) = (sut, err e)
quote_at out config sut (ok block_number) =
    let order = quoted_order out config sut.fair_price block_number in
    (
      record sut { orders = put_order order sut.orders },
      ok (record {
        order_id = order.order_id;
        amount = order.amount;
        pay_to = config.merchant_address;
        asset = config.token_address;
        network = config.chain_id;
        name = config.token_name;
        version = config.token_version;
        expires_at = order.expires_at;
      }),
    )

unfoldable pub quote : Outside → SutConfig → Sut → Sut × Answer Quote
unfolding quote_at
quote out config sut = quote_at out config sut out.block_number

-- The dict that `status` answers.
pub record Status : Type 0 where
  pub order_id : Text
  pub paid : Bool
  pub resource : Option Text
  pub submitted_tx : Option Text
  pub known : Bool

unfoldable pub status : Text → Sut → Status
status order_id sut = elim (find_order order_id sut.orders) [
  | none ↦ record {
    order_id = order_id;
    paid = false;
    resource = none;
    submitted_tx = none;
    known = false;
  }
  | some order ↦ record {
    order_id = order_id;
    paid = order.paid;
    resource = order.resource;
    submitted_tx = order.submitted_tx;
    known = true;
  }
]

-- The response of `/resource/{order_id}`: its status code, and the content where it is served.
unfoldable pub resource_response : Text → Sut → ℕ × Option Text
resource_response order_id sut =
    let st = status order_id sut in if st.paid then (200, st.resource) else (402, none)

-- `backup_ledger`: the copies are equal to the orders.
unfoldable pub backup_ledger : Sut → List Order
backup_ledger sut = sut.orders

-- `restore_ledger`
unfoldable pub restore_ledger : List Order → Sut → Sut
restore_ledger backup sut = record sut { orders = backup }

-- The filter of the comprehension in `reconcile`.
abbrev pub add_known : Bool → Option SettlementIdentity → List LedgerEntry → List LedgerEntry
add_known true (some i) es = by_identity i ∷ es
add_known _ _ es = es

-- The identities of the paid orders.
unfoldable pub known_identities : List Order → List LedgerEntry
known_identities [] = []
known_identities (o ∷ os) = add_known o.paid o.settlement_identity (known_identities os)

-- The order that `reconcile` books for a credit.
unfoldable pub recovered_order : Outside → OnChainCredit → Order
recovered_order out credit =
    record (new_order (codes "rec_" ++ out.identity_digest credit.identity) (pos credit.value)
      (pos 0) (pos credit.value)) {
        paid = true;
        submitted_tx = some credit.tx_hash;
        resource = some (codes "recovered::" ++ credit.tx_hash);
        recovered = true;
        settlement_identity = some credit.identity;
      }

-- The loop of `reconcile`.
unfoldable pub book_recovered : Outside → List OnChainCredit → List Order → List Order
book_recovered out [] orders = orders
book_recovered out (c ∷ cs) orders =
    book_recovered out cs (put_order (recovered_order out c) orders)

-- What `reconcile` reads: the unreconciled credits of the merchant.
unfoldable pub unreconciled_credits :
    Outside → SutConfig → ℤ → List Order → Answer (List OnChainCredit)
unreconciled_credits out config from_block orders = do
  merchant ← reraise reconciliation_error (topic_addr config.merchant_address)
  logs ←
      out.get_logs config.token_address (some topic_transfer ∷ none ∷ some merchant ∷ []) from_block
  reraise reconciliation_error (
      find_unreconciled logs (known_identities orders) config.chain_id (some config.token_address)
        (some config.merchant_address))

-- The healing of `reconcile`.
unfoldable pub heal :
    Outside → Bool → Sut → Answer (List OnChainCredit) → Sut × Answer (List OnChainCredit)
heal out enabled sut (err e) = (sut, err e)
heal out true sut (ok credits) =
    (record sut { orders = book_recovered out credits sut.orders }, ok credits)
heal out false sut (ok credits) = (sut, ok credits)

unfoldable pub reconcile : Outside → SutConfig → ℤ → Sut → Sut × Answer (List OnChainCredit)
unfolding heal
reconcile out config from_block sut =
    heal out config.reconciliation_enabled sut
      (unreconciled_credits out config from_block sut.orders)
