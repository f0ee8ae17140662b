-- ===== src/ReferenceSut/RecoveryTests.antt =====
-- A ledger that lost a settlement of the merchant, and recovers it.
use psv.QuoteOption.{fraction}
use psv.Base.{
  ◌+◌, ◌≡◌, refl, ◌⊎◌, inl, inr, true, false, none, some, [], ◌∷◌, ◌++◌, arith, All, ok, ◌>>=◌,
}
use psv.Base.Int.{pos, ◌-ℤ◌}
use psv.Text.{Text, codes, text_eq, starts_with, lower, zeros}
use psv.Value.{Fields, null, bool, str, list, nil, cons, end, field, get}
use psv.ReferenceSut.Reachable.{started, after_reconcile, Reachable-resource}
use psv.ReferenceSut.State.{Order, find_order, put_order, SutConfig, Sut, Outside, new_order}
use psv.ReferenceSut.Ledger.{
  status, resource_response, book_recovered, recovered_order, reconcile, unreconciled_credits,
}
use psv.ReferenceSut.Recovery.{reconcile_heals, IsHonest, IsCollisionFree}
use psv.Reconciliation.Credit.{topic_transfer, SettlementIdentity, OnChainCredit}
use psv.Reconciliation.Fields.{topic_addr}

abbrev token : Text
token = codes "0x5fbdb2315678afecb367f032d93f642f64180aa3"

abbrev merchant : Text
merchant = codes "0x3c44cdddb6a900fa2b585dd299e03d12fa4293bc"

abbrev buyer : Text
buyer = codes "0x70997970c51812dc3a010c7d01b50e0d17dc79c8"

abbrev tx : Text
tx = codes "0x00112233445566778899aabbccddeeff00112233445566778899aabbccddeeff"

abbrev transfer : Fields
transfer =
    field "topics"
      (list (
        cons (str topic_transfer) (
          cons (str (codes "0x00000000000000000000000070997970c51812dc3a010c7d01b50e0d17dc79c8")) (
            cons (str (codes "0x0000000000000000000000003c44cdddb6a900fa2b585dd299e03d12fa4293bc"))
              nil))))
      (field "data"
        (str (codes "0x0000000000000000000000000000000000000000000000000000000000002710"))
        (field "removed" (bool false) (
          field "address" (str token) (
            field "transactionHash" (str tx) (
              field "logIndex" (str (codes "0x1"))
                (field "blockHash" (str tx) (field "blockNumber" (str (codes "0x5")) end)))))))

abbrev credit : OnChainCredit
credit = record {
  identity = record { chain_id = pos 31337; asset = token; tx_hash = tx; log_index = 1 };
  block_hash = tx;
  block_number = 5;
  payer = buyer;
  payee = merchant;
  value = 10000;
  removed = false;
}

-- A stand-in for the digest: 64 characters, which depend on the log index alone.
abbrev digest : SettlementIdentity → Text
digest i = zeros 63 ++ (b'0' + i.log_index) ∷ []

abbrev outside : Outside
outside = record {
  now = pos 1000;
  order_token = codes "01";
  block_number = ok (pos 3);
  safety_rpc = record { chain_id_answer = ok null; get_code = λ at. ok null };
  transaction_count = ok null;
  gas_price = ok null;
  sign_transaction = λ transaction. ok [];
  send_raw_transaction = λ raw. ok tx;
  wait_for_receipt = λ tx_hash tries. ok end;
  get_logs = λ at topics from_block. ok (transfer ∷ []);
  render = λ v. [];
  read_int = λ v. none;
  identity_digest = digest;
}

abbrev config : SutConfig
config = record {
  token_address = token;
  merchant_address = merchant;
  chain_id = pos 31337;
  token_name = codes "USDC";
  token_version = codes "2";
  price = pos 10000;
  gas = pos 300000;
  reconciliation_enabled = true;
  quote_ttl = pos 3600;
  reprice_on_pay = false;
  reprice_tolerance = fraction (pos 2) 100;
  idempotent_pay = true;
  confirm_without_waiting = false;
  receipt_tries = pos 50;
}

abbrev restored : Sut
restored = record {
  fair_price = pos 10000;
  orders = new_order (codes "ord_01") (pos 10000) (pos 4600) (pos 10000) ∷ [];
}

-- One credit is recovered, and it collides with no other.
collision_free : IsCollisionFree outside (credit ∷ [])
collision_free c d (inl m) (inl n) e = cc
collision_free c d (inr m) n e = absurd m
collision_free c d m (inr n) e = absurd n

honest : All (IsHonest outside (credit ∷ [])) restored.orders
unfolding new_order codes
honest = ((λ c m e. absurd (ground (arith, e))), tt)

lost : (reconcile outside config (pos 0) restored).1 ≡ ok (credit ∷ [])
unfolding reconcile psv.ReferenceSut.Ledger.heal psv.ReferenceSut.Ledger.unreconciled_credits
    psv.ReferenceSut.Ledger.known_identities new_order psv.Reconciliation.Find.find_unreconciled
    psv.Reconciliation.Find.observe_all psv.Reconciliation.Credit.decode_transfer_log get
    topic_transfer topic_addr psv.Reconciliation.Fields.exact_hex psv.Reconciliation.Fields.quantity
    psv.Reconciliation.Fields.address psv.Reconciliation.Fields.addr_from_topic
    psv.Reconciliation.Credit.settlement_identity psv.Reconciliation.Credit.on_chain_credit codes
    psv.Text.starts_with psv.Text.text_eq psv.Text.lower psv.Text.Hex.int16 psv.Text.Hex.from_hex
    psv.Text.zeros psv.Base.◌>>=◌ psv.Base.Int.◌-ℤ◌ psv.Reconciliation.Find.observe
    psv.Reconciliation.Find.observed psv.Reconciliation.Find.record_credit
    psv.Reconciliation.Find.credit_eq psv.Reconciliation.Find.identity_eq
    psv.Reconciliation.Find.is_known psv.Reconciliation.Find.key_ltb
    psv.Reconciliation.Find.text_ltb psv.Reconciliation.Find.missing_credits
    psv.Reconciliation.Find.sort_credits
lost = refl

reconcile_heals_example :
    unreconciled_credits outside config (pos 0) (reconcile outside config (pos 0) restored).0.orders
    ≡ ok []
reconcile_heals_example =
    reconcile_heals outside config (pos 0) restored (credit ∷ []) collision_free honest refl lost

abbrev started_state : Sut
started_state = record { fair_price = pos 10000; orders = [] }

abbrev recovered_id : Text
recovered_id = codes "rec_" ++ digest credit.identity

-- The recovered order is served with its content.
recovered_is_served :
    resource_response recovered_id (reconcile outside config (pos 0) started_state).0
    ≡ (200, some (codes "recovered::" ++ tx))
unfolding reconcile psv.ReferenceSut.Ledger.heal psv.ReferenceSut.Ledger.unreconciled_credits
    psv.ReferenceSut.Ledger.known_identities new_order psv.Reconciliation.Find.find_unreconciled
    psv.Reconciliation.Find.observe_all psv.Reconciliation.Credit.decode_transfer_log get
    topic_transfer topic_addr psv.Reconciliation.Fields.exact_hex psv.Reconciliation.Fields.quantity
    psv.Reconciliation.Fields.address psv.Reconciliation.Fields.addr_from_topic
    psv.Reconciliation.Credit.settlement_identity psv.Reconciliation.Credit.on_chain_credit codes
    psv.Text.starts_with psv.Text.text_eq psv.Text.lower psv.Text.Hex.int16 psv.Text.Hex.from_hex
    psv.Text.zeros psv.Base.◌>>=◌ psv.Base.Int.◌-ℤ◌ psv.Reconciliation.Find.observe
    psv.Reconciliation.Find.observed psv.Reconciliation.Find.record_credit
    psv.Reconciliation.Find.credit_eq psv.Reconciliation.Find.identity_eq
    psv.Reconciliation.Find.is_known psv.Reconciliation.Find.key_ltb
    psv.Reconciliation.Find.text_ltb psv.Reconciliation.Find.missing_credits
    psv.Reconciliation.Find.sort_credits resource_response status find_order book_recovered
    put_order recovered_order
recovered_is_served = refl

Reachable-resource_example :
    let sut = (reconcile outside config (pos 0) started_state).0 in
    ((o : Order) × (content : Text) × (find_order recovered_id sut.orders ≡ some o)
      × (o.paid ≡ true)
      × (o.resource ≡ some content)
      × (resource_response recovered_id sut ≡ (200, some content)))
    ⊎ (((o : Order) → find_order recovered_id sut.orders ≡ some o → o.paid ≡ false)
        × (resource_response recovered_id sut ≡ (402, none)))
Reachable-resource_example =
    Reachable-resource config (reconcile outside config (pos 0) started_state).0 recovered_id
      (after_reconcile outside (pos 0) started_state started)
