-- ===== src/ReferenceSut/ServerTests.antt =====
-- Requests to a small reference system whose node has mined the settlement.
use psv.ReferenceSut.Idempotent.{no_more, then_pay, Payments-paid}
use psv.ReferenceSut.Sound.{IsSound}
use psv.ReferenceSut.Ledger.{resource_response, quoted_order, quote}
use psv.QuoteOption.{fraction}
use psv.Base.{String, ◌≡◌, refl, true, false, none, some, [], ◌∷◌, ok, ◌>>=◌}
use psv.Base.Int.{pos, ◌-ℤ◌}
use psv.Text.{
  Text, codes, text_eq, starts_with, remove_prefix_0x, lower_char, lower, is_space, hex_value,
  zeros,
}
use psv.Value.{Fields, null, bool, str, list, dict, nil, cons, end, field, get}
use psv.ReferenceSut.State.{find_order, SutConfig, Order, Sut, Outside, new_order}
use psv.ReferenceSut.Server.{cached_reply, pay_order, PayReply, pay}
use psv.ReferenceSut.Confirmer.{topic_nonce, topic_authorization_used, topic_addr}
use psv.ReferenceSut.Confirmation.{IsSettledBy}
use psv.ReferenceSut.Evidence.{pay_settled}
use psv.ReferenceSut.Reachable.{started, after_quote, Reachable-IsSound}
use psv.Reconciliation.Credit.{topic_transfer}

abbrev token : Text
token = codes "0x5FbDB2315678afecb367f032d93F642f64180aa3"

abbrev merchant : Text
merchant = codes "0x3C44CdDdB6a900fa2b585dd299e03d12FA4293BC"

abbrev buyer : Text
buyer = codes "0x70997970C51812dc3A010C7d01b50e0d17dc79C8"

abbrev tx : Text
tx = codes "0x00112233445566778899aabbccddeeff00112233445566778899aabbccddeeff"

abbrev used_nonce : Text
used_nonce = codes "0x0d"

abbrev config : SutConfig
config = record {
  token_address = token;
  merchant_address = merchant;
  chain_id = pos 31337;
  token_name = codes "USDC";
  token_version = codes "2";
  price = pos 10000;
  gas = pos 300000;
  reconciliation_enabled = true;
  quote_ttl = pos 3600;
  reprice_on_pay = false;
  reprice_tolerance = fraction (pos 2) 100;
  idempotent_pay = true;
  confirm_without_waiting = false;
  receipt_tries = pos 50;
}

abbrev event : Text → Text → String → String → Fields
event topic0 topic2 payload index = field "removed" (bool false) (
    field "address" (str token) (
      field "transactionHash" (str tx) (
        field "blockNumber" (str (codes "0x5")) (
          field "logIndex" (str (codes index)) (
            field "data" (str (codes payload)) (
              field "topics"
                (list (cons (str topic0) (cons (str (topic_addr buyer)) (cons (str topic2) nil))))
                end))))))

abbrev transfer : Fields
transfer = event topic_transfer (topic_addr merchant) "0x2710" "0x1"

abbrev receipt : Fields
receipt = field "status" (str (codes "0x1")) (
    field "transactionHash" (str tx) (
      field "to" (str token) (
        field "blockNumber" (str (codes "0x5")) (
          field "logs"
            (list (
              cons (dict transfer) (
                cons (dict (event topic_authorization_used (topic_nonce used_nonce) "0x" "0x2"))
                  nil)))
            end))))

abbrev outside : Outside
outside = record {
  now = pos 1000;
  order_token = codes "01";
  block_number = ok (pos 3);
  safety_rpc = record { chain_id_answer = ok null; get_code = λ address. ok null };
  transaction_count = ok null;
  gas_price = ok null;
  sign_transaction = λ transaction. ok [];
  send_raw_transaction = λ raw. ok tx;
  wait_for_receipt = λ tx_hash tries. ok receipt;
  get_logs = λ address topics from_block. ok (transfer ∷ []);
  render = λ v. [];
  read_int = λ v. none;
  identity_digest = λ i. i.tx_hash;
}

abbrev authorization : Fields
authorization =
    field "from" (str buyer) (field "to" (str merchant) (field "nonce" (str used_nonce) end))

-- An order whose settlement was broadcast, and has not been confirmed.
abbrev waiting : Order
waiting = record (new_order (codes "ord_01") (pos 10000) (pos 4600) (pos 10000)) {
  nonce_seen = some used_nonce;
  submitted_tx = some tx;
  settle_attempts = 1;
  pending_tx = some tx;
  pending_authorization = some authorization;
}

abbrev before : Sut
before = record { fair_price = pos 10000; orders = waiting ∷ [] }

abbrev settled_reply : PayReply
settled_reply = record {
  order_id = codes "ord_01";
  submitted_tx = some tx;
  settled = true;
  reason = none;
  idempotent = false;
}

retried : (pay outside config (codes "ord_01") authorization before).1 ≡ ok settled_reply
unfolding pay pay_order find_order new_order psv.ReferenceSut.Server.pay_found
    psv.ReferenceSut.Server.unless_unresolved psv.ReferenceSut.Server.confirm
    psv.ReferenceSut.Server.after_wait psv.ReferenceSut.Server.confirm_with
    psv.ReferenceSut.Server.after_confirmer psv.ReferenceSut.Server.book
    psv.ReferenceSut.Server.book_identity psv.ReferenceSut.Server.confirm_index
    psv.ReferenceSut.Server.answered psv.Reconciliation.Credit.settlement_identity
    psv.Reconciliation.Fields.address psv.Reconciliation.Fields.exact_hex
    psv.Reconciliation.Fields.as_uint256 psv.Text.starts_with psv.Text.Hex.from_hex
    psv.ReferenceSut.Server.premium_content get psv.ReferenceSut.Confirmer.quantity
    psv.Text.Hex.int16 codes psv.ReferenceSut.Confirmer.same_hex psv.Text.text_eq psv.Text.lower
    topic_authorization_used topic_transfer topic_addr topic_nonce psv.Base.Int.◌-ℤ◌
    psv.ReferenceSut.Confirmer.padded_word psv.Text.Hex.int_body psv.Text.Hex.int_digits
    psv.Text.Hex.int_signed psv.Text.Hex.strip psv.Text.Hex.strip_left psv.Text.hex_value
    psv.Text.is_space psv.Text.lower_char psv.Text.remove_prefix_0x psv.Text.zeros
    psv.ReferenceSut.Confirmer.has_topics psv.ReferenceSut.Confirmer.is_authorization
    psv.ReferenceSut.Confirmer.is_transfer psv.ReferenceSut.Confirmer.receipt_log_matches_fetched
    psv.ReferenceSut.Confirmer.settlement_log_index psv.Base.◌>>=◌
    psv.ReferenceSut.Confirmer.confirmed_index psv.ReferenceSut.Confirmer.scan_logs
    psv.ReferenceSut.Confirmer.mappings psv.ReferenceSut.Confirmer.scan_log
    psv.ReferenceSut.Confirmer.relevant_index psv.ReferenceSut.Confirmer.index_in_block
retried = refl

pay_settled_example :
    (o : Order) × (find_order (codes "ord_01") before.orders ≡ some o)
    × (tx_hash : Text) × (some tx ≡ some tx_hash)
    × IsSettledBy outside config o authorization tx_hash
pay_settled_example =
    pay_settled outside config (codes "ord_01") authorization before settled_reply retried refl refl

abbrev paid_order : Order
paid_order = record (new_order (codes "ord_01") (pos 10000) (pos 4600) (pos 10000)) {
  paid = true;
  submitted_tx = some tx;
  resource = some (codes "premium-content::ord_01");
}

abbrev settled_sut : Sut
settled_sut = record { fair_price = pos 10000; orders = paid_order ∷ [] }

found : find_order (codes "ord_01") settled_sut.orders ≡ some paid_order
unfolding find_order new_order codes psv.Text.text_eq
found = refl

Payments-paid_example :
    find_order
      (codes "ord_01")
      (pay outside config (codes "ord_01") authorization settled_sut).0.orders
    ≡ some paid_order
unfolding new_order
Payments-paid_example =
    Payments-paid config settled_sut
      (pay outside config (codes "ord_01") authorization settled_sut).0 (codes "ord_01") paid_order
      refl refl found (then_pay outside (codes "ord_01") authorization settled_sut no_more)

abbrev empty : Sut
empty = record { fair_price = pos 10000; orders = [] }

quoted_found :
    find_order (codes "ord_01") (quote outside config empty).0.orders
    ≡ some (quoted_order outside config (pos 10000) (pos 3))
unfolding quote psv.ReferenceSut.Ledger.quote_at quoted_order find_order
    psv.ReferenceSut.State.put_order new_order codes psv.Text.text_eq
quoted_found = refl

Reachable-IsSound_example : IsSound (quoted_order outside config (pos 10000) (pos 3))
Reachable-IsSound_example =
    Reachable-IsSound config (quote outside config empty).0 (codes "ord_01")
      (quoted_order outside config (pos 10000) (pos 3)) (after_quote outside empty started)
      quoted_found
