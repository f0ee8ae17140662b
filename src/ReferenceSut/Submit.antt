-- ===== src/ReferenceSut/Submit.antt =====
-- `_submit_settlement` of src/psv/reference_sut/server.py, the one place where a transaction is
-- built, signed and sent.
use psv.Base.{ok, err, ◌>>=◌, reraise}
use psv.Base.Int.{ℤ, pos}
use psv.Text.{Text}
use psv.Value.{Fields, int}
use psv.ReferenceSut.State.{
  int_base16, safety_error, chain_error, item, int_item, text_item, SutConfig, Outside, Answer,
}
use psv.Safety.{require_safe_submission}
use psv.Chain.{settle_calldata}

-- The gas price that the node answers, or the fallback when it answers oddly.
abbrev pub gas_price_of : Answer ℤ → ℤ
gas_price_of (ok z) = z
gas_price_of (err e) = pos 1000000000

-- The part of `_submit_settlement` after the policy has let it through.
unfoldable pub build_and_send : Outside → SutConfig → Fields → Answer Text
build_and_send out config authorization = do
  from_addr ← text_item out "from" authorization
  to_addr ← text_item out "to" authorization
  value ← int_item out "value" authorization
  valid_after ← int_item out "validAfter" authorization
  valid_before ← int_item out "validBefore" authorization
  nonce ← text_item out "nonce" authorization
  signature ← text_item out "signature" authorization
  calldata ← reraise chain_error (
      settle_calldata (record {
        from_addr = from_addr;
        to_addr = to_addr;
        value = int value;
        valid_after = int valid_after;
        valid_before = int valid_before;
        nonce = nonce;
        signature = signature;
      }))
  count_answer ← out.transaction_count
  count ← int_base16 count_answer
  raw ← out.sign_transaction (record {
    recipient = config.token_address;
    payload = calldata;
    gas = config.gas;
    gas_price = gas_price_of (out.gas_price >>= int_base16);
    nonce = count;
    chain_id = config.chain_id;
  })
  out.send_raw_transaction raw

-- `_submit_settlement`
unfoldable pub submit_settlement : Outside → SutConfig → Fields → Answer Text
unfolding build_and_send
submit_settlement out config authorization = do
  payer ← text_item out "from" authorization
  signed_payee ← text_item out "to" authorization
  amount ← item "value" authorization
  safe ← reraise safety_error (
      require_safe_submission out.safety_rpc (record {
        configured_chain_id = config.chain_id;
        token_address = config.token_address;
        payer_address = payer;
        payee_address = config.merchant_address;
        authorization_to = signed_payee;
        authorization_amount = amount;
        expected_amount = config.price;
      }))
  build_and_send out config authorization
