-- ===== src/Reconciliation/Credit.antt =====
-- `SettlementIdentity`, `OnChainCredit` and `decode_transfer_log` of src/psv/reconciliation.py.
use psv.Base.{ℕ, Bool, not, ok, err, ◌>>=◌, ◌>>◌, raise_if}
use psv.Base.Int.{ℤ, pos, leb_ℤ}
use psv.Text.{Text, codes, text_eq}
use psv.Value.{Value, Fields, bool, str, list, nil, cons, get_or_null}
use psv.Text.Hex.{int16}
use psv.Reconciliation.Fields.{
  bad_chain_id, log_index_range, block_number_range, value_range, bad_topics, wrong_topic0,
  bad_removed, value_error, Checked, as_uint256, or_raise, exact_hex, quantity, address,
  addr_from_topic,
}

-- TOPIC_TRANSFER
unfoldable pub topic_transfer : Text
topic_transfer = codes "0xddf252ad1be2c89b69c2b068fc378daa952ba7f163c4a11628f55a4df523b3ef"

pub record SettlementIdentity : Type 0 where
  pub chain_id : ℤ
  pub asset : Text
  pub tx_hash : Text
  pub log_index : ℕ

-- `SettlementIdentity(...)`, with its `__post_init__`
unfoldable pub settlement_identity : ℤ → Text → Text → ℤ → Checked SettlementIdentity
settlement_identity chain_id asset tx_hash log_index = do
  raise_if (leb_ℤ chain_id (pos 0)) bad_chain_id
  asset' ← address (str asset) "asset"
  tx_hash' ← exact_hex (str tx_hash) 32 "tx hash"
  log_index' ← or_raise log_index_range (as_uint256 log_index)
  ok (record { chain_id = chain_id; asset = asset'; tx_hash = tx_hash'; log_index = log_index' })

pub record OnChainCredit : Type 0 where
  pub identity : SettlementIdentity
  pub open identity use {chain_id, asset, tx_hash, log_index}
  pub block_hash : Text
  pub block_number : ℕ
  pub payer : Text
  pub payee : Text
  pub value : ℕ
  pub removed : Bool

-- `OnChainCredit(...)`, with its `__post_init__`
unfoldable pub on_chain_credit :
    SettlementIdentity → Text → ℤ → Text → Text → ℤ → Bool → Checked OnChainCredit
on_chain_credit identity block_hash block_number payer payee value removed = do
  block_hash' ← exact_hex (str block_hash) 32 "block hash"
  payer' ← address (str payer) "payer"
  payee' ← address (str payee) "payee"
  block_number' ← or_raise block_number_range (as_uint256 block_number)
  value' ← or_raise value_range (as_uint256 value)
  ok (record {
    identity = identity;
    block_hash = block_hash';
    block_number = block_number';
    payer = payer';
    payee = payee';
    value = value';
    removed = removed;
  })

-- `isinstance(topics, list) and len(topics) == 3`
abbrev pub three_topics : Value → Checked (Value × Value × Value)
three_topics (list (cons a (cons b (cons c nil)))) = ok (a, b, c)
three_topics _ = err bad_topics

-- `isinstance(removed, bool)`
abbrev pub boolean : Value → Checked Bool
boolean (bool b) = ok b
boolean _ = err bad_removed

-- The part of `decode_transfer_log` after the topics have been counted.
unfoldable pub decode_fields : Fields → ℤ → Value × Value × Value → Checked OnChainCredit
decode_fields log chain_id (topic0, topic1, topic2) = do
  signature ← exact_hex topic0 32 "topic0"
  raise_if (not (text_eq signature topic_transfer)) wrong_topic0
  payload ← exact_hex (get_or_null "data" log) 32 "Transfer data"
  removed ← boolean (get_or_null "removed" log)
  asset ← address (get_or_null "address" log) "log address"
  tx_hash ← exact_hex (get_or_null "transactionHash" log) 32 "transaction hash"
  log_index ← quantity (get_or_null "logIndex" log) "log index"
  block_hash ← exact_hex (get_or_null "blockHash" log) 32 "block hash"
  block_number ← quantity (get_or_null "blockNumber" log) "block number"
  identity ← settlement_identity chain_id asset tx_hash (pos log_index)
  payer ← addr_from_topic topic1 "payer topic"
  payee ← addr_from_topic topic2 "payee topic"
  value ← or_raise value_error (int16 payload)
  on_chain_credit identity block_hash (pos block_number) payer payee value removed

unfoldable pub decode_transfer_log : Fields → ℤ → Checked OnChainCredit
unfolding decode_fields
decode_transfer_log log chain_id = do
  raise_if (leb_ℤ chain_id (pos 0)) bad_chain_id
  topics ← three_topics (get_or_null "topics" log)
  decode_fields log chain_id topics
