-- ===== src/Reconciliation/Decoding.antt =====
-- A decoded credit is well formed, and every field of it was read from the log.
use psv.Base.{
  ℕ, ◌+◌, ◌*◌, ◌≤◌, String, ◌≡◌, Bool, some, arith, length, length-drop, ok, ◌>>=◌, Ensures,
  Ensures-eq_ok, Ensures-bind, Ensures-skip,
}
use psv.Base.Int.{ℤ, pos, negsuc, ◌<ℤ◌}
use psv.Text.{Text, codes}
use psv.Value.{Value, Fields, str, uint256_max}
use psv.Text.Laws.{length-lower}
use psv.Reconciliation.Fields.{
  ReconciliationError, log_index_range, block_number_range, value_range, as_uint256, or_raise,
  exact_hex, quantity, address, addr_from_topic,
}
use psv.Reconciliation.Credit.{
  SettlementIdentity, settlement_identity, OnChainCredit, on_chain_credit, decode_fields,
  decode_transfer_log,
}

-- A validated text is the lower-cased input, of exactly the expected length.
pub exact_hex-Ensures :
    (v : Value) (size : ℕ) (what : String)
    → Ensures (λ t. length t ≡ 2 + size * 2) (exact_hex v size what)
unfolding exact_hex
exact_hex-Ensures (str s) size what = ground (arith, length-lower s)
exact_hex-Ensures _ size what = record { holds = tt }

pub address-Ensures : (v : Value) (what : String) → Ensures (λ t. length t ≡ 42) (address v what)
unfolding address
address-Ensures v what = ground (arith, exact_hex-Ensures v 20 what)

as_uint256-le : (z : ℤ) (n : ℕ) → as_uint256 z ≡ some n → n ≤ uint256_max
unfolding as_uint256
as_uint256-le (pos m) n h = ground arith
as_uint256-le (negsuc m) n h = cc

uint256-Ensures :
    (e : ReconciliationError) (z : ℤ) → Ensures (λ n. n ≤ uint256_max) (or_raise e (as_uint256 z))
unfolding as_uint256
uint256-Ensures e z = ground arith

pub quantity-Ensures :
    (v : Value) (what : String) → Ensures (λ n. n ≤ uint256_max) (quantity v what)
unfolding quantity ◌>>=◌
quantity-Ensures (str s) what = ground arith
quantity-Ensures _ what = record { holds = tt }

addr_from_topic-Ensures :
    (v : Value) (what : String) → Ensures (λ t. length t ≡ 42) (addr_from_topic v what)
unfolding addr_from_topic codes
addr_from_topic-Ensures v what =
    Ensures-bind (exact_hex-Ensures v 32 what)
      λ t size. Ensures-skip _ _ λ _. record { holds = omega (arith, length-drop 26 t) }

-- What a credit that came through the validators satisfies.
pub record IsWellFormed (c : OnChainCredit) : Type 0 where
  pub chain : pos 0 <ℤ c.chain_id
  pub asset_size : length c.asset ≡ 42
  pub tx_size : length c.tx_hash ≡ 66
  pub log_bound : c.log_index ≤ uint256_max
  pub hash_size : length c.block_hash ≡ 66
  pub block_bound : c.block_number ≤ uint256_max
  pub payer_size : length c.payer ≡ 42
  pub payee_size : length c.payee ≡ 42
  pub value_bound : c.value ≤ uint256_max

pub record IsIdentity (chain_id : ℤ) (i : SettlementIdentity) : Type 0 where
  pub same_chain : i.chain_id ≡ chain_id
  pub positive : pos 0 <ℤ i.chain_id
  pub asset_size : length i.asset ≡ 42
  pub tx_size : length i.tx_hash ≡ 66
  pub log_bound : i.log_index ≤ uint256_max

-- An identity is built only from a positive chain id and exact fields.
pub settlement_identity-Ensures :
    (chain_id : ℤ) (asset tx_hash : Text) (log_index : ℤ)
    → Ensures (IsIdentity chain_id) (settlement_identity chain_id asset tx_hash log_index)
unfolding settlement_identity ◌>>=◌
settlement_identity-Ensures chain_id asset tx_hash log_index = ground (
  arith,
  address-Ensures (str asset) "asset",
  exact_hex-Ensures (str tx_hash) 32 "tx hash",
  uint256-Ensures log_index_range log_index,
)

on_chain_credit-Ensures :
    (chain_id : ℤ) (i : SettlementIdentity) (block_hash : Text) (block_number : ℤ)
    (payer payee : Text) (value : ℤ) (removed : Bool)
    → IsIdentity chain_id i
    → Ensures
        (λ c. IsWellFormed c × (c.chain_id ≡ chain_id))
        (on_chain_credit i block_hash block_number payer payee value removed)
unfolding on_chain_credit ◌>>=◌
on_chain_credit-Ensures chain_id i block_hash block_number payer payee value removed h = ground (
  arith,
  exact_hex-Ensures (str block_hash) 32 "block hash",
  address-Ensures (str payer) "payer",
  address-Ensures (str payee) "payee",
  uint256-Ensures block_number_range block_number,
  uint256-Ensures value_range value,
)

-- Every decoded credit is well formed and belongs to the requested chain.
pub decode_fields-Ensures :
    (log : Fields) (chain_id : ℤ) (topics : Value × Value × Value)
    → Ensures (λ c. IsWellFormed c × (c.chain_id ≡ chain_id)) (decode_fields log chain_id topics)
unfolding decode_fields
decode_fields-Ensures log chain_id topics = Ensures-skip _ _ λ signature. Ensures-skip _ _ λ _.
    Ensures-skip _ _ λ payload. Ensures-skip _ _ λ removed. Ensures-skip _ _ λ asset.
      Ensures-skip _ _ λ tx_hash. Ensures-skip _ _ λ log_index. Ensures-skip _ _ λ block_hash.
        Ensures-skip _ _ λ block_number.
          Ensures-bind (settlement_identity-Ensures chain_id asset tx_hash (pos log_index)) λ i h.
            Ensures-skip _ _ λ payer. Ensures-skip _ _ λ payee. Ensures-skip _ _ λ value.
              on_chain_credit-Ensures chain_id i block_hash (pos block_number) payer payee value
                removed h

-- A log that decodes gives a well-formed credit of the requested chain: a positive chain id, exact
-- sizes of its addresses and hashes, and numbers within uint256.
pub decode_transfer_log-IsWellFormed :
    (log : Fields) (chain_id : ℤ) (c : OnChainCredit)
    → decode_transfer_log log chain_id ≡ ok c
    → IsWellFormed c × (c.chain_id ≡ chain_id)
unfolding decode_transfer_log
decode_transfer_log-IsWellFormed log chain_id c =
    Ensures-eq_ok
      (Ensures-skip _ _ λ _. Ensures-skip _ _ λ topics. decode_fields-Ensures log chain_id topics)
