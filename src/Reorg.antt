-- ===== src/Reorg.antt =====
-- src/psv/reorg.py: confirmations and reorg-aware finality. `take_checkpoint` and `reorg_to` only
-- forward to the RPC client and are not modelled.
pub mod Finality
mod Tests
use psv.Base.{
  ℕ, suc, ◌+◌, ◌-◌, String, Bool, true, false, not, ◌||◌, Option, none, some, ltb, leb, ◌==◌,
  if◌then◌else◌, is_none, Result, ok, err, ◌>>=◌, ◌>>◌,
}
use psv.Base.Int.{pos}
use psv.Text.{Text, text_eq, lower}
use psv.Value.{Value, int, bounded_int, uint256_max}
use psv.Text.Hex.{is_hex_of}

-- The ValueErrors of the module.
pub data ReorgError : Type 0 where
  bad_block bad_hash : String → ReorgError
  bad_confirmations : ReorgError

-- `_block`
unfoldable pub block : Value → String → Result ReorgError ℕ
block value what = elim (bounded_int uint256_max value) [
  | none ↦ err (bad_block what)
  | some n ↦ ok n
]

-- The arithmetic of `confirmations` on validated block numbers.
unfoldable pub depth_of : ℕ → ℕ → ℕ
depth_of current transaction =
    if transaction == 0 || ltb current transaction then 0 else current - transaction + 1

unfoldable pub confirmations : Value → Value → Result ReorgError ℕ
confirmations current_block tx_block = do
  current ← block current_block "current_block"
  transaction ← block tx_block "tx_block"
  ok (depth_of current transaction)

-- `type(required) is not int or required <= 0`
abbrev pub positive_int : Value → Option ℕ
positive_int (int (pos (suc n))) = some (suc n)
positive_int _ = none

unfoldable pub required_depth : Value → Result ReorgError ℕ
required_depth v = elim (positive_int v) [ none ↦ err bad_confirmations | some n ↦ ok n ]

unfoldable pub is_final : Value → Value → Value → Result ReorgError Bool
is_final current_block tx_block required_confirmations = do
  required ← required_depth required_confirmations
  depth ← confirmations current_block tx_block
  ok (leb required depth)

-- `_hash`
unfoldable pub hash : Text → String → Result ReorgError Text
hash value what = if is_hex_of 64 value then ok (lower value) else err (bad_hash what)

-- The texts of `SettlementFinality.reason`.
pub data Reason : Type 0 where
  reorged_out not_yet_mined hash_unavailable deep_and_canonical : Reason
  insufficient : ℕ → ℕ → Reason

pub record SettlementFinality : Type 0 where
  pub final : Bool
  pub confirmations : ℕ
  pub reorged : Bool
  pub reason : Reason

abbrev pub optional_hash : Option Text → Result ReorgError (Option Text)
optional_hash none = ok none
optional_hash (some h) = do exact ← hash h "canonical_block_hash"; ok (some exact)

-- `canonical is not None and canonical != settlement`
abbrev pub replaced : Option Text → Text → Bool
replaced none settlement = false
replaced (some h) settlement = not (text_eq h settlement)

-- The decisions of `assess_finality` on validated inputs, in their order.
unfoldable pub finality_of : Text → Option Text → ℕ → ℕ → SettlementFinality
finality_of settlement canonical depth required =
    if replaced canonical settlement
    then record { final = false; confirmations = depth; reorged = true; reason = reorged_out }
    else if depth == 0
    then record { final = false; confirmations = 0; reorged = false; reason = not_yet_mined }
    else if is_none canonical
    then record { final = false; confirmations = depth; reorged = false; reason = hash_unavailable }
    else if ltb depth required
    then record {
      final = false;
      confirmations = depth;
      reorged = false;
      reason = insufficient depth required;
    }
    else record {
      final = true;
      confirmations = depth;
      reorged = false;
      reason = deep_and_canonical;
    }

unfoldable pub assess_finality :
    Value → Text → Value → Option Text → Value → Result ReorgError SettlementFinality
assess_finality settlement_block_number settlement_block_hash current_block canonical_block_hash
      required_confirmations =
    do
      required ← required_depth required_confirmations
      settlement ← hash settlement_block_hash "settlement_block_hash"
      depth ← confirmations current_block settlement_block_number
      canonical ← optional_hash canonical_block_hash
      ok (finality_of settlement canonical depth required)
