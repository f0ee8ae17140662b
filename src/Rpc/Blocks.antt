-- ===== src/Rpc/Blocks.antt =====
-- The checks of `RpcClient.get_block` in src/psv/anvil.py on the node's answer.
use psv.Rpc.{rpc_error, Checked, max_list_items, quantity, hash}
use psv.Rpc.Evidence.{as_object, bounded_list, check_each}
use psv.Base.{String, Bool, true, false, not, none, some, List, any, ok, err, ◌>>=◌, ◌>>◌, raise_if}
use psv.Value.{Value, Fields, null, dict, get, get_or_null}

-- `value is None`
abbrev pub is_null : Value → Bool
is_null null = true
is_null _ = false

-- `isinstance(tx, dict)`
abbrev pub is_object : Value → Bool
is_object (dict fs) = true
is_object _ = false

-- `result[key]`, where the key has to be there
unfoldable pub member : String → Fields → Checked Value
member key fs = elim (get key fs) [ none ↦ err (rpc_error "missing") | some v ↦ ok v ]

-- Hashes are listed unless full transactions were asked for.
unfoldable pub validate_transactions : Bool → List Value → Checked (Unit {0})
unfolding check_each
validate_transactions false txs = check_each (λ tx. hash tx "transactions") txs
validate_transactions true txs =
    raise_if (any (λ tx. not (is_object tx)) txs) (rpc_error "transactions")

unfoldable pub validate_block : Bool → Value → Checked Fields
unfolding member validate_transactions
validate_block full result = do
  fs ← as_object result "block"
  number ← member "number" fs
  _ ← quantity number "number"
  timestamp ← member "timestamp" fs
  _ ← quantity timestamp "timestamp"
  block_hash ← member "hash" fs
  _ ← hash block_hash "hash"
  parent_hash ← member "parentHash" fs
  _ ← hash parent_hash "parentHash"
  txs ← bounded_list max_list_items (get_or_null "transactions" fs) "transactions"
  validate_transactions full txs
  ok fs
