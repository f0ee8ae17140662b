-- ===== src/Rpc/Evidence.antt =====
-- The validators of logs and receipts in src/psv/anvil.py.
use psv.Base.{
  ℕ, String, Bool, true, not, ◌&&◌, Option, none, some, List, [], ◌∷◌, leb, if◌then◌else◌, is_some,
  length, ok, err, ◌>>=◌, ◌>>◌, raise_if,
}
use psv.Value.{Value, Fields, bool, list, dict, to_list, get, get_or_null}
use psv.Rpc.{
  rpc_error, Checked, max_list_items, hex_data, quantity, hash, address, nullable_address,
}

-- `isinstance(value, dict)`
unfoldable pub as_object : Value → String → Checked Fields
as_object (dict fs) what = ok fs
as_object _ what = err (rpc_error what)

-- `isinstance(value, list) and len(value) <= most`
unfoldable pub bounded_list : ℕ → Value → String → Checked (List Value)
bounded_list most (list vs) what =
    if leb (length (to_list vs)) most then ok (to_list vs) else err (rpc_error what)
bounded_list most _ what = err (rpc_error what)

-- `type(value) is bool`
unfoldable pub boolean : Value → String → Checked Bool
boolean (bool b) what = ok b
boolean _ what = err (rpc_error what)

-- `not required.difference(value)`
unfoldable pub has_all : List String → Fields → Bool
has_all [] fs = true
has_all (k ∷ ks) fs = is_some (get k fs) && has_all ks fs

abbrev pub log_fields : List String
log_fields =
    "address" ∷ "topics" ∷ "data" ∷ "blockNumber" ∷ "transactionHash" ∷ "transactionIndex"
    ∷ "blockHash" ∷ "logIndex" ∷ "removed" ∷ []

-- Each item of a list is checked, and what the checks return is dropped.
unfoldable pub check_each : {A : Type 0} → (Value → Checked A) → List Value → Checked (Unit {0})
check_each check [] = ok tt
check_each check (v ∷ vs) = do _ ← check v; check_each check vs

-- `_validate_log`
unfoldable pub validate_log : Value → String → Checked Fields
unfolding check_each
validate_log value what = do
  fs ← as_object value what
  raise_if (not (has_all log_fields fs)) (rpc_error what)
  _ ← address (get_or_null "address" fs) "address"
  topics ← bounded_list 16 (get_or_null "topics" fs) "topics"
  check_each (λ topic. hash topic "topics") topics
  _ ← hex_data (get_or_null "data" fs) "data"
  _ ← quantity (get_or_null "blockNumber" fs) "blockNumber"
  _ ← hash (get_or_null "transactionHash" fs) "transactionHash"
  _ ← quantity (get_or_null "transactionIndex" fs) "transactionIndex"
  _ ← hash (get_or_null "blockHash" fs) "blockHash"
  _ ← quantity (get_or_null "logIndex" fs) "logIndex"
  _ ← boolean (get_or_null "removed" fs) "removed"
  ok fs

-- `[_validate_log(log, ...) for log in ...]`
unfoldable pub validate_logs : List Value → Checked (List Fields)
unfolding validate_log
validate_logs [] = ok []
validate_logs (v ∷ vs) = do log ← validate_log v "log"; rest ← validate_logs vs; ok (log ∷ rest)

abbrev pub receipt_fields : List String
receipt_fields = "transactionHash" ∷ "blockHash" ∷ "blockNumber" ∷ "status" ∷ "logs" ∷ []

-- `if key in value: check(value[key], ...)`
unfoldable pub check_present :
    {A : Type 0} → (Value → Checked A) → Option Value → Checked (Unit {0})
check_present check none = ok tt
check_present check (some v) = do _ ← check v; ok tt

-- `_validate_receipt`
unfoldable pub validate_receipt : Value → String → Checked Fields
unfolding validate_logs check_present
validate_receipt value what = do
  fs ← as_object value what
  raise_if (not (has_all receipt_fields fs)) (rpc_error what)
  _ ← hash (get_or_null "transactionHash" fs) "transactionHash"
  _ ← hash (get_or_null "blockHash" fs) "blockHash"
  _ ← quantity (get_or_null "blockNumber" fs) "blockNumber"
  status ← quantity (get_or_null "status" fs) "status"
  raise_if (not (leb status 1)) (rpc_error "status")
  logs ← bounded_list max_list_items (get_or_null "logs" fs) "logs"
  _ ← validate_logs logs
  check_present (λ v. quantity v "transactionIndex") (get "transactionIndex" fs)
  check_present (λ v. quantity v "cumulativeGasUsed") (get "cumulativeGasUsed" fs)
  check_present (λ v. quantity v "gasUsed") (get "gasUsed" fs)
  check_present (λ v. quantity v "type") (get "type" fs)
  check_present (λ v. address v "from") (get "from" fs)
  check_present (λ v. nullable_address v "to") (get "to" fs)
  ok fs
