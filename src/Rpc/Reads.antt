-- ===== src/Rpc/Reads.antt =====
-- The methods of `RpcClient` in src/psv/anvil.py that read blocks, logs, code and receipts, and the
-- one that broadcasts a transaction.
use psv.Rpc.{rpc_error, value_error, max_list_items, hash, hex_data, address, block_param}
use psv.Rpc.Evidence.{bounded_list, validate_logs, validate_receipt}
use psv.Rpc.Exec.{Exec, pure, lift, raise_if, ◌>>=◌, ◌>>◌}
use psv.Rpc.Client.{Transport, call}
use psv.Rpc.Methods.{flag}
use psv.Rpc.Blocks.{is_null, validate_block}
use psv.Base.{ℕ, zero, suc, not, Option, none, some, List, [], ◌∷◌, leb, if◌then◌else◌, length, err}
use psv.Base.Int.{ℤ, pos, pos_part, ltb_ℤ, leb_ℤ}
use psv.Text.{Text}
use psv.Value.{Value, Values, Fields, null, bool, str, list, dict, nil, cons, end, field}

unfoldable pub get_block : Transport → Value → Value → Exec Fields
get_block transport block full_transactions = do
  full ← lift (flag full_transactions "full_transactions")
  selector ← lift (block_param block)
  result ← call transport "eth_getBlockByNumber" (cons (str selector) (cons (bool full) nil))
  lift (validate_block full result)

-- A topic of a filter: a text, or None, which matches every topic.
abbrev pub topic_value : Option Text → Value
topic_value none = null
topic_value (some s) = str s

abbrev pub topic_values : List (Option Text) → Values
topic_values [] = nil
topic_values (t ∷ ts) = cons (topic_value t) (topic_values ts)

unfoldable pub check_topics : List (Option Text) → Exec (Unit {0})
check_topics [] = pure tt
check_topics (none ∷ ts) = check_topics ts
check_topics (some s ∷ ts) = do _ ← lift (hash (str s) "topic"); check_topics ts

-- `from_block` and `to_block` are given in this order.
unfoldable pub get_logs : Transport → Text → List (Option Text) → Value → Value → Exec (List Fields)
unfolding check_topics
get_logs transport addr topics from_block to_block = do
  _ ← lift (address (str addr) "eth_getLogs address")
  raise_if (not (leb (length topics) 16)) (value_error "topics")
  check_topics topics
  from_selector ← lift (block_param from_block)
  to_selector ← lift (block_param to_block)
  result ← call transport "eth_getLogs" (
      cons
        (dict (
          field "address" (str addr) (
            field "topics" (list (topic_values topics))
              (field "fromBlock" (str from_selector) (field "toBlock" (str to_selector) end)))))
        nil)
  logs ← lift (bounded_list max_list_items result "eth_getLogs")
  lift (validate_logs logs)

unfoldable pub eth_call : Transport → Text → Text → Value → Exec Text
eth_call transport to calldata block = do
  _ ← lift (address (str to) "eth_call to")
  _ ← lift (hex_data (str calldata) "eth_call data")
  selector ← lift (block_param block)
  result ← call transport "eth_call" (
      cons (dict (field "to" (str to) (field "data" (str calldata) end))) (cons (str selector) nil))
  lift (hex_data result "eth_call")

unfoldable pub get_code : Transport → Text → Value → Exec Text
get_code transport addr block = do
  _ ← lift (address (str addr) "eth_getCode address")
  selector ← lift (block_param block)
  result ← call transport "eth_getCode" (cons (str addr) (cons (str selector) nil))
  lift (hex_data result "eth_getCode")

unfoldable pub send_raw_transaction : Transport → Text → Exec Text
send_raw_transaction transport raw = do
  _ ← lift (hex_data (str raw) "raw transaction")
  result ← call transport "eth_sendRawTransaction" (cons (str raw) nil)
  lift (hash result "eth_sendRawTransaction")

-- One request for a receipt; a null answer is none.
unfoldable pub ask_receipt : Transport → Text → Exec Value
ask_receipt transport tx_hash = call transport "eth_getTransactionReceipt" (cons (str tx_hash) nil)

unfoldable pub get_transaction_receipt : Transport → Text → Exec Fields
unfolding ask_receipt
get_transaction_receipt transport tx_hash = do
  _ ← lift (hash (str tx_hash) "transaction hash")
  receipt ← ask_receipt transport tx_hash
  raise_if (is_null receipt) (rpc_error "no receipt")
  lift (validate_receipt receipt "receipt")

-- `for _ in range(tries)`: the loop of `wait_for_receipt`, which ends at the first receipt. The time
-- that it sleeps between two requests is not modelled.
unfoldable pub poll : Transport → Text → ℕ → Exec Fields
unfolding ask_receipt
poll transport tx_hash zero = lift (err (rpc_error "no receipt"))
poll transport tx_hash (suc tries) = do
  receipt ← ask_receipt transport tx_hash
  let again = poll transport tx_hash tries
  if is_null receipt then again else lift (validate_receipt receipt "receipt")

-- `tries` and `delay` are integers; a `delay` of a fraction of a second is not modelled.
unfoldable pub wait_for_receipt : Transport → Text → ℤ → ℤ → Exec Fields
unfolding poll
wait_for_receipt transport tx_hash tries delay = do
  _ ← lift (hash (str tx_hash) "transaction hash")
  raise_if (leb_ℤ tries (pos 0)) (value_error "tries")
  raise_if (ltb_ℤ delay (pos 0)) (value_error "delay")
  poll transport tx_hash (pos_part tries)
