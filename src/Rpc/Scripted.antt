-- ===== src/Rpc/Scripted.antt =====
-- A transport for tests of src/psv/anvil.py and its clients: the k-th request is answered by the k-th
-- result of a list, in a well-formed envelope.
use psv.Rpc.Client.{Transport}
use psv.Base.{ℕ, ◌-◌, String, false, Option, none, some, List, ◌++◌, get_elem?}
use psv.Base.Int.{pos}
use psv.Text.{Text, codes, zeros}
use psv.Value.{Value, Values, Fields, bool, int, str, list, dict, nil, end, field}

abbrev pub envelope : ℕ → Value → Value
envelope id result =
    dict
      (field "jsonrpc" (str (codes "2.0")) (field "id" (int (pos id)) (field "result" result end)))

abbrev pub scripted : List Value → Transport
scripted results request = answer (get_elem? results (request.id - 1))
  where
    answer : Option Value → Option Value
    answer none = none
    answer (some result) = some (envelope request.id result)

-- A 32-byte value and a 20-byte value whose digits are all zeros but the last one.
abbrev pub bytes32 : String → Text
bytes32 s = codes "0x" ++ zeros 63 ++ codes s

abbrev pub bytes20 : String → Text
bytes20 s = codes "0x" ++ zeros 39 ++ codes s

abbrev pub text : String → Value
text s = str (codes s)

-- A log of block 30, at the index that is given.
abbrev pub log_at : String → Text → Values → Value → Fields
log_at index addr topics payload = field "address" (str addr) (
    field "topics" (list topics) (
      field "data" payload (
        field "blockNumber" (text "0x1e") (
          field "transactionHash" (str (bytes32 "a")) (
            field "transactionIndex" (text "0x0") (
              field "blockHash" (str (bytes32 "b"))
                (field "logIndex" (text index) (field "removed" (bool false) end))))))))

abbrev pub receipt_with : String → Values → Value
receipt_with status logs = dict (
    field "transactionHash" (str (bytes32 "a")) (
      field "blockHash" (str (bytes32 "b")) (
        field "blockNumber" (text "0x1e")
          (field "status" (text status) (field "logs" (list logs) end)))))

-- A block with no transactions.
abbrev pub block_with : String → Text → Value
block_with number block_hash = dict (
    field "number" (text number) (
      field "timestamp" (text "0x5") (
        field "hash" (str block_hash)
          (field "parentHash" (str (bytes32 "c")) (field "transactions" (list nil) end)))))
