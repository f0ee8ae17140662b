-- ===== src/Rpc/Tests.antt =====
-- Runs of the client of src/psv/anvil.py, and its theorems at concrete answers.
use psv.Rpc.{RpcFailure, rpc_error, max_depth, bounded_json, quantity, block_param}
use psv.Rpc.Bounded.{height, IsSized, bounded_json_iff}
use psv.Rpc.Numerals.{block_param-quantity}
use psv.Rpc.Envelope.{IsAnswer, call_iff}
use psv.Rpc.Evidence.{as_object, validate_receipt}
use psv.Rpc.Exec.{Yields}
use psv.Rpc.Client.{accept, payload, Transport, call}
use psv.Rpc.Reads.{ask_receipt, get_transaction_receipt, wait_for_receipt}
use psv.Rpc.Waiting.{
  IsPending, wait_for_receipt_finds, wait_for_receipt_ends, wait_for_receipt_gives_up,
}
use psv.Rpc.Accepted.{IsReceipt, get_transaction_receipt-IsReceipt}
use psv.Text.Hex.{is_hex_of}
use psv.Rpc.Scripted.{scripted, bytes32, text, receipt_with}
use psv.Base.{
  ℕ, zero, suc, ◌+◌, ◌≤◌, ◌<◌, ◌≡◌, refl, ◌↔◌, true, some, [], ◌∷◌, arith, ok, err, ◌>>=◌, Ensures,
}
use psv.Base.Int.{pos}
use psv.Text.{Text, codes, text_eq, is_hex_digit, zeros}
use psv.Value.{Value, null, int, str, list, nil, cons, get}

abbrev nested : Value
nested = list (cons (list (cons (text "x") nil)) (cons null nil))

bounded_json_iff_example :
    (bounded_json nested 15 ≡ ok tt) ↔ (IsSized nested × (height nested + 15 ≤ max_depth))
bounded_json_iff_example = bounded_json_iff nested 15

too_deep : bounded_json nested 15 ≡ err (rpc_error "nesting")
unfolding bounded_json psv.Rpc.within_depth psv.Rpc.bounded_value ◌>>=◌
too_deep = refl

block_param-quantity_example :
    Ensures (λ s. quantity (str s) "block" ≡ ok 67_327_446) (block_param (int (pos 67_327_446)))
block_param-quantity_example = block_param-quantity 67_327_446 "block"

-- Two polls are answered with null, and the third one with a receipt.
abbrev slow_node : Transport
slow_node = scripted (null ∷ null ∷ receipt_with "0x1" nil ∷ [])

abbrev tx : Text
tx = bytes32 "a"

call_iff_example :
    ((call slow_node "eth_getTransactionReceipt" (cons (str tx) nil) 2).1 ≡ 2 + 1)
    × (((call slow_node "eth_getTransactionReceipt" (cons (str tx) nil) 2).0
          ≡ ok (receipt_with "0x1" nil))
        ↔ ((response : Value) × (slow_node (record {
          id = 2 + 1;
          method = "eth_getTransactionReceipt";
          params = cons (str tx) nil;
        })
              ≡ some response)
            × IsAnswer (2 + 1) response (receipt_with "0x1" nil)))
call_iff_example =
    call_iff slow_node "eth_getTransactionReceipt" (cons (str tx) nil) 2 (receipt_with "0x1" nil)

get_transaction_receipt-IsReceipt_example : Yields IsReceipt (get_transaction_receipt slow_node tx)
get_transaction_receipt-IsReceipt_example = get_transaction_receipt-IsReceipt slow_node tx

tx-is_hex_of : is_hex_of 64 tx ≡ true
unfolding is_hex_of is_hex_digit codes zeros
tx-is_hex_of = refl

-- The envelopes are accepted.
first-IsPending : IsPending slow_node tx 0
unfolding ask_receipt call accept bounded_json psv.Rpc.within_depth psv.Rpc.bounded_value ◌>>=◌
    as_object payload codes zeros text_eq get
first-IsPending = refl

second-IsPending : IsPending slow_node tx 1
unfolding ask_receipt call accept bounded_json psv.Rpc.within_depth psv.Rpc.bounded_value ◌>>=◌
    as_object payload codes zeros text_eq get
second-IsPending = refl

third_found : (ask_receipt slow_node tx 2).0 ≡ ok (receipt_with "0x1" nil)
unfolding ask_receipt call accept bounded_json psv.Rpc.within_depth psv.Rpc.bounded_value ◌>>=◌
    as_object payload codes zeros text_eq get
third_found = refl

IsPending-before : (at : ℕ) → 0 ≤ at → at < 2 → IsPending slow_node tx at
IsPending-before zero a b = first-IsPending
IsPending-before (suc zero) a b = second-IsPending
IsPending-before (suc (suc n)) a b = absurd (omega arith)

wait_for_receipt_finds_example :
    wait_for_receipt slow_node tx (pos 5) (pos 0) 0
    ≡ (validate_receipt (receipt_with "0x1" nil) "receipt", 2 + 1)
wait_for_receipt_finds_example =
    wait_for_receipt_finds slow_node tx 5 0 2 0 (receipt_with "0x1" nil) tx-is_hex_of (omega arith)
      (omega arith) IsPending-before third_found refl

wait_for_receipt_ends_example : (wait_for_receipt slow_node tx (pos 5) (pos 0) 0).1 ≤ 0 + 5
wait_for_receipt_ends_example = wait_for_receipt_ends slow_node tx 5 0 0 tx-is_hex_of (omega arith)

wait_for_receipt_gives_up_example :
    wait_for_receipt slow_node tx (pos 2) (pos 0) 0 ≡ (err (rpc_error "no receipt"), 0 + 2)
wait_for_receipt_gives_up_example =
    wait_for_receipt_gives_up slow_node tx 2 0 0 tx-is_hex_of (omega arith) IsPending-before
