-- ===== src/Rpc/Accepted.antt =====
-- What the client of src/psv/anvil.py has checked of a log and of a receipt that it returns.
use psv.Rpc.{
  Checked, max_list_items, is_quantity_text, is_data_text, quantity, hash, address, hex_data,
}
use psv.Rpc.Evidence.{
  as_object, bounded_list, boolean, check_each, validate_log, validate_logs, validate_receipt,
}
use psv.Rpc.Bounded.{not-eq_false}
use psv.Rpc.Exec.{Yields, Yields-skip, Yields-lift}
use psv.Rpc.Client.{Transport}
use psv.Rpc.Reads.{get_transaction_receipt}
use psv.Text.Hex.{is_hex_of}
use psv.Base.{
  ℕ, ◌≤◌, String, ◌≡◌, refl, subst, Bool, true, List, [], ◌∷◌, arith, leb, if-cases, length, All,
  ok, Ensures, Ensures-bind, Ensures-skip, Ensures-raise_if, Ensures-self, Ensures-map,
}
use psv.Text.{Text}
use psv.Value.{Value, Values, Fields, bool, str, list, dict, to_list, get_or_null}

-- A text that passes a test.
abbrev pub IsText : (Text → Bool) → Value → Type 0
IsText test v = (s : Text) × (v ≡ str s) × (test s ≡ true)

-- A decoded log with every field that the client checks.
pub record IsLog (fs : Fields) : Type 0 where
  pub token : IsText (is_hex_of 40) (get_or_null "address" fs)
  pub topics :
      (vs : Values) × (get_or_null "topics" fs ≡ list vs)
      × (length (to_list vs) ≤ 16)
      × All (IsText (is_hex_of 64)) (to_list vs)
  pub payload : IsText is_data_text (get_or_null "data" fs)
  pub block_number : IsText is_quantity_text (get_or_null "blockNumber" fs)
  pub tx_hash : IsText (is_hex_of 64) (get_or_null "transactionHash" fs)
  pub tx_index : IsText is_quantity_text (get_or_null "transactionIndex" fs)
  pub block_hash : IsText (is_hex_of 64) (get_or_null "blockHash" fs)
  pub log_index : IsText is_quantity_text (get_or_null "logIndex" fs)
  pub removed : (b : Bool) × (get_or_null "removed" fs ≡ bool b)

abbrev pub IsLogValue : Value → Type 0
IsLogValue v = (fs : Fields) × (v ≡ dict fs) × IsLog fs

-- A receipt of a mined transaction, which succeeded or was reverted.
pub record IsReceipt (fs : Fields) : Type 0 where
  pub tx_hash : IsText (is_hex_of 64) (get_or_null "transactionHash" fs)
  pub block_hash : IsText (is_hex_of 64) (get_or_null "blockHash" fs)
  pub block_number : IsText is_quantity_text (get_or_null "blockNumber" fs)
  pub status : (n : ℕ) × (quantity (get_or_null "status" fs) "status" ≡ ok n) × (n ≤ 1)
  pub logs :
      (vs : Values) × (get_or_null "logs" fs ≡ list vs)
      × (length (to_list vs) ≤ max_list_items)
      × All IsLogValue (to_list vs)

abbrev Accepts : (Value → String → Checked Text) → (Text → Bool) → Type 0
Accepts check test = (v : Value) (what : String) → Ensures (λ s. IsText test v) (check v what)

hash-Accepts : Accepts hash (is_hex_of 64)
unfolding hash
hash-Accepts (str s) what =
    if-cases (Ensures (λ t. IsText (is_hex_of 64) (str s))) (is_hex_of 64 s)
      (λ h. record { holds = (s, refl, h) }) λ h. record { holds = tt }
hash-Accepts _ what = record { holds = tt }

address-Accepts : Accepts address (is_hex_of 40)
unfolding address
address-Accepts (str s) what =
    if-cases (Ensures (λ t. IsText (is_hex_of 40) (str s))) (is_hex_of 40 s)
      (λ h. record { holds = (s, refl, h) }) λ h. record { holds = tt }
address-Accepts _ what = record { holds = tt }

hex_data-Accepts : Accepts hex_data is_data_text
unfolding hex_data
hex_data-Accepts (str s) what =
    if-cases (Ensures (λ t. IsText is_data_text (str s))) (is_data_text s)
      (λ h. record { holds = (s, refl, h) }) λ h. record { holds = tt }
hex_data-Accepts _ what = record { holds = tt }

pub quantity-Accepts :
    (v : Value) (what : String) → Ensures (λ n. IsText is_quantity_text v) (quantity v what)
unfolding quantity
quantity-Accepts (str s) what =
    if-cases (Ensures (λ n. IsText is_quantity_text (str s))) (is_quantity_text s)
      (λ h. Ensures-map (Ensures-self _) λ n e. (s, refl, h)) λ h. record { holds = tt }
quantity-Accepts _ what = record { holds = tt }

boolean-Accepts : (v : Value) (what : String) → Ensures (λ b. v ≡ bool b) (boolean v what)
unfolding boolean
boolean-Accepts (bool b) what = record { holds = refl }
boolean-Accepts _ what = record { holds = tt }

bounded_list-Accepts :
    (most : ℕ) (v : Value) (what : String)
    → Ensures
        (λ xs. (vs : Values) × (v ≡ list vs) × (length (to_list vs) ≤ most) × (xs ≡ to_list vs))
        (bounded_list most v what)
unfolding bounded_list
bounded_list-Accepts most (list vs) what =
    if-cases (Ensures _) (leb (length (to_list vs)) most)
      (λ h. record { holds = (vs, refl, (let n = length (to_list vs) in ground arith), refl) })
      λ h. record { holds = tt }
bounded_list-Accepts most _ what = record { holds = tt }

hashes-All :
    (what : String) (vs : List Value)
    → Ensures (λ u. All (IsText (is_hex_of 64)) vs) (check_each (λ topic. hash topic what) vs)
unfolding check_each
hashes-All what [] = record { holds = tt }
hashes-All what (v ∷ vs) =
    Ensures-bind (hash-Accepts v what) λ s h. Ensures-map (hashes-All what vs) λ u hs. (h, hs)

as_object-Accepts : (v : Value) (what : String) → Ensures (λ fs. v ≡ dict fs) (as_object v what)
unfolding as_object
as_object-Accepts (dict fs) what = record { holds = refl }
as_object-Accepts _ what = record { holds = tt }

-- A log that passes the checks is the decoded object itself, with every field in its domain.
validate_log-IsLog :
    (v : Value) (what : String) → Ensures (λ fs. (v ≡ dict fs) × IsLog fs) (validate_log v what)
unfolding validate_log
validate_log-IsLog v what = Ensures-bind (as_object-Accepts v what) λ fs o.
    Ensures-raise_if _ _ _ λ present. Ensures-bind (address-Accepts _ "address") λ _ token.
      Ensures-bind (bounded_list-Accepts 16 _ "topics") λ topics (vs, is_list, few, same).
        Ensures-bind (hashes-All "topics" topics) λ _ hashes.
          Ensures-bind (hex_data-Accepts _ "data") λ _ payload.
            Ensures-bind (quantity-Accepts _ "blockNumber") λ _ block_number.
              Ensures-bind (hash-Accepts _ "transactionHash") λ _ tx_hash.
                Ensures-bind (quantity-Accepts _ "transactionIndex") λ _ tx_index.
                  Ensures-bind (hash-Accepts _ "blockHash") λ _ block_hash.
                    Ensures-bind (quantity-Accepts _ "logIndex") λ _ log_index.
                      Ensures-bind (boolean-Accepts _ "removed") λ b removed. record {
                        holds = (
                          o,
                          record {
                            token = token;
                            topics =
                                (vs, is_list, few, subst (All (IsText (is_hex_of 64))) same hashes);
                            payload = payload;
                            block_number = block_number;
                            tx_hash = tx_hash;
                            tx_index = tx_index;
                            block_hash = block_hash;
                            log_index = log_index;
                            removed = (b, removed);
                          },
                        );
                      }

validate_logs-All : (vs : List Value) → Ensures (λ logs. All IsLogValue vs) (validate_logs vs)
unfolding validate_logs
validate_logs-All [] = record { holds = tt }
validate_logs-All (v ∷ vs) =
    Ensures-bind (validate_log-IsLog v "log") λ fs (o, l).
      Ensures-bind (validate_logs-All vs) λ rest hs. record { holds = ((fs, o, l), hs) }

validate_receipt-IsReceipt :
    (v : Value) (what : String) → Ensures IsReceipt (validate_receipt v what)
unfolding validate_receipt
validate_receipt-IsReceipt v what = Ensures-skip _ _ λ fs. Ensures-skip _ _ λ _.
    Ensures-bind (hash-Accepts _ "transactionHash") λ _ tx_hash.
      Ensures-bind (hash-Accepts _ "blockHash") λ _ block_hash.
        Ensures-bind (quantity-Accepts _ "blockNumber") λ _ block_number.
          Ensures-bind (Ensures-self (quantity (get_or_null "status" fs) "status")) λ n status.
            Ensures-raise_if _ _ _ λ small.
              Ensures-bind (bounded_list-Accepts max_list_items _ "logs")
                λ logs (vs, is_list, few, same). Ensures-bind (validate_logs-All logs) λ _ all_logs.
                  Ensures-skip _ _ λ _. Ensures-skip _ _ λ _. Ensures-skip _ _ λ _.
                    Ensures-skip _ _ λ _. Ensures-skip _ _ λ _. Ensures-skip _ _ λ _. record {
                      holds = record {
                        tx_hash = tx_hash;
                        block_hash = block_hash;
                        block_number = block_number;
                        status =
                            (n, status, (let s = not-eq_false (leb n 1) small in ground arith));
                        logs = (vs, is_list, few, subst (All IsLogValue) same all_logs);
                      };
                    }

-- A receipt that `get_transaction_receipt` returns has a 32-byte transaction hash and block hash, a
-- canonical block number, a status of 0 or 1, and a bounded list of logs. Each log has a 20-byte
-- address, at most 16 topics of 32 bytes, hexadecimal data, canonical block number, transaction index
-- and log index, 32-byte hashes of transaction and block, and a Boolean for its removal.
pub get_transaction_receipt-IsReceipt :
    (transport : Transport) (tx_hash : Text)
    → Yields IsReceipt (get_transaction_receipt transport tx_hash)
unfolding get_transaction_receipt
get_transaction_receipt-IsReceipt transport tx_hash = Yields-skip _ _ λ _.
    Yields-skip _ _
      λ receipt. Yields-skip _ _ λ _. Yields-lift _ (validate_receipt-IsReceipt receipt "receipt")
