-- ===== src/ReferenceSut/Confirmer.antt =====
-- src/psv/reference_sut/confirmer.py: a settlement is confirmed from the logs of its receipt. The
-- injected transport `fetch_logs` is a parameter; what it raises is passed on.
use psv.Text.Hex.{int16}
use psv.Base.{
  ◌-◌, Bool, false, not, ◌&&◌, Option, none, some, List, [], ◌∷◌, ◌++◌, if◌then◌else◌, is_some,
  length, any, Result, ok, ◌>>=◌,
}
use psv.Base.Int.{ℤ, pos, ltb_ℤ, eqb_ℤ}
use psv.Text.{Text, codes, text_eq, remove_prefix_0x, lower, zeros}
use psv.Value.{Value, Fields, bool, int, str, list, dict, to_list, get_or_null}

-- TOPIC_AUTHORIZATION_USED
unfoldable pub topic_authorization_used : Text
topic_authorization_used =
    codes "0x98de503528ee59b575ef0c0a2576a82497bfc029a5685b209e9ec333479b10a5"

-- `s.lower().removeprefix("0x").rjust(64, "0")`
unfoldable pub padded_word : Text → Text
padded_word s = let body = remove_prefix_0x (lower s) in zeros (64 - length body) ++ body

unfoldable pub topic_addr : Text → Text
topic_addr addr = codes "0x" ++ padded_word addr

unfoldable pub topic_nonce : Text → Text
topic_nonce nonce = codes "0x" ++ padded_word nonce

-- `_same_hex`
unfoldable pub same_hex : Value → Text → Bool
same_hex (str s) right = text_eq (lower s) (lower right)
same_hex _ right = false

-- `_quantity`; a bool is an int in Python.
unfoldable pub quantity : Value → Option ℤ
quantity (int z) = some z
quantity (bool b) = some (pos (if b then 1 else 0))
quantity (str s) = int16 s
quantity _ = none

-- `_quantity(value) == z`
abbrev pub is_quantity : Value → ℤ → Bool
is_quantity v z = elim (quantity v) [ none ↦ false | some n ↦ eqb_ℤ n z ]

-- `_topics`
abbrev pub topics_of : Value → List Value
topics_of (list vs) = to_list vs
topics_of _ = []

-- `isinstance(v, list)`
abbrev pub as_list : Value → Option (List Value)
as_list (list vs) = some (to_list vs)
as_list _ = none

-- `[log for log in logs if isinstance(log, Mapping)]`
unfoldable pub mappings : List Value → List Fields
mappings [] = []
mappings (dict fs ∷ vs) = fs ∷ mappings vs
mappings (_ ∷ vs) = mappings vs

-- `_receipt_log_matches_fetched`
unfoldable pub receipt_log_matches_fetched : Fields → List Fields → Bool
receipt_log_matches_fetched receipt_log fetched = elim (get_or_null "transactionHash" receipt_log) [
  | str tx ↦ elim (quantity (get_or_null "logIndex" receipt_log)) [
    | none ↦ false
    | some index ↦
        any
          (λ candidate.
            same_hex (get_or_null "transactionHash" candidate) tx
            && is_quantity (get_or_null "logIndex" candidate) index)
          fetched
  ]
  | _ ↦ false
]

-- The keyword arguments of `settlement_log_index`, but for the receipt.
pub record Settlement : Type 0 where
  pub token : Text
  pub payer : Text
  pub payee : Text
  pub expected_value : ℤ
  pub authorization_nonce : Text
  pub submitted_tx : Text
  pub from_block : ℤ

-- `log.get("removed") is True`
abbrev pub is_true : Value → Bool
is_true (bool b) = b
is_true _ = false

-- The guards at the head of the loop: the index of a log that passes them.
unfoldable pub relevant_index : Settlement → ℤ → Fields → Option ℤ
relevant_index p block_number log =
    if is_true (get_or_null "removed" log)
    then none
    else if not (same_hex (get_or_null "address" log) p.token)
    then none
    else if not (same_hex (get_or_null "transactionHash" log) p.submitted_tx)
    then none
    else if not (is_quantity (get_or_null "blockNumber" log) block_number)
    then none
    else quantity (get_or_null "logIndex" log)

-- Exactly three topics, which are the given ones.
unfoldable pub has_topics : List Value → Text → Text → Text → Bool
has_topics (a ∷ b ∷ c ∷ []) t0 t1 t2 = same_hex a t0 && same_hex b t1 && same_hex c t2
has_topics _ t0 t1 t2 = false

unfoldable pub is_transfer : Text → Settlement → List Fields → Fields → Bool
is_transfer watched p fetched log =
    has_topics (topics_of (get_or_null "topics" log)) watched (topic_addr p.payer)
      (topic_addr p.payee)
    && is_quantity (get_or_null "data" log) p.expected_value
    && receipt_log_matches_fetched log fetched

unfoldable pub is_authorization : Settlement → Fields → Bool
is_authorization p log =
    has_topics (topics_of (get_or_null "topics" log)) topic_authorization_used (topic_addr p.payer)
      (topic_nonce p.authorization_nonce)

-- The variables of the loop.
pub record Found : Type 0 where
  pub transfer_index : Option ℤ
  pub authorization_index : Option ℤ

-- One round of the loop.
unfoldable pub scan_log : Text → Settlement → List Fields → ℤ → Fields → Found → Found
scan_log watched p fetched block_number log f = elim (relevant_index p block_number log) [
  | none ↦ f
  | some index ↦ record {
    transfer_index = if is_transfer watched p fetched log then some index else f.transfer_index;
    authorization_index = if is_authorization p log then some index else f.authorization_index;
  }
]

unfoldable pub scan_logs : Text → Settlement → List Fields → ℤ → List Fields → Found → Found
scan_logs watched p fetched block_number [] f = f
scan_logs watched p fetched block_number (log ∷ logs) f =
    scan_logs watched p fetched block_number logs (scan_log watched p fetched block_number log f)

-- The decision after the loop.
unfoldable pub confirmed_index : Found → Option ℤ
confirmed_index f = elim f.transfer_index [
  | none ↦ none
  | some t ↦ elim f.authorization_index [
    | none ↦ none
    | some a ↦ if eqb_ℤ t a then none else some t
  ]
]

module _ {ℓ} {E : Type ℓ} (fetch_logs : Text → List Text → ℤ → Result E (List Fields)) where
  -- `settlement_log_index` from the fetch on.
  unfoldable pub index_in_block : Text → Settlement → Fields → ℤ → Result E (Option ℤ)
  index_in_block watched p receipt block_number = do
    fetched ←
        fetch_logs p.token (watched ∷ topic_addr p.payer ∷ topic_addr p.payee ∷ []) block_number
    elim (as_list (get_or_null "logs" receipt)) [
      | none ↦ ok none
      | some raw ↦ ok (
          confirmed_index (
            scan_logs watched p fetched block_number (mappings raw)
              (record { transfer_index = none; authorization_index = none })))
    ]

  unfoldable pub settlement_log_index : Text → Settlement → Option Fields → Result E (Option ℤ)
  unfolding index_in_block
  settlement_log_index watched p none = ok none
  settlement_log_index watched p (some receipt) =
      if not (is_quantity (get_or_null "status" receipt) (pos 1))
      then ok none
      else if not (same_hex (get_or_null "transactionHash" receipt) p.submitted_tx)
      then ok none
      else if not (same_hex (get_or_null "to" receipt) p.token)
      then ok none
      else elim (quantity (get_or_null "blockNumber" receipt)) [
        | none ↦ ok none
        | some block_number ↦
            if ltb_ℤ block_number p.from_block
            then ok none
            else index_in_block watched p receipt block_number
      ]

  unfoldable pub is_settled : Text → Settlement → Option Fields → Result E Bool
  is_settled watched p receipt = do
    index ← settlement_log_index watched p receipt
    ok (is_some index)
