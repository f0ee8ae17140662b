-- ===== src/Rails/Logs.antt =====
-- The logs of src/psv/rails.py: the selected Transfer, the authorization, and the race check.
use psv.Rpc.{RpcFailure, value_error, evidence_error, Checked}
use psv.Rails.Observed.{quantity}
use psv.ReferenceSut.Confirmer.{as_list, topic_authorization_used}
use psv.Reconciliation.Fields.{ReconciliationError, value_error as plain_value_error, topic_addr}
use psv.Reconciliation.Credit.{OnChainCredit, decode_transfer_log}
use psv.Base.{
  ℕ, String, Bool, true, false, not, ◌&&◌, ◌||◌, Option, none, some, List, [], ◌∷◌, ◌==◌,
  if◌then◌else◌, length, ok, err, ◌>>=◌, ◌>>◌, raise_if, reraise,
}
use psv.Base.Int.{pos}
use psv.Text.{Text, text_eq, lower}
use psv.Value.{Value, Fields, bool, str, list, dict, nil, cons, get_or_null}

-- `except ReconciliationError`; the plain ValueError passes.
unfoldable pub not_a_transfer : ReconciliationError → RpcFailure
not_a_transfer plain_value_error = value_error "data"
not_a_transfer _ = evidence_error "not a Transfer"

-- An uncaught ReconciliationError is a ValueError.
abbrev pub uncaught : ReconciliationError → RpcFailure
uncaught e = value_error "address"

-- `receipt.get("logs")`, which is a list
abbrev pub logs_of : Option (List Value) → Checked (List Value)
logs_of none = err (evidence_error "logs are missing")
logs_of (some logs) = ok logs

abbrev pub receipt_logs : Fields → Checked (List Value)
receipt_logs receipt = logs_of (as_list (get_or_null "logs" receipt))

-- `str(raw.get("address", "")).lower() == token.lower()`; no other value is printed as an address.
abbrev pub emitted_by : Text → Fields → Bool
emitted_by token log = is_same (get_or_null "address" log)
  where
    is_same : Value → Bool
    is_same (str s) = text_eq (lower s) (lower token)
    is_same _ = false

-- `raw.get("topics") == [a, b, c]`
abbrev pub are_topics : Text → Text → Text → Value → Bool
are_topics a b c (list (cons (str s) (cons (str t) (cons (str u) nil)))) =
    text_eq s a && text_eq t b && text_eq u c
are_topics a b c _ = false

-- `raw.get("removed") is False`
abbrev pub is_kept : Value → Bool
is_kept (bool b) = not b
is_kept _ = false

-- The loop of `_authorization_log_index`: the indices of the matching logs.
unfoldable pub authorization_indices : Text → Text → Text → List Value → Checked (List ℕ)
authorization_indices token payer_topic nonce [] = ok []
authorization_indices token payer_topic nonce (dict log ∷ logs) =
    let rest = authorization_indices token payer_topic nonce logs in
    if emitted_by token log
      && are_topics topic_authorization_used payer_topic nonce (get_or_null "topics" log)
    then (if is_kept (get_or_null "removed" log)
        then (do
          index ← quantity (get_or_null "logIndex" log) "authorization log index"
          more ← rest
          ok (index ∷ more))
        else err (evidence_error "authorization removed"))
    else rest
authorization_indices token payer_topic nonce (_ ∷ logs) = err (evidence_error "malformed log")

-- `len(matches) == 1`
abbrev pub the_only : {A : Type 0} → String → List A → Checked A
the_only what (a ∷ []) = ok a
the_only what _ = err (evidence_error what)

-- `_authorization_log_index`
unfoldable pub authorization_log_index : Fields → Text → Text → Text → Checked ℕ
unfolding authorization_indices
authorization_log_index receipt token payer nonce = do
  payer_topic ← reraise uncaught (topic_addr payer)
  logs ← receipt_logs receipt
  indices ← authorization_indices token payer_topic (lower nonce) logs
  the_only "authorization" indices

-- The loop of `_selected_transfer`.
unfoldable pub with_index : ℕ → List Value → Checked (List Fields)
with_index log_index [] = ok []
with_index log_index (dict log ∷ logs) = do
  index ← quantity (get_or_null "logIndex" log) "receipt log index"
  rest ← with_index log_index logs
  ok (if index == log_index then log ∷ rest else rest)
with_index log_index (_ ∷ logs) = err (evidence_error "malformed log")

-- `_selected_transfer`
unfoldable pub selected_transfer : Fields → ℕ → ℕ → Text → Checked OnChainCredit
unfolding with_index not_a_transfer
selected_transfer receipt chain_id log_index token = do
  logs ← receipt_logs receipt
  selected ← with_index log_index logs
  log ← the_only "log index" selected
  credit ← reraise not_a_transfer (decode_transfer_log log (pos chain_id))
  raise_if (not (text_eq credit.asset (lower token))) (evidence_error "different token")
  ok credit

-- The loop of `_ensure_no_same_block_race`: every transfer is this one.
unfoldable pub all_are : OnChainCredit → List Fields → Checked Bool
unfolding not_a_transfer
all_are credit [] = ok true
all_are credit (log ∷ logs) = do
  observed ← reraise not_a_transfer (decode_transfer_log log credit.chain_id)
  raise_if observed.removed (evidence_error "removed log")
  rest ← all_are credit logs
  ok (text_eq observed.tx_hash credit.tx_hash && (observed.log_index == credit.log_index) && rest)

-- `identities == {identity}`: there is a transfer, and each one is this one.
unfoldable pub only_transfer : OnChainCredit → List Fields → Checked (Unit {0})
unfolding all_are
only_transfer credit logs = do
  same ← all_are credit logs
  raise_if (not same || length logs == 0) (evidence_error "race")
