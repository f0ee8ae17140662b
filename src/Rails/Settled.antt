-- ===== src/Rails/Settled.antt =====
-- `reconcile_live` of src/psv/rails.py: one settlement, proved from a canonical pinned snapshot, and
-- graded. Its paragraphs are functions of their own, in the order of the source.
use psv.Rails.{RailConfig}
use psv.Rpc.{evidence_error}
use psv.Rpc.Exec.{Exec, pure, lift, raise_if, ◌>>=◌, ◌>>◌}
use psv.Rpc.Client.{Transport}
use psv.Rpc.Reads.{get_block, get_code, get_logs, get_transaction_receipt}
use psv.Rails.Observed.{
  Sha256, quantity, exact_hash, block_identity, code_fingerprint, at_block, balance_of,
  authorization_used, Implementation, implementation_identity,
}
use psv.Rails.Logs.{uncaught, only_transfer}
use psv.Rails.Arguments.{Payment, Arguments}
use psv.Reconciliation.Fields.{topic_addr}
use psv.Reconciliation.Credit.{OnChainCredit, topic_transfer}
use psv.Base.{ℕ, ◌-◌, Bool, false, not, ◌||◌, Option, none, some, [], ◌∷◌, ◌++◌, ◌==◌, reraise}
use psv.Base.Int.{ℤ, pos, ◌+ℤ◌, ◌-ℤ◌, ltb_ℤ, eqb_ℤ}
use psv.Text.{Text, text_eq}
use psv.Value.{Fields, bool, str, get_or_null}

-- `_ensure_no_same_block_race`
unfoldable pub ensure_no_same_block_race :
    Transport → Text → OnChainCredit → Text → Text → Exec (Unit {0})
unfolding only_transfer
ensure_no_same_block_race transport token credit payer payee = do
  payee_topic ← lift (reraise uncaught (topic_addr payee))
  inbound ←
      get_logs transport token (some topic_transfer ∷ none ∷ some payee_topic ∷ [])
        (at_block credit.block_number) (at_block credit.block_number)
  payer_topic ← lift (reraise uncaught (topic_addr payer))
  outbound ←
      get_logs transport token (some topic_transfer ∷ some payer_topic ∷ none ∷ [])
        (at_block credit.block_number) (at_block credit.block_number)
  lift (only_transfer credit (inbound ++ outbound))

-- The receipt of the transaction, and where it stands: `finality_number - settlement_number + 1`
-- confirmations, in a block that is canonical.
pub record Settled : Type 0 where
  pub finality_number : ℕ
  pub finality_hash : Text
  pub receipt : Fields
  pub number : ℕ
  pub block_hash : Text
  pub status : ℕ

unfoldable pub confirmations : ℕ → ℕ → ℤ
confirmations finality_number number = pos finality_number -ℤ pos number +ℤ pos 1

unfoldable pub settled_at : Transport → RailConfig → Text → Exec Settled
unfolding block_identity exact_hash quantity confirmations
settled_at transport rail tx_hash = do
  finality_block ← get_block transport (str rail.finality.block_tag) (bool false)
  (finality_number, finality_hash) ← block_identity finality_block
  receipt ← get_transaction_receipt transport tx_hash
  receipt_tx ← lift (exact_hash (get_or_null "transactionHash" receipt) "receipt")
  raise_if (not (text_eq receipt_tx tx_hash)) (evidence_error "receipt transaction hash")
  number ← lift (quantity (get_or_null "blockNumber" receipt) "receipt block number")
  block_hash ← lift (exact_hash (get_or_null "blockHash" receipt) "receipt block hash")
  status ← lift (quantity (get_or_null "status" receipt) "receipt status")
  raise_if (ltb_ℤ (confirmations finality_number number) rail.finality.minimum_confirmations)
      (evidence_error "confirmations")
  canonical ← get_block transport (at_block number) (bool false)
  (canonical_number, canonical_hash) ← block_identity canonical
  raise_if (not (canonical_number == number) || not (text_eq canonical_hash block_hash))
      (evidence_error "not canonical")
  pure (record {
    finality_number = finality_number;
    finality_hash = finality_hash;
    receipt = receipt;
    number = number;
    block_hash = block_hash;
    status = status;
  })

-- `expected_code is not None and token_code != expected_code`
abbrev pub differs_from : Option Text → Text → Bool
differs_from none code = false
differs_from (some expected) code = not (text_eq code expected)

-- The code of the token, and what is behind it.
pub record Identity : Type 0 where
  pub token_code : Text
  pub implementation : Option Implementation

unfoldable pub token_identity : Sha256 → Transport → Text → RailConfig → ℕ → Exec Identity
token_identity sha256 transport token rail number = do
  code ← get_code transport token (at_block number)
  token_code ← lift (code_fingerprint sha256 code)
  raise_if (differs_from rail.attestation.expected_code_sha256 token_code)
      (evidence_error "runtime code")
  implementation ← implementation_identity sha256 rail transport number
  pure (record { token_code = token_code; implementation = implementation })

-- The balances at the parent block and at the settlement block.
pub record Balances : Type 0 where
  pub payer_parent : ℤ
  pub payee_parent : ℤ
  pub payer_after : ℤ
  pub payee_after : ℤ
  pub nonce_consumed : Bool

unfoldable pub pinned_balances : Transport → Text → Payment → Arguments → ℕ → Exec Balances
pinned_balances transport token p a number = do
  raise_if (number == 0) (evidence_error "genesis")
  payer_parent ← balance_of transport token p.payer (at_block (number - 1))
  payee_parent ← balance_of transport token p.payee (at_block (number - 1))
  payer_after ← balance_of transport token p.payer (at_block number)
  payee_after ← balance_of transport token p.payee (at_block number)
  nonce_consumed ← authorization_used transport token p.payer p.nonce (at_block number)
  raise_if
      (not (eqb_ℤ (pos a.payer_before) payer_parent)
        || not (eqb_ℤ (pos a.payee_before) payee_parent))
      (evidence_error "before-balances")
  pure (record {
    payer_parent = payer_parent;
    payee_parent = payee_parent;
    payer_after = payer_after;
    payee_after = payee_after;
    nonce_consumed = nonce_consumed;
  })
