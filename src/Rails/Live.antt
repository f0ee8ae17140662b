-- ===== src/Rails/Live.antt =====
-- The verdict of `reconcile_live` in src/psv/rails.py.
use psv.Rails.{RailConfig}
use psv.Rpc.{evidence_error, Checked}
use psv.Rpc.Exec.{Exec, pure, lift, raise_if, ◌>>=◌, ◌>>◌}
use psv.Rpc.Client.{Transport}
use psv.Rpc.Methods.{chain_id}
use psv.Rpc.Reads.{get_block, get_transaction_receipt}
use psv.Rails.Observed.{Sha256, exact_hash, block_identity, at_block, verify_review_anchor}
use psv.Rails.Logs.{authorization_log_index, selected_transfer}
use psv.Rails.Arguments.{Payment, Arguments, check_arguments}
use psv.Rails.Settled.{
  ensure_no_same_block_race, Settled, confirmations, settled_at, Identity, token_identity, Balances,
  pinned_balances,
}
use psv.Reconciliation.Credit.{OnChainCredit}
use psv.Divergence.{SettlementTruth, Divergence, detect_payment_divergence}
use psv.Base.{
  ℕ, String, Bool, true, false, not, ◌&&◌, ◌||◌, Option, none, some, ◌==◌, str_eq, if◌then◌else◌,
  ok, err,
}
use psv.Base.Int.{ℤ, pos, ◌-ℤ◌, ltb_ℤ, leb_ℤ, eqb_ℤ}
use psv.Text.{Text, text_eq, lower}
use psv.Value.{bool, get_or_null}

-- What the receipt shows of the payment: the transfer and the authorization of a receipt that
-- succeeded, with the truth that is graded.
pub record Attribution : Type 0 where
  pub selected_log : Option OnChainCredit
  pub auth_log_index : Option ℕ
  pub received_amount : ℤ
  pub truth : SettlementTruth

-- The selected Transfer is the requested payment.
unfoldable pub is_requested : Payment → Arguments → Settled → OnChainCredit → Bool
is_requested p a s c =
    text_eq c.tx_hash a.tx_hash
    && text_eq c.block_hash s.block_hash
    && (c.block_number == s.number)
    && text_eq c.payer (lower p.payer)
    && text_eq c.payee (lower p.payee)

-- `payer_delta == -event_value and 0 < received_amount <= event_value`
unfoldable pub is_attributed : ℤ → ℤ → ℕ → Bool
is_attributed payer_delta received_amount event_value =
    eqb_ℤ payer_delta (pos 0 -ℤ pos event_value)
    && ltb_ℤ (pos 0) received_amount
    && leb_ℤ received_amount (pos event_value)

-- `receipt_status == 1`
unfoldable pub settled_payment :
    Transport → Text → ℕ → Payment → Arguments → Settled → Balances → Exec Attribution
unfolding is_requested is_attributed
settled_payment transport token live_chain p a s b = do
  selected ← lift (selected_transfer s.receipt live_chain a.log_index token)
  raise_if selected.removed (evidence_error "removed by a reorg")
  raise_if (not (is_requested p a s selected)) (evidence_error "not the requested payment")
  auth_index ← lift (authorization_log_index s.receipt token p.payer p.nonce)
  raise_if (not b.nonce_consumed) (evidence_error "nonce state")
  ensure_no_same_block_race transport token selected p.payer p.payee
  let payer_delta = b.payer_after -ℤ b.payer_parent
  let received_amount = b.payee_after -ℤ b.payee_parent
  raise_if (not (is_attributed payer_delta received_amount selected.value))
      (evidence_error "attribution")
  pure (record {
    selected_log = some selected;
    auth_log_index = some auth_index;
    received_amount = received_amount;
    truth = record {
      nonce_consumed = true;
      payer_balance_after = b.payer_after;
      payee_balance_after = b.payee_after;
      payer_delta = payer_delta;
      payee_delta = received_amount;
    };
  })

-- The other receipts were reverted.
unfoldable pub reverted_payment : Balances → Checked Attribution
reverted_payment b =
    if b.nonce_consumed
    then err (evidence_error "nonce consumed by another settlement")
    else ok (record {
      selected_log = none;
      auth_log_index = none;
      received_amount = pos 0;
      truth = record {
        nonce_consumed = false;
        payer_balance_after = b.payer_after;
        payee_balance_after = b.payee_after;
        payer_delta = pos 0;
        payee_delta = pos 0;
      };
    })

unfoldable pub attribute :
    Transport → Text → ℕ → Payment → Arguments → Settled → Balances → Exec Attribution
unfolding settled_payment reverted_payment
attribute transport token live_chain p a s b =
    if s.status == 1
    then settled_payment transport token live_chain p a s b
    else lift (reverted_payment b)

-- The settlement is looked at again after everything has been read.
unfoldable pub recheck : Transport → Arguments → Settled → Exec (Unit {0})
unfolding block_identity
recheck transport a s = do
  receipt_after ← get_transaction_receipt transport a.tx_hash
  canonical_after ← get_block transport (at_block s.number) (bool false)
  (_, canonical_hash_after) ← block_identity canonical_after
  hash_after ← lift (exact_hash (get_or_null "blockHash" receipt_after) "rechecked receipt")
  raise_if
      (not (text_eq hash_after s.block_hash) || not (text_eq canonical_hash_after s.block_hash))
      (evidence_error "reorged during observation")

-- The provenance of a verdict. Two fields of the source for what is behind a proxy are one here, and
-- so are the fields that it reads off the selected log.
pub record ChainEvidence : Type 0 where
  pub chain_id : ℕ
  pub finality_block_number : ℕ
  pub finality_block_hash : Text
  pub finality_block_tag : Text
  pub confirmations : ℤ
  pub settlement_block_number : ℕ
  pub settlement_block_hash : Text
  pub transaction_hash : Text
  pub receipt_status : ℕ
  pub selected_log : Option OnChainCredit
  pub authorization_log_index : Option ℕ
  pub token_address : Text
  pub identity : Identity
  pub rail_attestation_version : String
  pub payer : Text
  pub payee : Text
  pub nonce : Text
  pub required_amount : ℕ
  pub received_amount : ℤ
  pub balances : Balances

pub record LiveReconciliation : Type 0 where
  pub divergence : Divergence
  pub evidence : ChainEvidence

abbrev pub evidence_of :
    Text
    → RailConfig
    → Payment
    → ℕ
    → Arguments
    → Settled
    → Identity
    → Balances
    → Attribution
    → ChainEvidence
evidence_of token rail p live_chain a s i b t = record {
  chain_id = live_chain;
  finality_block_number = s.finality_number;
  finality_block_hash = s.finality_hash;
  finality_block_tag = rail.finality.block_tag;
  confirmations = confirmations s.finality_number s.number;
  settlement_block_number = s.number;
  settlement_block_hash = s.block_hash;
  transaction_hash = a.tx_hash;
  receipt_status = s.status;
  selected_log = t.selected_log;
  authorization_log_index = t.auth_log_index;
  token_address = lower token;
  identity = i;
  rail_attestation_version = rail.attestation.version;
  payer = lower p.payer;
  payee = lower p.payee;
  nonce = lower p.nonce;
  required_amount = a.required_amount;
  received_amount = t.received_amount;
  balances = b;
}

-- The token handle is an address, whose TokenView has been constructed.
unfoldable pub reconcile_live :
    Sha256 → Transport → Text → RailConfig → Payment → Exec LiveReconciliation
unfolding attribute recheck settled_at token_identity pinned_balances
reconcile_live sha256 transport token rail p = do
  raise_if (not (text_eq (lower token) (lower rail.token_address))) (evidence_error "token handle")
  a ← lift (check_arguments p)
  live_chain ← chain_id transport
  raise_if (not (eqb_ℤ (pos live_chain) rail.chain_id)) (evidence_error "chain mismatch")
  raise_if (str_eq rail.attestation.network_class "mainnet" && not rail.attestation.calibrated)
      (evidence_error "uncalibrated")
  verify_review_anchor rail transport
  s ← settled_at transport rail a.tx_hash
  i ← token_identity sha256 transport token rail s.number
  b ← pinned_balances transport token p a s.number
  t ← attribute transport token live_chain p a s b
  recheck transport a s
  pure (record {
    divergence = detect_payment_divergence t.truth a.believes (some (pos a.required_amount));
    evidence = evidence_of token rail p live_chain a s i b t;
  })
