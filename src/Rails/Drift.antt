-- ===== src/Rails/Drift.antt =====
-- `check_rail_drift` of src/psv/rails.py: one observation of a rail at its finality block.
use psv.Rails.{RailAttestation, RailConfig}
use psv.Chain.{slot_addr}
use psv.Rpc.{evidence_error}
use psv.Rpc.Exec.{Exec, pure, lift, raise_if, ◌>>=◌, ◌>>◌}
use psv.Rpc.Client.{Transport}
use psv.Rpc.Methods.{chain_id}
use psv.Rpc.Reads.{get_block, get_code}
use psv.Rails.Observed.{
  Sha256, block_identity, code_fingerprint, chain_failure, at_block, balance_of, authorization_used,
  Implementation, implementation_identity, verify_review_anchor,
}
use psv.Base.{
  ℕ, String, Bool, true, false, not, ◌&&◌, Option, none, some, ◌++◌, str_eq, if◌then◌else◌, reraise,
}
use psv.Base.Int.{pos, eqb_ℤ}
use psv.Text.{Text, codes, text_eq, zeros}
use psv.Value.{bool, str}

-- The reasons of the verdict, in the order of the branches.
pub data DriftReason : Type 0 where
  local_interface uncalibrated code_differs code_matches : DriftReason

pub record RailDriftCheck : Type 0 where
  pub rail_key : String
  pub chain_id : ℕ
  pub block_number : ℕ
  pub block_hash : Text
  pub code_sha256 : Text
  pub expected_code_sha256 : Option Text
  pub implementation : Option Implementation
  pub attestation_version : String
  pub calibrated : Bool
  pub matches : Bool
  pub reason : DriftReason

-- The comparison with the pinned code, of a rail that is not a calibrated local one.
unfoldable pub pinned_verdict : Bool → Option Text → Text → Bool × DriftReason
pinned_verdict calibrated none code_sha = (false, uncalibrated)
pinned_verdict calibrated (some expected) code_sha =
    if not calibrated
    then (false, uncalibrated)
    else if not (text_eq code_sha expected)
    then (false, code_differs)
    else (true, code_matches)

unfoldable pub drift_verdict : RailAttestation → Text → Bool × DriftReason
unfolding pinned_verdict
drift_verdict a code_sha =
    if str_eq a.network_class "local" && a.calibrated
    then (true, local_interface)
    else pinned_verdict a.calibrated a.expected_code_sha256 code_sha

-- `"0x" + "00" * 20` and `"0x" + "00" * 32`
abbrev pub zero_account : Text
zero_account = codes "0x" ++ zeros 40

abbrev pub zero_nonce : Text
zero_nonce = codes "0x" ++ zeros 64

unfoldable pub check_rail_drift : Sha256 → RailConfig → Transport → Exec RailDriftCheck
unfolding drift_verdict
check_rail_drift sha256 rail transport = do
  live_chain ← chain_id transport
  raise_if (not (eqb_ℤ (pos live_chain) rail.chain_id)) (evidence_error "chain mismatch")
  verify_review_anchor rail transport
  block ← get_block transport (str rail.finality.block_tag) (bool false)
  (number, block_hash) ← block_identity block
  code ← get_code transport rail.token_address (at_block number)
  code_sha ← lift (code_fingerprint sha256 code)
  implementation ← implementation_identity sha256 rail transport number
  _ ← lift (reraise chain_failure (slot_addr rail.token_address))
  _ ← balance_of transport rail.token_address zero_account (at_block number)
  _ ← authorization_used transport rail.token_address zero_account zero_nonce (at_block number)
  let (matches, reason) = drift_verdict rail.attestation code_sha
  pure (record {
    rail_key = rail.key;
    chain_id = live_chain;
    block_number = number;
    block_hash = block_hash;
    code_sha256 = code_sha;
    expected_code_sha256 = rail.attestation.expected_code_sha256;
    implementation = implementation;
    attestation_version = rail.attestation.version;
    calibrated = rail.attestation.calibrated;
    matches = matches;
    reason = reason;
  })
