-- ===== src/Cli/Tests.antt =====
-- A run of the command `reconcile` of src/psv/cli.py, on the rail of a local chain.

use psv.Base.{ℕ, ◌≡◌, refl, true, false, Option, none, some, [], Result, ok, err, ◌>>=◌}
use psv.Base.Int.{◌+ℤ◌, ◌-ℤ◌}
use psv.Text.{Text, codes, text_eq, starts_with, lower, hex_value}
use psv.Value.{Value, Fields, get}
use psv.Rails.Known.Lookup.{get_rail}
use psv.RunRecord.{Moment}
use psv.Cli.{Ended, RunFailure, Request, Command, Outside, cmd_reconcile, cmd_rail_drift}
use psv.Cli.Scenario.{request, command, outside}
use psv.Rails.Scenario.{payer, payee, nonce}
use psv.Rpc.Scripted
use psv.Text.{is_hex_digit, zeros}
use psv.Value.{bounded_int}
use psv.Text.Hex.{strip, strip_left, is_hex_of}
use psv.Cli.Options.{
  RawRequest, parse_request, bytes32, address, uint256, positive_uint256, int10, decimal_digits,
}
use psv.ReferenceSut.Confirmer.{topic_authorization_used}

-- The payment was settled and the system does not believe in it: a silent loss.
abbrev code_of : Result RunFailure Ended → Option ℕ
code_of (ok e) = some e.code
code_of (err e) = none

silent_loss_exits : code_of (cmd_reconcile (outside true true) command) ≡ some 1
unfolding psv.Rails.Live.reconcile_live psv.Rpc.Exec.◌>>=◌ text_eq lower codes zeros
    psv.Rails.Arguments.check_arguments psv.Base.◌>>=◌ psv.Text.Hex.is_hex_of psv.Value.bounded_int
    psv.Rpc.Methods.chain_id psv.Rpc.Client.call psv.Rpc.bounded_json psv.Rpc.within_depth
    psv.Rpc.bounded_value psv.Rpc.Evidence.as_object psv.Value.get psv.Rpc.Client.accept
    psv.Rpc.Client.payload psv.Rpc.quantity psv.Rpc.hash psv.Rpc.address psv.Rpc.hex_data
    psv.Rpc.block_param psv.Rpc.hex_of psv.Rpc.is_quantity_text psv.Rpc.is_data_text
    psv.Text.Hex.hex_fold psv.Text.is_hex_digit psv.Text.hex_value psv.Rpc.Evidence.validate_receipt
    psv.Rpc.Evidence.validate_logs psv.Rpc.Evidence.validate_log psv.Rpc.Evidence.check_each
    psv.Rpc.Evidence.check_present psv.Rpc.Evidence.bounded_list psv.Rpc.Evidence.boolean
    psv.Rpc.Evidence.has_all psv.Rpc.Blocks.validate_block psv.Rpc.Blocks.member
    psv.Rpc.Blocks.validate_transactions psv.Rpc.Reads.get_block psv.Rpc.Reads.get_logs
    psv.Rpc.Reads.get_code psv.Rpc.Reads.eth_call psv.Rpc.Reads.get_transaction_receipt
    psv.Rpc.Reads.ask_receipt psv.Rpc.Reads.check_topics psv.Rails.Observed.quantity
    psv.Rails.Observed.exact_hash psv.Rails.Observed.block_identity
    psv.Rails.Observed.code_fingerprint psv.Rails.Observed.balance_of
    psv.Rails.Observed.authorization_used psv.Rails.Observed.implementation_identity
    psv.Rails.Observed.verify_review_anchor psv.Chain.slot_addr psv.Chain.slot_bytes32
    psv.Chain.word_to_int psv.Text.Hex.int16 psv.Text.starts_with psv.Text.Hex.from_hex
    psv.Rails.Logs.selected_transfer psv.Rails.Logs.with_index
    psv.Rails.Logs.authorization_log_index psv.Rails.Logs.authorization_indices
    psv.Rails.Logs.only_transfer psv.Rails.Logs.all_are psv.Rails.Settled.ensure_no_same_block_race
    psv.Rails.Settled.settled_at psv.Rails.Settled.token_identity psv.Rails.Settled.pinned_balances
    psv.Rails.Live.attribute psv.Rails.Live.recheck psv.Rails.Live.settled_payment
    psv.Reconciliation.Credit.decode_transfer_log psv.Reconciliation.Credit.topic_transfer
    psv.Reconciliation.Credit.settlement_identity psv.Reconciliation.Credit.on_chain_credit
    psv.Reconciliation.Fields.exact_hex psv.Reconciliation.Fields.quantity
    psv.Reconciliation.Fields.address psv.Reconciliation.Fields.addr_from_topic
    psv.Reconciliation.Fields.topic_addr psv.Reconciliation.Fields.as_uint256
    topic_authorization_used psv.Divergence.detect_payment_divergence psv.Divergence.funds_moved
    psv.Base.Int.◌-ℤ◌ psv.Base.Int.◌+ℤ◌ psv.Rails.Arguments.uint256_from psv.Rails.Arguments.belief
    psv.Cli.cmd_reconcile psv.Cli.finish psv.Cli.emit psv.Cli.write_report psv.Cli.write_record
    psv.Cli.resolve_log_dir psv.Cli.run_reconcile psv.Rails.Known.Lookup.get_rail psv.Report.build
    psv.Report.exit_code psv.Report.Document.validate psv.Report.Document.to_dict
    psv.Report.reason_code_of psv.RunRecord.build_run_record psv.Divergence.is_failure
    psv.Report.Document.evidence_document psv.Text.Spaces.is_str_space
silent_loss_exits = refl

no_such_rail : cmd_rail_drift (outside true true) "usdc-moon" [] ≡ ok 2
unfolding cmd_rail_drift get_rail
no_such_rail = refl

abbrev raw : RawRequest
raw = record {
  payer = payer;
  payee = payee;
  nonce = nonce;
  transaction_hash = Scripted.bytes32 "a";
  log_index = codes "1";
  required_amount = codes " +5";
  payer_before = codes "0_9";
  payee_before = codes "0";
  sut_paid = false;
}

request_is_parsed : parse_request raw ≡ ok request
unfolding parse_request bytes32 address uint256 positive_uint256 int10 decimal_digits is_hex_of
    is_hex_digit codes strip strip_left zeros bounded_int psv.Base.◌>>=◌
request_is_parsed = refl
