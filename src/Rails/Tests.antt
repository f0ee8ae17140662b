-- ===== src/Rails/Tests.antt =====
-- Runs of src/psv/rails.py against scripted nodes, and its theorems at them.
use psv.Rails.{RailConfig}
use psv.Rpc.{RpcFailure}
use psv.Rpc.Exec.{Yields}
use psv.Rpc.Client.{Transport}
use psv.Rails.Observed.{Sha256}
use psv.Rails.Arguments.{Payment}
use psv.Rails.Live.{LiveReconciliation, reconcile_live}
use psv.Rails.Verdict.{graded_evidence, reconcile_live_verdict}
use psv.Rails.{check_rail}
use psv.Rails.Valid.{reconcile_live_pinned}
use psv.Rails.Known.First.{usdc_base}
use psv.Rails.Known.Lookup.{get_rail, IsKnown, get_rail-IsKnown}
use psv.Rails.Steps.{IsReadCode}
use psv.ReferenceSut.Confirmer.{topic_authorization_used}
use psv.Reconciliation.Credit.{topic_transfer}
use psv.Divergence.{consistent_paid, DivergenceKind, silent_loss}
use psv.Base.{◌≤◌, ◌≡◌, refl, ◌⊎◌, true, false, Option, none, some, str_eq, Result, ok, err, ◌>>=◌}
use psv.Base.Int.{◌+ℤ◌, ◌-ℤ◌}
use psv.Text.{Text, codes, text_eq, starts_with, lower, is_hex_digit, hex_value, zeros}
use psv.Value.{Value, Fields, bool, get, bounded_int}
use psv.Rails.Scenario.{digest, token, rail, main_rail, payment, node, main_node}

abbrev kind_of : Result RpcFailure LiveReconciliation → Option DivergenceKind
kind_of (ok r) = some r.divergence.kind
kind_of (err e) = none

-- A settlement that the system does not believe in is a silent loss.
unbelieved :
    kind_of (reconcile_live digest node token rail (payment (bool false)) 0).0 ≡ some silent_loss
unfolding reconcile_live psv.Rpc.Exec.◌>>=◌ text_eq lower codes zeros
    psv.Rails.Arguments.check_arguments psv.Base.◌>>=◌ psv.Text.Hex.is_hex_of psv.Value.bounded_int
    psv.Rpc.Methods.chain_id psv.Rpc.Client.call psv.Rpc.bounded_json psv.Rpc.within_depth
    psv.Rpc.bounded_value psv.Rpc.Evidence.as_object psv.Value.get psv.Rpc.Client.accept
    psv.Rpc.Client.payload psv.Rpc.quantity psv.Rpc.hash psv.Rpc.address psv.Rpc.hex_data
    psv.Rpc.block_param psv.Rpc.hex_of psv.Rpc.is_quantity_text psv.Rpc.is_data_text
    psv.Text.Hex.hex_fold psv.Text.is_hex_digit psv.Text.hex_value psv.Rpc.Evidence.validate_receipt
    psv.Rpc.Evidence.validate_logs psv.Rpc.Evidence.validate_log psv.Rpc.Evidence.check_each
    psv.Rpc.Evidence.check_present psv.Rpc.Evidence.bounded_list psv.Rpc.Evidence.boolean
    psv.Rpc.Evidence.has_all psv.Rpc.Blocks.validate_block psv.Rpc.Blocks.member
    psv.Rpc.Blocks.validate_transactions psv.Rpc.Reads.get_block psv.Rpc.Reads.get_logs
    psv.Rpc.Reads.get_code psv.Rpc.Reads.eth_call psv.Rpc.Reads.get_transaction_receipt
    psv.Rpc.Reads.ask_receipt psv.Rpc.Reads.check_topics psv.Rails.Observed.quantity
    psv.Rails.Observed.exact_hash psv.Rails.Observed.block_identity
    psv.Rails.Observed.code_fingerprint psv.Rails.Observed.balance_of
    psv.Rails.Observed.authorization_used psv.Rails.Observed.implementation_identity
    psv.Rails.Observed.verify_review_anchor psv.Chain.slot_addr psv.Chain.slot_bytes32
    psv.Chain.word_to_int psv.Text.Hex.int16 psv.Text.starts_with psv.Text.Hex.from_hex
    psv.Rails.Logs.selected_transfer psv.Rails.Logs.with_index
    psv.Rails.Logs.authorization_log_index psv.Rails.Logs.authorization_indices
    psv.Rails.Logs.only_transfer psv.Rails.Logs.all_are psv.Rails.Settled.ensure_no_same_block_race
    psv.Rails.Settled.settled_at psv.Rails.Settled.token_identity psv.Rails.Settled.pinned_balances
    psv.Rails.Live.attribute psv.Rails.Live.recheck psv.Rails.Live.settled_payment
    psv.Reconciliation.Credit.decode_transfer_log psv.Reconciliation.Credit.topic_transfer
    psv.Reconciliation.Credit.settlement_identity psv.Reconciliation.Credit.on_chain_credit
    psv.Reconciliation.Fields.exact_hex psv.Reconciliation.Fields.quantity
    psv.Reconciliation.Fields.address psv.Reconciliation.Fields.addr_from_topic
    psv.Reconciliation.Fields.topic_addr psv.Reconciliation.Fields.as_uint256
    topic_authorization_used psv.Divergence.detect_payment_divergence psv.Divergence.funds_moved
    psv.Base.Int.◌-ℤ◌ psv.Base.Int.◌+ℤ◌ psv.Rails.Arguments.uint256_from psv.Rails.Arguments.belief
unbelieved = refl

believed_on_mainnet :
    kind_of (reconcile_live digest main_node token main_rail (payment (bool true)) 0).0
    ≡ some consistent_paid
unfolding reconcile_live psv.Rpc.Exec.◌>>=◌ text_eq lower codes zeros
    psv.Rails.Arguments.check_arguments psv.Base.◌>>=◌ psv.Text.Hex.is_hex_of psv.Value.bounded_int
    psv.Rpc.Methods.chain_id psv.Rpc.Client.call psv.Rpc.bounded_json psv.Rpc.within_depth
    psv.Rpc.bounded_value psv.Rpc.Evidence.as_object psv.Value.get psv.Rpc.Client.accept
    psv.Rpc.Client.payload psv.Rpc.quantity psv.Rpc.hash psv.Rpc.address psv.Rpc.hex_data
    psv.Rpc.block_param psv.Rpc.hex_of psv.Rpc.is_quantity_text psv.Rpc.is_data_text
    psv.Text.Hex.hex_fold psv.Text.is_hex_digit psv.Text.hex_value psv.Rpc.Evidence.validate_receipt
    psv.Rpc.Evidence.validate_logs psv.Rpc.Evidence.validate_log psv.Rpc.Evidence.check_each
    psv.Rpc.Evidence.check_present psv.Rpc.Evidence.bounded_list psv.Rpc.Evidence.boolean
    psv.Rpc.Evidence.has_all psv.Rpc.Blocks.validate_block psv.Rpc.Blocks.member
    psv.Rpc.Blocks.validate_transactions psv.Rpc.Reads.get_block psv.Rpc.Reads.get_logs
    psv.Rpc.Reads.get_code psv.Rpc.Reads.eth_call psv.Rpc.Reads.get_transaction_receipt
    psv.Rpc.Reads.ask_receipt psv.Rpc.Reads.check_topics psv.Rails.Observed.quantity
    psv.Rails.Observed.exact_hash psv.Rails.Observed.block_identity
    psv.Rails.Observed.code_fingerprint psv.Rails.Observed.balance_of
    psv.Rails.Observed.authorization_used psv.Rails.Observed.implementation_identity
    psv.Rails.Observed.verify_review_anchor psv.Chain.slot_addr psv.Chain.slot_bytes32
    psv.Chain.word_to_int psv.Text.Hex.int16 psv.Text.starts_with psv.Text.Hex.from_hex
    psv.Rails.Logs.selected_transfer psv.Rails.Logs.with_index
    psv.Rails.Logs.authorization_log_index psv.Rails.Logs.authorization_indices
    psv.Rails.Logs.only_transfer psv.Rails.Logs.all_are psv.Rails.Settled.ensure_no_same_block_race
    psv.Rails.Settled.settled_at psv.Rails.Settled.token_identity psv.Rails.Settled.pinned_balances
    psv.Rails.Live.attribute psv.Rails.Live.recheck psv.Rails.Live.settled_payment
    psv.Reconciliation.Credit.decode_transfer_log psv.Reconciliation.Credit.topic_transfer
    psv.Reconciliation.Credit.settlement_identity psv.Reconciliation.Credit.on_chain_credit
    psv.Reconciliation.Fields.exact_hex psv.Reconciliation.Fields.quantity
    psv.Reconciliation.Fields.address psv.Reconciliation.Fields.addr_from_topic
    psv.Reconciliation.Fields.topic_addr psv.Reconciliation.Fields.as_uint256
    topic_authorization_used psv.Divergence.detect_payment_divergence psv.Divergence.funds_moved
    psv.Base.Int.◌-ℤ◌ psv.Base.Int.◌+ℤ◌ psv.Rails.Arguments.uint256_from psv.Rails.Arguments.belief
    psv.Rails.Observed.anchored_at
believed_on_mainnet = refl

reconcile_live_verdict_example :
    Yields
      (λ r. r.divergence ≡ graded_evidence false r.evidence)
      (reconcile_live digest node token rail (payment (bool false)))
reconcile_live_verdict_example =
    reconcile_live_verdict digest node token rail (payment (bool false)) false refl

main_rail-checked : check_rail main_rail ≡ ok tt
unfolding check_rail psv.Text.Hex.is_hex_of psv.Text.is_hex_digit codes zeros text_eq psv.Base.◌>>=◌
    psv.Rails.is_sha256_text psv.Rails.is_pinned
main_rail-checked = refl

reconcile_live_pinned_example :
    Yields
      (λ r.
        (r.evidence.settlement_block_number ≤ r.evidence.finality_block_number)
        × IsReadCode digest main_node token r.evidence.settlement_block_number
            r.evidence.identity.token_code
        × ((str_eq main_rail.attestation.network_class "mainnet" ≡ false)
            ⊎ (main_rail.attestation.expected_code_sha256 ≡ some r.evidence.identity.token_code)))
      (reconcile_live digest main_node token main_rail (payment (bool true)))
reconcile_live_pinned_example =
    reconcile_live_pinned digest main_node token main_rail (payment (bool true)) main_rail-checked

found_rail : get_rail "usdc-base" ≡ some usdc_base
unfolding get_rail
found_rail = refl

get_rail-IsKnown_example : (usdc_base.key ≡ "usdc-base") × IsKnown usdc_base
get_rail-IsKnown_example = get_rail-IsKnown "usdc-base" usdc_base found_rail
