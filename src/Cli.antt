-- ===== src/Cli.antt =====
-- src/psv/cli.py: the two commands, from their parsed arguments to the exit code. Calls of the
-- operating system are answered by an `Outside`; the texts of a report are a parameter.
pub mod Options
pub mod Accepted
pub mod Verdict
pub mod Scenario
mod Tests
use psv.Base.{
  ℕ, String, Bool, true, false, not, ◌&&◌, ◌||◌, Option, none, some, ◌∷◌, ltb, if◌then◌else◌,
  length, Result, ok, err, ◌>>=◌, ◌>>◌, reraise,
}
use psv.Base.Int.{ℤ, pos}
use psv.Text.{Text, codes}
use psv.Value.{Value, Fields, null, bool, int, float, str, dict, end, field}
use psv.Rpc.{RpcFailure}
use psv.Rpc.Client.{Transport}
use psv.Rails.{RailConfig}
use psv.Rails.Observed.{Sha256}
use psv.Rails.Arguments.{Payment}
use psv.Rails.Live.{reconcile_live}
use psv.Rails.Drift.{
  DriftReason, local_interface, uncalibrated, code_differs, code_matches, RailDriftCheck,
  check_rail_drift,
}
use psv.Rails.Known.Lookup.{get_rail}
use psv.Report.{ReportError, no_reason_code, Timestamp, ReconReport, build, exit_code}
use psv.Report.Document.{label, implementation_address, implementation_code, to_dict, validate}
use psv.Report.Live.{reported}
use psv.RunRecord.{Library, Moment, Run, build_run_record}

-- What is asked of one settlement: the arguments whose types are numbers and flags.
pub record Request : Type 0 where
  pub payer : Text
  pub payee : Text
  pub nonce : Text
  pub transaction_hash : Text
  pub log_index : ℤ
  pub required_amount : ℤ
  pub payer_before : ℤ
  pub payee_before : ℤ
  pub sut_believes_paid : Bool

abbrev pub payment_of : Request → Payment
payment_of q = record {
  payer = q.payer;
  payee = q.payee;
  nonce = q.nonce;
  transaction_hash = q.transaction_hash;
  log_index = int q.log_index;
  required_amount = int q.required_amount;
  payer_before = int q.payer_before;
  payee_before = int q.payee_before;
  sut_believes_paid = bool q.sut_believes_paid;
}

-- The failures of the reads, those of the report, and the ValueError of a text with a number that has
-- more digits than Python prints.
pub data RunFailure : Type 0 where
  unproven : RpcFailure → RunFailure
  unreported : ReportError → RunFailure
  unprintable : RunFailure

-- `run_reconcile`, with the `_id` of the client of the token
unfoldable pub run_reconcile :
    Sha256 → Transport → Text → RailConfig → Request → Timestamp → ℕ → Result RunFailure ReconReport
run_reconcile sha256 transport token rail q time id = do
  result ← reraise unproven (reconcile_live sha256 transport token rail (payment_of q) id).0
  reraise unreported (build rail (reported (payment_of q) q.sut_believes_paid time result))

-- The parsed arguments of `reconcile`.
pub record Command : Type 0 where
  pub rail : String
  pub request : Request
  pub rpc_url : Text
  pub json_out : Option Text
  pub md_out : Option Text
  pub log_dir : Option Text
  pub no_log : Bool

-- What the process meets: the answers of the node behind the endpoint, the times, the environment,
-- the texts of a document and a report, where they can be printed, whether a file, a record and standard output can be written, and the texts of errors.
pub record Outside : Type 0 where
  pub sha256 : Sha256
  pub transport : Text → Transport
  pub library : Library
  pub policy : Text
  pub dumps : Fields → Option Text
  pub markdown : ReconReport → Option Text
  pub started_at : Moment
  pub generated_at : String
  pub finished_at : Moment
  pub version : Text
  pub environment : Value
  pub no_log_env : Text
  pub write_bytes : Text → Text → Bool
  pub write_run_record : Fields → Text → Bool
  pub stdout_open : Bool
  pub describe : RunFailure → Text
  pub os_error : Text

abbrev pub or_default_dir : Text → Option Text
or_default_dir (c ∷ s) = none
or_default_dir _ = some (codes "psv-runs")

-- `_resolve_log_dir`
unfoldable pub resolve_log_dir : Outside → Command → Option Text
resolve_log_dir o c = if c.no_log then none else flagged c.log_dir
  where
    flagged : Option Text → Option Text
    flagged (some dir) = some dir
    flagged none = or_default_dir o.no_log_env

-- `_MAX_REPORT_BYTES`
abbrev pub max_report_bytes : ℕ
max_report_bytes = 2_097_152

-- `_write_report` of an encoded payload; `false` is its OSError, and without a path nothing is written.
unfoldable pub write_report : Outside → Option Text → Text → Bool
write_report o none payload = true
write_report o (some path) payload =
    not (ltb max_report_bytes (length payload)) && o.write_bytes path payload

abbrev pub inputs : Command → Fields
inputs c =
    let q = c.request in
    field "rail" (str (codes c.rail)) (
      field "payer" (str q.payer) (
        field "payee" (str q.payee) (
          field "nonce" (str q.nonce) (
            field "transaction_hash" (str q.transaction_hash) (
              field "log_index" (int q.log_index) (
                field "required_amount" (int q.required_amount) (
                  field "payer_before" (int q.payer_before) (
                    field "payee_before" (int q.payee_before) (
                      field "sut_believes_paid" (bool q.sut_believes_paid) (
                        field "rpc_url" (str c.rpc_url)
                          (field "rpc_timeout" (float true) end)))))))))))

abbrev pub run_of : Outside → Command → Value → ℕ → Option Text → Run
run_of o c report code error = record {
  command = codes "reconcile";
  inputs = inputs c;
  report = report;
  code = int (pos code);
  started_at = o.started_at;
  finished_at = o.finished_at;
  error = error;
  version = o.version;
  environment = o.environment;
}

-- The OSError and the ValueError of a record that cannot be kept.
abbrev pub kept : {E : Type 0} → Outside → Text → Result E Fields → Bool
kept o dir (ok record_fields) = o.write_run_record record_fields dir
kept o dir (err e) = false

-- The local `write_record`
unfoldable pub write_record : Outside → Command → Value → ℕ → Option Text → Bool
unfolding resolve_log_dir
write_record o c report code error = into (resolve_log_dir o c)
  where
    into : Option Text → Bool
    into none = true
    into (some dir) = kept o dir (build_run_record o.library (run_of o c report code error))

abbrev pub now : Outside → Timestamp
now o = record { is_aware = true; iso = o.generated_at }

-- How the process ends: its exit code, and the run that it handed to `write_record` where records are
-- on. No path hands over two.
pub record Ended : Type 0 where
  pub code : ℕ
  pub audit : Option Run

abbrev pub ended : ℕ → Option Run → Ended
ended code audit = record { code = code; audit = audit }

abbrev pub audit_of : Outside → Command → Value → ℕ → Option Text → Option Run
audit_of o c report code error = on (resolve_log_dir o c)
  where
    on : Option Text → Option Run
    on none = none
    on (some dir) = some (run_of o c report code error)

-- The files, the output and the record of a report that validates. A closed standard output is an
-- OSError, which `main` turns into 2.
unfoldable pub emit : Outside → Command → ReconReport → Text → Text → Ended
emit o c report markdown json =
    let doc = dict (to_dict o.policy report) in
    if not (write_report o c.json_out json) || not (write_report o c.md_out markdown)
    then ended 2 (audit_of o c doc 2 (some o.os_error))
    else if not o.stdout_open
    then ended 2 none
    else if not (write_record o c doc (exit_code report) none)
    then ended 2 (audit_of o c doc (exit_code report) none)
    else ended (exit_code report) (audit_of o c doc (exit_code report) none)

-- `except (RpcError, ValueError)`: each failure but a kind without a reason code, which is a KeyError.
abbrev pub end_of_failure : Outside → Command → RunFailure → Result RunFailure Ended
end_of_failure o c (unreported no_reason_code) = err (unreported no_reason_code)
end_of_failure o c e = ok (ended 2 (audit_of o c null 2 (some (o.describe e))))

abbrev pub or_unprintable : Option Text → Result RunFailure Text
or_unprintable none = err unprintable
or_unprintable (some s) = ok s

-- `_cmd_reconcile` from the report on; `to_markdown` and `to_json` validate and print it, outside
-- of any `try`.
unfoldable pub finish : Outside → Command → Result RunFailure ReconReport → Result RunFailure Ended
finish o c (err e) = end_of_failure o c e
finish o c (ok report) = do
  reraise unreported (validate o.policy report)
  markdown ← or_unprintable (o.markdown report)
  json ← or_unprintable (o.dumps (to_dict o.policy report))
  ok (emit o c report markdown json)

-- `_cmd_reconcile` under `main`: how it ends, or what it raises.
unfoldable pub cmd_reconcile : Outside → Command → Result RunFailure Ended
cmd_reconcile o c = on (get_rail c.rail)
  where
    on : Option RailConfig → Result RunFailure Ended
    on none = ok (ended 2 none)
    on (some rail) =
        finish o c (
          run_reconcile o.sha256 (o.transport c.rpc_url) rail.token_address rail c.request (now o)
            0)

abbrev pub reason_text : DriftReason → String
reason_text local_interface = "ephemeral local deployment exposes the required pinned interface"
reason_text uncalibrated = "rail is uncalibrated: reviewed code/proxy identity is not pinned"
reason_text code_differs = "runtime code hash differs from the reviewed attestation"
reason_text code_matches = "runtime interface and code identity match the reviewed attestation"

abbrev pub optional_text : Option Text → Value
optional_text none = null
optional_text (some s) = str s

-- `RailDriftCheck.as_dict`
unfoldable pub as_dict : RailDriftCheck → Fields
as_dict c = field "railKey" (label c.rail_key) (
    field "chainId" (int (pos c.chain_id)) (
      field "blockNumber" (int (pos c.block_number)) (
        field "blockHash" (str c.block_hash) (
          field "codeSha256" (str c.code_sha256) (
            field "expectedCodeSha256" (optional_text c.expected_code_sha256) (
              field "implementationAddress" (implementation_address c.implementation) (
                field "implementationCodeSha256" (implementation_code c.implementation) (
                  field "attestationVersion" (label c.attestation_version) (
                    field "calibrated" (bool c.calibrated) (
                      field "matches" (bool c.matches) (
                        field "reason" (label (reason_text c.reason))
                          (field "readOnly" (bool true) end))))))))))))

-- The exit code of an observation that is printed.
abbrev pub printed_code : Bool → Bool → Text → ℕ
printed_code stdout_open matches json = if not stdout_open then 2 else if matches then 0 else 1

-- Printing the observation is outside of the `try`.
unfoldable pub drift_code : Outside → Result RpcFailure RailDriftCheck → Result RunFailure ℕ
drift_code o (err e) = ok 2
drift_code o (ok check) = do
  json ← or_unprintable (o.dumps (as_dict check))
  ok (printed_code o.stdout_open check.matches json)

-- `_cmd_rail_drift` under `main`: its exit code, or what it raises.
unfoldable pub cmd_rail_drift : Outside → String → Text → Result RunFailure ℕ
cmd_rail_drift o key url = on (get_rail key)
  where
    on : Option RailConfig → Result RunFailure ℕ
    on none = ok 2
    on (some rail) = drift_code o (check_rail_drift o.sha256 rail (o.transport url) 0).0
