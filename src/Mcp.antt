-- ===== src/Mcp.antt =====
-- src/psv/mcp_server.py: the tools that read a chain, as functions to the dict that they return. The
-- registration of the tools and their transport are not modelled.
pub mod Answers
mod Tests
use psv.Base.{String, true, not, Option, none, some, [], ◌∷◌, Result, ok, err}
use psv.Base.Int.{pos}
use psv.Text.{Text, codes}
use psv.Text.Spaces.{str_strip}
use psv.Value.{Fields, bool, int, str, end, field}
use psv.Rpc.{RpcFailure}
use psv.Rpc.Client.{Transport}
use psv.Rails.{RailConfig}
use psv.Rails.Observed.{Sha256}
use psv.Rails.Drift.{RailDriftCheck, check_rail_drift}
use psv.Rails.Known.Lookup.{get_rail}
use psv.Report.{Timestamp, ReconReport}
use psv.Report.Document.{label, implementation_address, implementation_code, to_dict}
use psv.Cli.{reason_text, optional_text, Request, RunFailure, run_reconcile}

-- What the operator configures and the process meets: PSV_RPC_URL, the node behind an endpoint, the
-- time, and the text of the KeyError of `get_rail`.
pub record Deployment : Type 0 where
  pub sha256 : Sha256
  pub transport : Text → Transport
  pub policy : Text
  pub rpc_url : Text
  pub generated_at : String
  pub unknown_rail : String → Text

abbrev pub error_answer : Text → Fields
error_answer message = field "error" (str message) end

-- `_rpc_endpoint`; `none` is its ConfigurationError.
unfoldable pub rpc_endpoint : Text → Option Text
rpc_endpoint url = configured (str_strip url)
  where
    configured : Text → Option Text
    configured [] = none
    configured (c ∷ s) = some (c ∷ s)

-- Its message.
abbrev pub no_endpoint : Text
no_endpoint =
    codes
      "no RPC endpoint configured — set PSV_RPC_URL to the node this deployment verifies against. It is deliberately not a tool argument: a verdict is only worth as much as the chain it was read from."

abbrev pub not_completed : Text
not_completed = codes "reconciliation could not be completed"

abbrev pub not_observed : Text
not_observed = codes "drift observation could not be completed"

-- A tool that reads the chain of a rail by the endpoint of the deployment.
unfoldable pub with_rail : Deployment → String → (Text → RailConfig → Fields) → Fields
with_rail d key tool = at (rpc_endpoint d.rpc_url)
  where
    on : Text → Option RailConfig → Fields
    on url none = error_answer (d.unknown_rail key)
    on url (some rail) = tool url rail

    at : Option Text → Fields
    at none = error_answer no_endpoint
    at (some url) = on url (get_rail key)

abbrev pub now : Deployment → Timestamp
now d = record { is_aware = true; iso = d.generated_at }

abbrev pub report_answer : Text → Result RunFailure ReconReport → Fields
report_answer policy (err e) = error_answer not_completed
report_answer policy (ok report) = to_dict policy report

-- `reconcile_settlement`
unfoldable pub reconcile_settlement : Deployment → String → Request → Fields
reconcile_settlement d key q = with_rail d key λ url rail.
    report_answer d.policy
      (run_reconcile d.sha256 (d.transport url) rail.token_address rail q (now d) 0)

-- `{"matches": check.matches, **check.as_dict()}`: the key that comes twice keeps its first place.
unfoldable pub drift_document : RailDriftCheck → Fields
drift_document c = field "matches" (bool c.matches) (
    field "railKey" (label c.rail_key) (
      field "chainId" (int (pos c.chain_id)) (
        field "blockNumber" (int (pos c.block_number)) (
          field "blockHash" (str c.block_hash) (
            field "codeSha256" (str c.code_sha256) (
              field "expectedCodeSha256" (optional_text c.expected_code_sha256) (
                field "implementationAddress" (implementation_address c.implementation) (
                  field "implementationCodeSha256" (implementation_code c.implementation) (
                    field "attestationVersion" (label c.attestation_version) (
                      field "calibrated" (bool c.calibrated) (
                        field "reason" (label (reason_text c.reason))
                          (field "readOnly" (bool true) end))))))))))))

abbrev pub drift_answer : Result RpcFailure RailDriftCheck → Fields
drift_answer (err e) = error_answer not_observed
drift_answer (ok c) = drift_document c

-- `rail_drift`
unfoldable pub rail_drift : Deployment → String → Fields
rail_drift d key =
    with_rail d key λ url rail. drift_answer (check_rail_drift d.sha256 rail (d.transport url) 0).0
