-- ===== src/Mcp/Tests.antt =====
-- A deployment with its two tools of src/psv/mcp_server.py.
use psv.Base.{◌≡◌, refl, ◌⊎◌, true, none, some, []}
use psv.Text.{Text, codes}
use psv.Value.{get_or_null}
use psv.Text.Spaces.{str_strip, skip_spaces, is_str_space}
use psv.Rails.Known.Lookup.{get_rail}
use psv.Rails.Scenario.{digest}
use psv.Cli.{cmd_rail_drift}
use psv.Cli.Scenario.{local_node, request, outside}
use psv.Mcp.{Deployment, error_answer, rpc_endpoint, no_endpoint, reconcile_settlement, rail_drift}
use psv.Mcp.Answers.{
  Agree, IsReadFailure, IsVerdictAnswer, reconcile_settlement-answers, rail_drift-agrees,
}

abbrev deployment : Deployment
deployment = record {
  sha256 = digest;
  transport = local_node;
  policy = [];
  rpc_url = codes " http://node ";
  generated_at = "2026-08-13T12:00:00+00:00";
  unknown_rail = λ key. codes "unknown rail";
}

trimmed : rpc_endpoint deployment.rpc_url ≡ some (codes "http://node")
unfolding rpc_endpoint str_strip skip_spaces is_str_space codes
trimmed = refl

reconcile_settlement-answers_example :
    ((rpc_endpoint deployment.rpc_url ≡ none)
      × (reconcile_settlement deployment "mock-anvil" request ≡ error_answer no_endpoint))
    ⊎ (((url : Text) × (rpc_endpoint deployment.rpc_url ≡ some url)
          × (get_rail "mock-anvil" ≡ none)
          × (reconcile_settlement deployment "mock-anvil" request
              ≡ error_answer (deployment.unknown_rail "mock-anvil")))
        ⊎ (IsReadFailure deployment "mock-anvil" request
              (reconcile_settlement deployment "mock-anvil" request)
            ⊎ IsVerdictAnswer deployment "mock-anvil" request
                (reconcile_settlement deployment "mock-anvil" request)))
reconcile_settlement-answers_example = reconcile_settlement-answers deployment "mock-anvil" request

rail_drift-agrees_example :
    Agree
      (get_or_null "matches" (rail_drift deployment "mock-anvil"))
      (cmd_rail_drift (outside true true) "mock-anvil" (codes "http://node"))
rail_drift-agrees_example =
    rail_drift-agrees deployment (outside true true) "mock-anvil" (codes "http://node") trimmed refl
      refl refl
