-- ===== src/Mcp/Answers.antt =====
-- What the answers of the tools of src/psv/mcp_server.py say.
use psv.Base.{
  ℕ, String, ◌≡◌, refl, sym, ap, ◌∙◌, ◌⊎◌, inl, inr, Bool, true, false, Option, none, some, arith,
  Result, ok, err, ◌>>=◌,
}
use psv.Text.{Text}
use psv.Value.{Value, Fields, null, bool, get, get_or_null}
use psv.Rpc.{RpcFailure}
use psv.Rails.{RailConfig}
use psv.Rails.Live.{LiveReconciliation, reconcile_live}
use psv.Rails.Drift.{RailDriftCheck, check_rail_drift}
use psv.Rails.Known.Lookup.{get_rail}
use psv.Report.{ReconReport}
use psv.Report.Document.{to_dict}
use psv.Cli.{
  RunFailure, unprintable, or_unprintable, printed_code, as_dict, Request, payment_of,
  run_reconcile, Outside, drift_code, cmd_rail_drift, unproven,
}
use psv.Cli.Verdict.{IsReported, run_reconcile-outcome}
use psv.Mcp.{
  Deployment, error_answer, rpc_endpoint, no_endpoint, not_completed, not_observed, with_rail, now,
  report_answer, reconcile_settlement, drift_document, drift_answer, rail_drift,
}

-- An answer with a verdict: the document of a report of what `reconcile_live` returned for the rail,
-- read by the endpoint of the deployment.
pub record IsVerdictAnswer (d : Deployment) (key : String) (q : Request) (answer : Fields)
    : Type 0 where
  pub url : Text
  pub endpoint : rpc_endpoint d.rpc_url ≡ some url
  pub rail : RailConfig
  pub known : get_rail key ≡ some rail
  pub result : LiveReconciliation
  pub proven :
      (reconcile_live d.sha256 (d.transport url) rail.token_address rail (payment_of q) 0).0
      ≡ ok result
  pub report : ReconReport
  pub reported_as : IsReported rail q (now d) d.policy result report
  pub document : answer ≡ to_dict d.policy report

-- Where a tool that needs a rail ends.
data WithRail (d : Deployment) (key : String) (tool : Text → RailConfig → Fields) (answer : Fields)
    : Type 0 where
  unconfigured :
      rpc_endpoint d.rpc_url ≡ none → answer ≡ error_answer no_endpoint → WithRail d key tool answer
  unknown :
      (url : Text)
      → rpc_endpoint d.rpc_url ≡ some url
      → get_rail key ≡ none
      → answer ≡ error_answer (d.unknown_rail key)
      → WithRail d key tool answer
  asked :
      (url : Text) (rail : RailConfig)
      → rpc_endpoint d.rpc_url ≡ some url
      → get_rail key ≡ some rail
      → answer ≡ tool url rail
      → WithRail d key tool answer

with_rail-cases :
    (d : Deployment) (key : String) (tool : Text → RailConfig → Fields)
    → WithRail d key tool (with_rail d key tool)
unfolding with_rail
with_rail-cases d key tool = on (rpc_endpoint d.rpc_url) (get_rail key) refl refl
  where
    on :
        (url : Option Text) (rail : Option RailConfig)
        → rpc_endpoint d.rpc_url ≡ url
        → get_rail key ≡ rail
        → WithRail d key tool (with_rail d key tool)
    on none rail u r = unconfigured u (rw u refl)
    on (some url) none u r = unknown url u r (rw u (rw r refl))
    on (some url) (some rail) u r = asked url rail u r (rw u (rw r refl))

-- A read of the chain failed, and none of what it said is in the answer.
pub record IsReadFailure (d : Deployment) (key : String) (q : Request) (answer : Fields)
    : Type 0 where
  pub url : Text
  pub endpoint : rpc_endpoint d.rpc_url ≡ some url
  pub rail : RailConfig
  pub known : get_rail key ≡ some rail
  pub failure : RpcFailure
  pub raised :
      run_reconcile d.sha256 (d.transport url) rail.token_address rail q (now d) 0
      ≡ err (unproven failure)
  pub document : answer ≡ error_answer not_completed

-- `reconcile_settlement` answers in one of four ways: that the deployment has no endpoint, exactly
-- as it has none; that it has one and the rail is unknown; one fixed text, if a read of the chain failed; or the
-- document of a report that validates, of a verdict that `reconcile_live` returned for that rail at
-- the endpoint of the deployment.
pub reconcile_settlement-answers :
    (d : Deployment) (key : String) (q : Request)
    → ((rpc_endpoint d.rpc_url ≡ none) × (reconcile_settlement d key q ≡ error_answer no_endpoint))
      ⊎ (((url : Text) × (rpc_endpoint d.rpc_url ≡ some url)
            × (get_rail key ≡ none)
            × (reconcile_settlement d key q ≡ error_answer (d.unknown_rail key)))
          ⊎ (IsReadFailure d key q (reconcile_settlement d key q)
              ⊎ IsVerdictAnswer d key q (reconcile_settlement d key q)))
unfolding reconcile_settlement
reconcile_settlement-answers d key q =
    let tool : Text → RailConfig → Fields = λ url rail.
      report_answer d.policy
        (run_reconcile d.sha256 (d.transport url) rail.token_address rail q (now d) 0) in
    elim (with_rail-cases d key tool) [
      | unconfigured u same ↦ inl (u, same)
      | unknown url u r same ↦ inr (inl (url, u, r, same))
      | asked url rail u r same ↦
          elim (run_reconcile-outcome d.sha256 (d.transport url) rail.token_address rail q (now d)
            d.policy 0 refl) [
              | inl (result, report, proven, ran, h) ↦ inr (
                  inr (
                    inr (record {
                      url = url;
                      endpoint = u;
                      rail = rail;
                      known = r;
                      result = result;
                      proven = proven;
                      report = report;
                      reported_as = h;
                      document = same ∙ ap (report_answer d.policy) ran;
                    })))
              | inr (e, raised) ↦ inr (
                  inr (
                    inl (record {
                      url = url;
                      endpoint = u;
                      rail = rail;
                      known = r;
                      failure = e;
                      raised = raised;
                      document = same ∙ ap (report_answer d.policy) raised;
                    })))
            ]
    ]

matches_of : (c : RailDriftCheck) → get_or_null "matches" (drift_document c) ≡ bool c.matches
unfolding drift_document get
matches_of c = refl

no_matches : (message : Text) → get_or_null "matches" (error_answer message) ≡ null
unfolding get
no_matches message = refl

some-none : (url : Text) → (some url ≡ none) → ⊥
some-none url h = cc

zero_two : (◌≡◌ {A = ℕ} 2 0) → ⊥
zero_two h = omega arith

zero_one : (◌≡◌ {A = ℕ} 1 0) → ⊥
zero_one h = omega arith

-- The command says 0 only if the tool says that the rail matches; and if the tool says so, then the
-- command says 0, unless it raises because the observation cannot be printed.
abbrev pub Agree : Value → Result RunFailure ℕ → Type 0
Agree matches code =
    (code ≡ ok 0 → matches ≡ bool true)
    × (matches ≡ bool true → (code ≡ ok 0) ⊎ (code ≡ err unprintable))

ok_inj : (m n : ℕ) → ◌≡◌ {A = Result RunFailure ℕ} (ok m) (ok n) → m ≡ n
ok_inj m n h = cc

no_verdict : (message : Text) → Agree (get_or_null "matches" (error_answer message)) (ok 2)
no_verdict message =
    rw (no_matches message) ((λ h. absurd (zero_two (ok_inj 2 0 h))), (λ h. absurd (cc)))

printed-Agree :
    (stdout_open b : Bool) (text : Option Text)
    → stdout_open ≡ true
    → Agree (bool b) (do json ← or_unprintable text; ok (printed_code stdout_open b json))
unfolding ◌>>=◌
printed-Agree false b text p = absurd (cc)
printed-Agree true b none p = ((λ h. absurd (cc)), (λ h. inr refl))
printed-Agree true true (some json) p = ((λ h. refl), (λ h. inl refl))
printed-Agree true false (some json) p =
    ((λ h. absurd (zero_one (ok_inj 1 0 h))), (λ h. absurd (cc)))

same_verdict :
    (o : Outside) (r : Result RpcFailure RailDriftCheck)
    → o.stdout_open ≡ true
    → Agree (get_or_null "matches" (drift_answer r)) (drift_code o r)
unfolding drift_code
same_verdict o (err e) p = no_verdict not_observed
same_verdict o (ok c) p =
    rw (matches_of c) (printed-Agree o.stdout_open c.matches (o.dumps (as_dict c)) p)

-- The tool `rail_drift` and the command `psv rail-drift` agree, with the same endpoint and node and an
-- open standard output. If the command exits with 0, then the tool says that the rail matches. If the
-- tool says so, then the command exits with 0, or raises because Python does not print a number of the
-- observation. The transport raises nothing but RpcError.
pub rail_drift-agrees :
    (d : Deployment) (o : Outside) (key : String) (url : Text)
    → rpc_endpoint d.rpc_url ≡ some url
    → o.sha256 ≡ d.sha256
    → o.transport ≡ d.transport
    → o.stdout_open ≡ true
    → Agree (get_or_null "matches" (rail_drift d key)) (cmd_rail_drift o key url)
unfolding rail_drift cmd_rail_drift drift_code
rail_drift-agrees d o key url endpoint hashes node p =
    let tool : Text → RailConfig → Fields =
      λ url rail. drift_answer (check_rail_drift d.sha256 rail (d.transport url) 0).0 in
    elim (with_rail-cases d key tool) [
      | unconfigured u same ↦ absurd (some-none url (sym endpoint ∙ u))
      | unknown _ _ r same ↦ rw same (rw r (no_verdict (d.unknown_rail key)))
      | asked url2 rail u r same ↦
          let same_url : url ≡ url2 = cc in
          rw same (
            rw r (
              rw hashes (
                rw node (
                  rw same_url
                    (same_verdict o (check_rail_drift d.sha256 rail (d.transport url2) 0).0 p)))))
    ]
