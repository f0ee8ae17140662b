-- ===== src/Cli/Verdict.antt =====
-- What an exit code of `psv reconcile` in src/psv/cli.py rests on.

use psv.Rails.Known.Lookup.{get_rail}
use psv.Base.{
  ℕ, ◌≤◌, ◌≡◌, refl, ◌↔◌, ◌⊎◌, inl, inr, true, none, some, Result, ok, err, ◌>>=◌, Ensures,
}
use psv.Text.{Text}
use psv.Divergence.{critical}
use psv.Rpc.{RpcFailure}
use psv.Rpc.Client.{Transport}
use psv.Rails.{RailConfig}
use psv.Rails.Observed.{Sha256}
use psv.Rails.Live.{LiveReconciliation, reconcile_live}
use psv.Report.{Timestamp, ReconReport, build, exit_code}
use psv.Report.Document.{to_dict, validate}
use psv.Report.Live.{reported, reconcile_live-report}
use psv.Cli.{
  RunFailure, unprintable, Ended, ended, audit_of, dict, write_record, now, to_dict, get_rail,
  write_report, Command, finish, Outside, Request, payment_of, unproven, run_reconcile,
}

-- A report of a proven verdict, which validates.
pub record IsReported (rail : RailConfig) (q : Request) (time : Timestamp) (policy : Text)
    (result : LiveReconciliation) (report : ReconReport) : Type 0 where
  pub built : build rail (reported (payment_of q) q.sut_believes_paid time result) ≡ ok report
  pub valid : validate policy report ≡ ok tt
  pub exits : (exit_code report ≡ 1) ↔ (result.divergence.severity ≡ critical)

module _ (sha256 : Sha256) (transport : Transport) (token : Text) (rail : RailConfig) (q : Request)
    (time : Timestamp) (policy : Text) (id : ℕ) where
  abbrev pub proof_at : Result RpcFailure LiveReconciliation
  proof_at = (reconcile_live sha256 transport token rail (payment_of q) id).0

  abbrev pub RunOutcome : Type 0
  RunOutcome =
      ((result : LiveReconciliation) × (report : ReconReport) × (proof_at ≡ ok result)
        × (run_reconcile sha256 transport token rail q time id ≡ ok report)
        × IsReported rail q time policy result report)
      ⊎ ((e : RpcFailure) × (run_reconcile sha256 transport token rail q time id
            ≡ err (unproven e)))

  run_reconcile_of :
      (r : Result RpcFailure LiveReconciliation)
      → proof_at ≡ r
      → Ensures
          (λ result.
            (report : ReconReport) × (build rail
                (reported (payment_of q) q.sut_believes_paid time result)
              ≡ ok report)
            × (validate policy report ≡ ok tt)
            × ((exit_code report ≡ 1) ↔ (result.divergence.severity ≡ critical)))
          r
      → RunOutcome
  unfolding run_reconcile ◌>>=◌
  run_reconcile_of (ok result) same h =
      let (report, built, valid, exits) = h.holds in
      inl (
        result,
        report,
        same,
        rw same (rw built refl),
        record { built = built; valid = valid; exits = exits },
      )
  run_reconcile_of (err e) same h = inr (e, rw same refl)

  -- A run with a time that has a zone fails only where a read does: each verdict can be reported.
  pub run_reconcile-outcome : time.is_aware ≡ true → RunOutcome
  run_reconcile-outcome aware = run_reconcile_of proof_at refl (
      (reconcile_live-report sha256 transport token rail (payment_of q) q.sut_believes_paid time
          policy aware).at
        id)

-- The texts of the report could be printed, and everything that was asked for has been written.
pub record IsEmitted (o : Outside) (c : Command) (report : ReconReport) : Type 0 where
  pub markdown : Text
  pub markdown_eq : o.markdown report ≡ some markdown
  pub json : Text
  pub json_eq : o.dumps (to_dict o.policy report) ≡ some json
  pub json_written : write_report o c.json_out json ≡ true
  pub markdown_written : write_report o c.md_out markdown ≡ true
  pub stdout_open : o.stdout_open ≡ true
  pub recorded : write_record o c (dict (to_dict o.policy report)) (exit_code report) none ≡ true

-- What the exit codes 0 and 1 say.
pub record IsVerdict (o : Outside) (c : Command) (e : Ended) : Type 0 where
  pub rail : RailConfig
  pub known : get_rail c.rail ≡ some rail
  pub result : LiveReconciliation
  pub proven :
      (reconcile_live o.sha256
        (o.transport c.rpc_url)
        rail.token_address
        rail
        (payment_of c.request)
        0).0
      ≡ ok result
  pub report : ReconReport
  pub reported_as : IsReported rail c.request (now o) o.policy result report
  pub emitted : IsEmitted o c report
  pub ends :
      e
      ≡ ended
          (exit_code report)
          (audit_of o c (dict (to_dict o.policy report)) (exit_code report) none)
  pub says : (e.code ≡ 1) ↔ (result.divergence.severity ≡ critical)
  pub small : e.code ≤ 1

-- A proven verdict whose report has no text: Python does not print one of its numbers.
pub record IsUnprintable (o : Outside) (c : Command) : Type 0 where
  pub rail : RailConfig
  pub known : get_rail c.rail ≡ some rail
  pub result : LiveReconciliation
  pub proven :
      (reconcile_live o.sha256
        (o.transport c.rpc_url)
        rail.token_address
        rail
        (payment_of c.request)
        0).0
      ≡ ok result
  pub report : ReconReport
  pub reported_as : IsReported rail c.request (now o) o.policy result report
  pub no_text : (o.markdown report ≡ none) ⊎ (o.dumps (to_dict o.policy report) ≡ none)

-- How the command ends, or what it raises.
abbrev pub CommandOutcome : Outside → Command → Result RunFailure Ended → Type 0
CommandOutcome o c r =
    ((e : Ended) × (r ≡ ok e) × ((e.code ≡ 2) ⊎ IsVerdict o c e))
    ⊎ ((r ≡ err unprintable) × IsUnprintable o c)

abbrev finished : Outside → Command → RailConfig → Result RunFailure Ended
finished o c rail =
    finish o c
      (run_reconcile o.sha256 (o.transport c.rpc_url) rail.token_address rail c.request (now o) 0)
