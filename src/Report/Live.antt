-- ===== src/Report/Live.antt =====
-- A verdict of src/psv/rails.py can always be reported by src/psv/report.py.
use psv.Base.{
  ℕ, ◌≤◌, ◌<◌, String, ◌≡◌, refl, ap, subst, ◌∙◌, ◌↔◌, inl, inr, Bool, true, false, not, ◌||◌,
  Option, none, some, arith, ◌==◌, str_eq_iff, if◌then◌else◌, ok, Ensures, Ensures-eq_ok,
  Ensures-bind, Ensures-skip, bind-ok, raise_if-ok,
}
use psv.Base.Int.{ℤ, pos, ◌≤ℤ◌, ltb_ℤ, eqb_ℤ}
use psv.Text.{Text, codes, text_eq, lower}
use psv.Value.{get, get_or_null, bounded_int, uint256_max}
use psv.Divergence.{Divergence, critical, is_failure}
use psv.Rpc.Exec.{Yields, Yields-map}
use psv.Rpc.Client.{Transport}
use psv.Rails.{RailConfig}
use psv.Rails.Observed.{Sha256}
use psv.Rails.Arguments.{Payment, Arguments, at_least, uint256_from, check_arguments}
use psv.Rails.Settled.{Settled, Balances}
use psv.Rails.Live.{Attribution, LiveReconciliation, reconcile_live}
use psv.Rails.Proven.{IsAttribution, reconcile_live-IsProven}
use psv.Rails.Verdict.{graded, graded-IsAttribution}
use psv.Report.{
  Timestamp, ReconReport, Reported, kind_value, or_key_error, reason_code_of, report_of, build,
  exit_code,
}
use psv.Report.Document.{is_code, is_version, has_keys, required, to_dict, validate}

-- Every kind that is graded has a reason code.
graded-reason_code :
    (succeeded believes short : Bool)
    → (code : String) × (reason_code_of (kind_value (graded succeeded believes short).kind)
        ≡ some code)
unfolding reason_code_of
graded-reason_code true true true = ("PSV-RECON-UNDERPAID-CREDIT", refl)
graded-reason_code true true false = ("PSV-RECON-CONSISTENT-PAID", refl)
graded-reason_code true false short = ("PSV-RECON-SILENT-LOSS", refl)
graded-reason_code false true short = ("PSV-RECON-PHANTOM-CREDIT", refl)
graded-reason_code false false short = ("PSV-RECON-CONSISTENT-UNPAID", refl)

build-returns :
    (rail : RailConfig) (r : Reported) (code : String)
    → r.generated_at.is_aware ≡ true
    → eqb_ℤ (pos r.evidence.chain_id) rail.chain_id ≡ true
    → text_eq r.evidence.token_address (lower rail.token_address) ≡ true
    → reason_code_of (kind_value r.divergence.kind) ≡ some code
    → build rail r ≡ ok (report_of rail r code)
unfolding build
build-returns rail r code aware chain token reason = bind-ok _ (raise_if-ok _ _ (ap not aware)) (
    bind-ok _ (raise_if-ok _ _ (ground (arith, chain, token)))
      (bind-ok _ (ap or_key_error reason) refl))

envelope_passes :
    (policy : Text) (r : ReconReport)
    → not (has_keys required (to_dict policy r))
        || not (is_version (get_or_null "reportVersion" (to_dict policy r)))
      ≡ false
unfolding to_dict get codes text_eq
envelope_passes policy r = refl

eqb_of : (a b : ℤ) → a ≡ b → eqb_ℤ a b ≡ true
eqb_of a b e = subst (λ z. eqb_ℤ a z ≡ true) e (ground arith)

validate-returns :
    (policy : Text) (r : ReconReport)
    → reason_code_of r.kind ≡ some r.reason_code
    → 0 < r.evidence.required_amount
    → pos 0 ≤ℤ r.evidence.received_amount
    → eqb_ℤ (pos r.evidence.chain_id) r.chain_id ≡ true
    → validate policy r ≡ ok tt
unfolding validate
validate-returns policy r reason positive received chain =
    let same : is_code (reason_code_of r.kind) r.reason_code ≡ true =
      rw reason ((str_eq_iff r.reason_code r.reason_code).1 refl) in
    bind-ok _ (raise_if-ok _ _ (envelope_passes policy r)) (
      bind-ok _ (raise_if-ok _ _ (ap not same))
        (bind-ok _ (raise_if-ok _ _ (ground arith)) (raise_if-ok _ _ (ap not chain))))

at_least-Ensures :
    (minimum : ℕ) (what : String) (o : Option ℕ)
    → Ensures (λ n. minimum ≤ n) (at_least minimum what o)
at_least-Ensures minimum what none = record { holds = tt }
at_least-Ensures minimum what (some n) = ground arith

check_arguments-positive : (p : Payment) → Ensures (λ a. 0 < a.required_amount) (check_arguments p)
unfolding check_arguments uint256_from
check_arguments-positive p = Ensures-skip _ _ λ _. Ensures-skip _ _ λ _. Ensures-skip _ _ λ _.
    Ensures-bind (at_least-Ensures 1 "required_amount" (bounded_int uint256_max p.required_amount))
      λ n positive.
        Ensures-skip _ _
          λ _. Ensures-skip _ _ λ _. Ensures-skip _ _ λ _. record { holds = omega arith }

received-nonneg :
    (p : Payment) (a : Arguments) (s : Settled) (b : Balances) (t : Attribution)
    → IsAttribution p a s b t
    → pos 0 ≤ℤ t.received_amount
received-nonneg p a s b t (inl h) = let r = h.attributed.some_received in omega arith
received-nonneg p a s b t (inr h) = rw h.nothing_received (omega arith)

-- What is reported of a verdict.
abbrev pub reported : Payment → Bool → Timestamp → LiveReconciliation → Reported
reported p believes t r = record {
  payer = p.payer;
  payee = p.payee;
  nonce = p.nonce;
  sut_believes_paid = believes;
  divergence = r.divergence;
  evidence = r.evidence;
  generated_at = t;
}

failure_iff :
    (d : Divergence) → (◌≡◌ {A = ℕ} (if is_failure d then 1 else 0) 1) ↔ (d.severity ≡ critical)
unfolding is_failure
failure_iff d = ground arith

-- Whatever verdict `reconcile_live` returns, a report with a time that has a zone can be built of it
-- for the same rail, the report passes its validation, and the exit code is 1 exactly if the verdict
-- is critical.
pub reconcile_live-report :
    (sha256 : Sha256) (transport : Transport) (token : Text) (rail : RailConfig) (p : Payment)
    (believes : Bool) (time : Timestamp) (policy : Text)
    → time.is_aware ≡ true
    → Yields
        (λ r.
          (report : ReconReport) × (build rail (reported p believes time r) ≡ ok report)
          × (validate policy report ≡ ok tt)
          × ((exit_code report ≡ 1) ↔ (r.divergence.severity ≡ critical)))
        (reconcile_live sha256 transport token rail p)
reconcile_live-report sha256 transport token rail p believes time policy aware =
    Yields-map (reconcile_live-IsProven sha256 transport token rail p) λ r h.
      let e = h.evidence in
      let verdict = h.verdict ∙ graded-IsAttribution p h.a h.s h.b h.t h.attribution in
      let (code, known) =
        graded-reason_code (h.s.status == 1) h.a.believes
          (ltb_ℤ h.t.received_amount (pos h.a.required_amount)) in
      let reason : reason_code_of (kind_value r.divergence.kind) ≡ some code =
        ap (λ (d : Divergence). reason_code_of (kind_value d.kind)) verdict ∙ known in
      let chain : eqb_ℤ (pos r.evidence.chain_id) rail.chain_id ≡ true =
        rw e (eqb_of (pos h.chain) rail.chain_id h.same_chain) in
      let same_token : text_eq r.evidence.token_address (lower rail.token_address) ≡ true =
        rw e h.same_token in
      let positive : 0 < r.evidence.required_amount =
        rw e (
          Ensures-eq_ok {P = λ a. 0 < a.required_amount} (check_arguments-positive p) h.accepted) in
      let received : pos 0 ≤ℤ r.evidence.received_amount =
        rw e (received-nonneg p h.a h.s h.b h.t h.attribution) in
      (
        report_of rail (reported p believes time r) code,
        build-returns rail (reported p believes time r) code aware chain same_token reason,
        validate-returns policy (report_of rail (reported p believes time r) code) reason positive
            received chain,
        unfold exit_code in failure_iff r.divergence,
      )
