-- ===== src/Report.antt =====
-- src/psv/report.py: the reconciliation report. Its JSON and Markdown texts, its privacy notice and
-- its message are not modelled.
pub mod Document
pub mod Live
use psv.Base.{
  ℕ, String, Bool, not, ◌||◌, Option, none, some, List, [], ◌∷◌, str_eq, if◌then◌else◌, Result, ok,
  err, ◌>>=◌, ◌>>◌, raise_if,
}
use psv.Base.Int.{ℤ, pos, eqb_ℤ}
use psv.Text.{Text, text_eq, lower}
use psv.Divergence.{
  Divergence, DivergenceKind, consistent_paid, consistent_unpaid, silent_loss, phantom_credit,
  underpaid_credit, over_authorized_settlement, Severity, okay, critical, is_failure,
}
use psv.Rails.{RailConfig}
use psv.Rails.Live.{ChainEvidence}

-- The ValueErrors, and the KeyError of a kind that has no reason code.
pub data ReportError : Type 0 where
  value_error : String → ReportError
  no_reason_code : ReportError

-- `DivergenceKind.value` and `Severity.value`
abbrev pub kind_value : DivergenceKind → String
kind_value consistent_paid = "consistent_paid"
kind_value consistent_unpaid = "consistent_unpaid"
kind_value silent_loss = "silent_loss"
kind_value phantom_credit = "phantom_credit"
kind_value underpaid_credit = "underpaid_credit"
kind_value over_authorized_settlement = "over_authorized_settlement"

abbrev pub severity_value : Severity → String
severity_value okay = "ok"
severity_value critical = "critical"

-- `_REASON_CODES.get(kind)`
abbrev pub reason_codes : List (String × String)
reason_codes =
    ("consistent_paid", "PSV-RECON-CONSISTENT-PAID")
    ∷ ("consistent_unpaid", "PSV-RECON-CONSISTENT-UNPAID")
    ∷ ("silent_loss", "PSV-RECON-SILENT-LOSS")
    ∷ ("phantom_credit", "PSV-RECON-PHANTOM-CREDIT")
    ∷ ("underpaid_credit", "PSV-RECON-UNDERPAID-CREDIT")
    ∷ []

abbrev pub code_in : List (String × String) → String → Option String
code_in [] kind = none
code_in ((k, code) ∷ rest) kind = if str_eq k kind then some code else code_in rest kind

unfoldable pub reason_code_of : String → Option String
reason_code_of kind = code_in reason_codes kind

-- The time of a report: its text in UTC, and whether it has a time zone.
pub record Timestamp : Type 0 where
  pub is_aware : Bool
  pub iso : String

pub record ReconReport : Type 0 where
  pub generated_at : String
  pub rail_key : String
  pub rail_label : String
  pub chain_id : ℤ
  pub token_address : Text
  pub payer : Text
  pub payee : Text
  pub nonce : Text
  pub sut_believes_paid : Bool
  pub kind : String
  pub severity : String
  pub reason_code : String
  pub failure : Bool
  pub evidence : ChainEvidence

-- The arguments of `ReconReport.build` beside the rail.
pub record Reported : Type 0 where
  pub payer : Text
  pub payee : Text
  pub nonce : Text
  pub sut_believes_paid : Bool
  pub divergence : Divergence
  pub evidence : ChainEvidence
  pub generated_at : Timestamp

abbrev pub or_key_error : Option String → Result ReportError String
or_key_error none = err no_reason_code
or_key_error (some code) = ok code

-- The report that `build` returns, once its reason code is known.
abbrev pub report_of : RailConfig → Reported → String → ReconReport
report_of rail r code = record {
  generated_at = r.generated_at.iso;
  rail_key = rail.key;
  rail_label = rail.label;
  chain_id = rail.chain_id;
  token_address = lower rail.token_address;
  payer = lower r.payer;
  payee = lower r.payee;
  nonce = lower r.nonce;
  sut_believes_paid = r.sut_believes_paid;
  kind = kind_value r.divergence.kind;
  severity = severity_value r.divergence.severity;
  reason_code = code;
  failure = is_failure r.divergence;
  evidence = r.evidence;
}

-- `ReconReport.build`
unfoldable pub build : RailConfig → Reported → Result ReportError ReconReport
unfolding reason_code_of
build rail r = do
  raise_if (not r.generated_at.is_aware) (value_error "generated_at")
  raise_if
      (not (eqb_ℤ (pos r.evidence.chain_id) rail.chain_id)
        || not (text_eq r.evidence.token_address (lower rail.token_address)))
      (value_error "evidence does not match the rail")
  code ← or_key_error (reason_code_of (kind_value r.divergence.kind))
  ok (report_of rail r code)

-- `exit_code`
unfoldable pub exit_code : ReconReport → ℕ
exit_code report = if report.failure then 1 else 0
