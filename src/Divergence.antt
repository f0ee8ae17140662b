-- ===== src/Divergence.antt =====
-- src/psv/divergence.py, and `SettlementTruth` of src/psv/chain.py: chain truth against the belief
-- of the system under test. The human-readable `message` of a verdict is not modelled.
pub mod Verdict
pub mod Metered
mod Tests
use psv.Base.{ℕ, Bool, true, false, not, ◌&&◌, Option, none, some, if◌then◌else◌, Result, ok, err}
use psv.Base.Int.{ℤ, pos, ◌-ℤ◌, ltb_ℤ}
use psv.Value.{Value, int}

-- The on-chain ground truth about one attempted payment.
pub record SettlementTruth : Type 0 where
  pub nonce_consumed : Bool
  pub payer_balance_after : ℤ
  pub payee_balance_after : ℤ
  pub payer_delta : ℤ
  pub payee_delta : ℤ

unfoldable pub funds_moved : SettlementTruth → Bool
funds_moved c = c.nonce_consumed && ltb_ℤ (pos 0) c.payee_delta && ltb_ℤ c.payer_delta (pos 0)

pub data DivergenceKind : Type 0 where
  consistent_paid consistent_unpaid silent_loss : DivergenceKind
  phantom_credit underpaid_credit over_authorized_settlement : DivergenceKind

pub data Severity : Type 0 where
  okay critical : Severity

pub record Divergence : Type 0 where
  pub kind : DivergenceKind
  pub severity : Severity

unfoldable pub is_failure : Divergence → Bool
is_failure d = elim d.severity [ critical ↦ true | okay ↦ false ]

-- `required_amount is not None and chain.payee_delta < required_amount`
abbrev pub falls_short : ℤ → Option ℤ → Bool
falls_short delta none = false
falls_short delta (some required) = ltb_ℤ delta required

unfoldable pub detect_payment_divergence : SettlementTruth → Bool → Option ℤ → Divergence
unfolding funds_moved
detect_payment_divergence chain sut_believes_paid required_amount =
    let moved = funds_moved chain in
    if moved && sut_believes_paid
    then (if falls_short chain.payee_delta required_amount
        then record { kind = underpaid_credit; severity = critical }
        else record { kind = consistent_paid; severity = okay })
    else if not moved && not sut_believes_paid
    then record { kind = consistent_unpaid; severity = okay }
    else if moved && not sut_believes_paid
    then record { kind = silent_loss; severity = critical }
    else record { kind = phantom_credit; severity = critical }

-- The ValueError of `detect_metered_divergence`.
pub data MeteredError : Type 0 where
  bad_authorized_max : MeteredError

-- `type(v) is int and v >= 0`
abbrev pub non_negative_int : Value → Option ℕ
non_negative_int (int (pos n)) = some n
non_negative_int _ = none

-- The comparison of `detect_metered_divergence`, once the cap has been validated.
unfoldable pub metered_verdict : SettlementTruth → Bool → ℕ → Divergence
unfolding funds_moved
metered_verdict chain sut_believes_paid authorized_max =
    let moved = funds_moved chain in
    if moved && sut_believes_paid
    then (if ltb_ℤ (pos authorized_max) chain.payee_delta
        then record { kind = over_authorized_settlement; severity = critical }
        else record { kind = consistent_paid; severity = okay })
    else if not moved && not sut_believes_paid
    then record { kind = consistent_unpaid; severity = okay }
    else if moved && not sut_believes_paid
    then record { kind = silent_loss; severity = critical }
    else record { kind = phantom_credit; severity = critical }

unfoldable pub detect_metered_divergence :
    SettlementTruth → Bool → Value → Result MeteredError Divergence
unfolding metered_verdict
detect_metered_divergence chain sut_believes_paid authorized_max =
    elim (non_negative_int authorized_max) [
      | none ↦ err bad_authorized_max
      | some cap ↦ ok (metered_verdict chain sut_believes_paid cap)
    ]

unfoldable pub settlement_truth_from_balances : Bool → ℤ → ℤ → ℤ → ℤ → SettlementTruth
settlement_truth_from_balances consumed payer_before payer_after payee_before payee_after = record {
  nonce_consumed = consumed;
  payer_balance_after = payer_after;
  payee_balance_after = payee_after;
  payer_delta = payer_after -ℤ payer_before;
  payee_delta = payee_after -ℤ payee_before;
}
