-- ===== src/Divergence/Tests.antt =====
-- Verdicts of src/psv/divergence.py at concrete payments.
use psv.Divergence.Verdict.{severity_iff, Agrees}
use psv.Base.{◌≡◌, refl, ◌↔◌, true, some}
use psv.Base.Int.{pos, negsuc}
use psv.Divergence.{okay, SettlementTruth, underpaid_credit, detect_payment_divergence, critical}

-- 10000 left the payer, 9900 arrived.
abbrev skimmed : SettlementTruth
skimmed = record {
  nonce_consumed = true;
  payer_balance_after = pos 90000;
  payee_balance_after = pos 9900;
  payer_delta = negsuc 9999;
  payee_delta = pos 9900;
}

-- The nonce is burned, and nothing moved.
abbrev replayed : SettlementTruth
replayed = record {
  nonce_consumed = true;
  payer_balance_after = pos 90000;
  payee_balance_after = pos 9900;
  payer_delta = pos 0;
  payee_delta = pos 0;
}

skimmed_is_underpaid :
    detect_payment_divergence skimmed true (some (pos 10000))
    ≡ record { kind = underpaid_credit; severity = critical }
unfolding detect_payment_divergence
skimmed_is_underpaid = refl

severity_iff_example :
    ((detect_payment_divergence skimmed true (some (pos 10000))).severity ≡ okay)
    ↔ Agrees skimmed true (some (pos 10000))
severity_iff_example = severity_iff skimmed true (some (pos 10000))
