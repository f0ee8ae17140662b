-- ===== src/Differential/Tests.antt =====
-- Two systems on one unpaid order.
use psv.Differential.Findings.{grade-failing_iff, IsWrong}
use psv.Differential.{disagrees, grade}
use psv.Base.{◌≡◌, refl, ◌↔◌, Bool, true, false, none, List, [], ◌∷◌, In}
use psv.Base.Int.{pos}
use psv.Text.{Text, codes}
use psv.Divergence.{critical, phantom_credit, SettlementTruth}

abbrev unpaid : SettlementTruth
unpaid = record {
  nonce_consumed = false;
  payer_balance_after = pos 5;
  payee_balance_after = pos 0;
  payer_delta = pos 0;
  payee_delta = pos 0;
}

abbrev beliefs : List (Text × Bool)
beliefs = (codes "a", false) ∷ (codes "b", true) ∷ []

graded : (grade unpaid none beliefs).disagree ≡ true
unfolding grade disagrees
graded = refl

grade-failing_iff_example :
    In
      (codes "b", record { kind = phantom_credit; severity = critical })
      (grade unpaid none beliefs).failing
    ↔ IsWrong unpaid none beliefs
        (codes "b")
        (record { kind = phantom_credit; severity = critical })
grade-failing_iff_example =
    grade-failing_iff unpaid none beliefs (codes "b")
      (record { kind = phantom_credit; severity = critical })
