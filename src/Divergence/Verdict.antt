-- ===== src/Divergence/Verdict.antt =====
-- What the exact-scheme verdicts mean, against a description of payments that does not run the code.
use psv.Base.{◌≡◌, ◌≢◌, ◌↔◌, Bool, true, false, Option, none, some, arith}
use psv.Base.Int.{ℤ, pos, ◌-ℤ◌, ◌≤ℤ◌, ◌<ℤ◌}
use psv.Divergence.{
  SettlementTruth, consistent_paid, consistent_unpaid, silent_loss, phantom_credit,
  underpaid_credit, over_authorized_settlement, okay, funds_moved, detect_payment_divergence,
  settlement_truth_from_balances,
}

-- The payment happened: the nonce is burned, the payer was debited and the payee credited.
abbrev pub Moved : SettlementTruth → Type 0
Moved c = (c.nonce_consumed ≡ true) × (pos 0 <ℤ c.payee_delta) × (c.payer_delta <ℤ pos 0)

-- What arrived covers the invoice, where one is given.
abbrev pub Covers : SettlementTruth → Option ℤ → Type 0
Covers c none = Unit
Covers c (some required) = required ≤ℤ c.payee_delta

-- The belief is what the chain shows.
abbrev pub Agrees : SettlementTruth → Bool → Option ℤ → Type 0
Agrees c true required = Moved c × Covers c required
Agrees c false required = ¬ Moved c

-- `funds_moved` decides whether the payment happened.
pub funds_moved_iff : (c : SettlementTruth) → (funds_moved c ≡ true) ↔ Moved c
unfolding funds_moved
funds_moved_iff c = ground arith

-- The verdict is critical exactly when the belief differs from the chain: for a system that believes
-- in a payment, when none happened or less than the invoice arrived; for one that does not, when one
-- happened.
pub severity_iff :
    (c : SettlementTruth) (belief : Bool) (required : Option ℤ)
    → ((detect_payment_divergence c belief required).severity ≡ okay) ↔ Agrees c belief required
unfolding detect_payment_divergence
severity_iff c true none = ground arith
severity_iff c true (some r) = ground arith
severity_iff c false required = ground arith

-- The kinds by payment and belief: silent loss is a payment that is not believed, phantom credit a
-- belief with no payment, underpaid credit a believed payment that does not cover the invoice, and
-- the two consistent kinds the two ways to agree; the metered kind never comes up.
pub kind_iff :
    (c : SettlementTruth) (belief : Bool) (required : Option ℤ)
    → let k = (detect_payment_divergence c belief required).kind in
      ((k ≡ silent_loss) ↔ (Moved c × (belief ≡ false)))
      × ((k ≡ phantom_credit) ↔ ((¬ Moved c) × (belief ≡ true)))
      × ((k ≡ underpaid_credit) ↔ (Moved c × (belief ≡ true) × (¬ Covers c required)))
      × ((k ≡ consistent_paid) ↔ (Moved c × (belief ≡ true) × Covers c required))
      × ((k ≡ consistent_unpaid) ↔ ((¬ Moved c) × (belief ≡ false)))
      × (k ≢ over_authorized_settlement)
unfolding detect_payment_divergence
kind_iff c true none = ground arith
kind_iff c true (some r) = ground arith
kind_iff c false none = ground arith
kind_iff c false (some r) = ground arith

-- A truth built from balance snapshots shows a payment exactly when the nonce was consumed, the
-- payer's balance fell and the payee's rose.
pub balances-Moved_iff :
    (consumed : Bool) (payer_before payer_after payee_before payee_after : ℤ)
    → Moved
        (settlement_truth_from_balances consumed payer_before payer_after payee_before payee_after)
      ↔ ((consumed ≡ true) × (payee_before <ℤ payee_after) × (payer_after <ℤ payer_before))
unfolding settlement_truth_from_balances ◌-ℤ◌
balances-Moved_iff consumed a b c d = ground arith
