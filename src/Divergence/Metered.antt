-- ===== src/Divergence/Metered.antt =====
-- The metered (`upto`) detector: its cap, and how it differs from the exact detector.
use psv.Base.{ℕ, ◌≡◌, refl, ◌≢◌, ◌↔◌, Bool, true, false, none, arith, ok, err}
use psv.Base.Int.{pos, ◌≤ℤ◌, ◌<ℤ◌}
use psv.Value.{Value, int}
use psv.Divergence.{
  SettlementTruth, phantom_credit, over_authorized_settlement, bad_authorized_max, metered_verdict,
  detect_metered_divergence, detect_payment_divergence,
}
use psv.Divergence.Verdict.{Moved}

-- Within the cap, or not credited, a payment is graded as the exact detector grades it with no
-- invoice; a credited payment above the cap is over-authorized.
pub metered-eq-payment :
    (c : SettlementTruth) (belief : Bool) (cap : ℕ)
    → (Moved c × (belief ≡ true) × (pos cap <ℤ c.payee_delta)
        → (metered_verdict c belief cap).kind ≡ over_authorized_settlement)
      × ((¬ (Moved c × (belief ≡ true) × (pos cap <ℤ c.payee_delta)))
          → metered_verdict c belief cap ≡ detect_payment_divergence c belief none)
unfolding metered_verdict detect_payment_divergence
metered-eq-payment c true cap = ground arith
metered-eq-payment c false cap = ground arith

-- The detector raises exactly on a cap that is no non-negative integer; otherwise it returns the
-- verdict at that cap.
pub metered_domain :
    (c : SettlementTruth) (belief : Bool) (v : Value)
    → ((detect_metered_divergence c belief v ≡ err bad_authorized_max)
        ↔ ((n : ℕ) → v ≢ int (pos n)))
      × ((n : ℕ)
          → v ≡ int (pos n)
          → detect_metered_divergence c belief v ≡ ok (metered_verdict c belief n))
unfolding detect_metered_divergence
metered_domain c belief (int (pos n)) = ((λ e. cc, λ h. absurd (h n refl)), λ m e. ground arith)
metered_domain c belief _ = ((λ e n p. cc, λ h. refl), λ n e. cc)

-- Crediting a payment that brought the payee nothing, as a replayed authorization does, is a
-- phantom credit, whatever the cap.
pub replay_is_phantom :
    (c : SettlementTruth) (cap : ℕ)
    → c.payee_delta ≤ℤ pos 0
    → (metered_verdict c true cap).kind ≡ phantom_credit
unfolding metered_verdict
replay_is_phantom c cap h = ground arith
