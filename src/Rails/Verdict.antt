-- ===== src/Rails/Verdict.antt =====
-- The verdict of `reconcile_live` in src/psv/rails.py, as a function of its evidence.
use psv.Rpc.{RpcFailure}
use psv.Value.{Value, bool}
use psv.Rails.Proven.{IsAttribution, reconcile_live-IsProven}
use psv.Rails.Observed.{Sha256}
use psv.Rails.{RailConfig}
use psv.Rpc.Exec.{Yields, Yields-map, Yields-raises}
use psv.Rpc.Client.{Transport}
use psv.Rails.Arguments.{belief, check_arguments, Payment, Arguments}
use psv.Rails.Settled.{Settled, Balances}
use psv.Rails.Live.{ChainEvidence, reconcile_live, Attribution}
use psv.Divergence.{
  consistent_unpaid, phantom_credit, silent_loss, okay, consistent_paid, critical, SettlementTruth,
  underpaid_credit, detect_payment_divergence, Divergence, funds_moved,
}
use psv.Base.{
  ℕ, ◌≡◌, refl, sym, ap, ◌∙◌, inl, inr, Bool, true, false, some, arith, ◌==◌, str_eq_iff, ==_iff,
  ok, err, Ensures, Ensures-eq_ok, Ensures-bind, Ensures-skip, Ensures-self,
}
use psv.Base.Int.{ℤ, pos, ltb_ℤ}
use psv.Text.{Text}

-- The verdict by the receipt, the belief and the amounts alone.
abbrev pub graded : Bool → Bool → Bool → Divergence
graded true true true = record { kind = underpaid_credit; severity = critical }
graded true true false = record { kind = consistent_paid; severity = okay }
graded true false short = record { kind = silent_loss; severity = critical }
graded false true short = record { kind = phantom_credit; severity = critical }
graded false false short = record { kind = consistent_unpaid; severity = okay }

by_movement :
    (c : SettlementTruth) (moved believes : Bool) (required : ℤ)
    → funds_moved c ≡ moved
    → detect_payment_divergence c believes (some required)
      ≡ graded moved believes (ltb_ℤ c.payee_delta required)
unfolding detect_payment_divergence
by_movement c true true required h = ground (arith, h)
by_movement c true false required h = ground (arith, h)
by_movement c false true required h = ground (arith, h)
by_movement c false false required h = ground (arith, h)

unmoved : (believes x y : Bool) → graded false believes x ≡ graded false believes y
unmoved true x y = refl
unmoved false x y = refl

pub graded-IsAttribution :
    (p : Payment) (a : Arguments) (s : Settled) (b : Balances) (t : Attribution)
    → IsAttribution p a s b t
    → detect_payment_divergence t.truth a.believes (some (pos a.required_amount))
      ≡ graded (s.status == 1) a.believes (ltb_ℤ t.received_amount (pos a.required_amount))
graded-IsAttribution p a s b t (inl h) =
    let short = λ (z : ℤ). ltb_ℤ z (pos a.required_amount) in
    by_movement t.truth true a.believes (pos a.required_amount) h.moved
    ∙ ap (λ z. graded true a.believes (short z)) h.same_received
    ∙ ap (λ q. graded q a.believes (short t.received_amount))
        (sym ((==_iff s.status 1).1 h.succeeded))
graded-IsAttribution p a s b t (inr h) =
    by_movement t.truth false a.believes (pos a.required_amount) h.not_moved
    ∙ unmoved a.believes _ _
    ∙ ap (λ q. graded q a.believes (ltb_ℤ t.received_amount (pos a.required_amount))) (sym h.failed)

check_arguments-belief :
    (p : Payment) → Ensures (λ a. belief p.sut_believes_paid ≡ ok a.believes) (check_arguments p)
unfolding check_arguments
check_arguments-belief p = Ensures-skip _ _ λ _. Ensures-skip _ _ λ _. Ensures-skip _ _ λ _.
    Ensures-skip _ _ λ _. Ensures-skip _ _ λ _.
      Ensures-skip _ _
        λ _. Ensures-bind (Ensures-self (belief p.sut_believes_paid)) λ b e. record { holds = e }

belief-bool : (v : Value) (b c : Bool) → v ≡ bool b → belief v ≡ ok c → c ≡ b
unfolding belief
belief-bool (bool d) b c e h = cc
belief-bool _ b c e h = cc

believed :
    (p : Payment) (a : Arguments) (believes : Bool)
    → p.sut_believes_paid ≡ bool believes
    → check_arguments p ≡ ok a
    → a.believes ≡ believes
believed p a believes e h = belief-bool p.sut_believes_paid believes a.believes e (
    Ensures-eq_ok {P = λ b. belief p.sut_believes_paid ≡ ok b.believes} (check_arguments-belief p)
      h)

-- What is graded, by the evidence of a verdict.
abbrev pub graded_evidence : Bool → ChainEvidence → Divergence
graded_evidence believes e =
    graded (e.receipt_status == 1) believes (ltb_ℤ e.received_amount (pos e.required_amount))

-- The verdict that `reconcile_live` returns is a function of its evidence and the belief: for a
-- receipt that succeeded, silent loss if the payment is not believed, underpaid credit if less than
-- the invoice was received, and else consistent; for any other receipt, phantom credit if the
-- payment is believed, and else consistent.
pub reconcile_live_verdict :
    (sha256 : Sha256) (transport : Transport) (token : Text) (rail : RailConfig) (p : Payment)
    (believes : Bool)
    → p.sut_believes_paid ≡ bool believes
    → Yields
        (λ r. r.divergence ≡ graded_evidence believes r.evidence)
        (reconcile_live sha256 transport token rail p)
reconcile_live_verdict sha256 transport token rail p believes e =
    Yields-map (reconcile_live-IsProven sha256 transport token rail p) λ r h.
      h.verdict
      ∙ graded-IsAttribution p h.a h.s h.b h.t h.attribution
      ∙ ap (λ q. graded (h.s.status == 1) q (ltb_ℤ h.t.received_amount (pos h.a.required_amount)))
          (believed p h.a believes e h.accepted)
      ∙ ap (graded_evidence believes) (sym h.evidence)

-- On a mainnet rail that is not calibrated `reconcile_live` never returns a verdict, whatever the
-- node answers.
pub reconcile_live_uncalibrated :
    (sha256 : Sha256) (transport : Transport) (token : Text) (rail : RailConfig) (p : Payment)
    (id : ℕ)
    → rail.attestation.network_class ≡ "mainnet"
    → rail.attestation.calibrated ≡ false
    → (e : RpcFailure) × ((reconcile_live sha256 transport token rail p id).0 ≡ err e)
reconcile_live_uncalibrated sha256 transport token rail p id main uncal = Yields-raises id (
    Yields-map (reconcile_live-IsProven sha256 transport token rail p) λ r h.
      let m = (str_eq_iff rail.attestation.network_class "mainnet").1 main in
      let c = h.calibrated in absurd (ground (arith, m, uncal, c)))
