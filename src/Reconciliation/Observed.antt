-- ===== src/Reconciliation/Observed.antt =====
-- The loop of `find_unreconciled`: the observations hold exactly the decoded credits, one for each
-- identity, and a conflict stops the loop.
use psv.Base.{
  ◌≡◌, refl, ◌⊎◌, inl, inr, false, Option, none, some, List, [], ◌∷◌, arith, if◌then◌else◌,
  Bool-cases, In, ok, err, Ensures, Ensures-bind, Ensures-raise_if, Ensures-self, Ensures-map,
}
use psv.Base.Int.{ℤ}
use psv.Text.{Text}
use psv.Value.{Fields}
use psv.Reconciliation.Fields.{conflicting}
use psv.Reconciliation.Credit.{SettlementIdentity, OnChainCredit, decode_transfer_log}
use psv.Reconciliation.Find.{
  differs, Observations, identity_eq, credit_eq, observed, record_credit, observe, observe_all,
}
use psv.Reconciliation.Equality.{identity_eq_iff, identity_eq_refl, credit_eq_iff}

-- No identity is observed twice.
abbrev pub IsDistinct : Observations → Type 0
IsDistinct [] = Unit
IsDistinct (c ∷ os) = (observed c.identity os ≡ none) × IsDistinct os

pub observed-record_credit :
    (i : SettlementIdentity) (c : OnChainCredit) (os : Observations)
    → observed i (record_credit c os) ≡ (if identity_eq i c.identity then some c else observed i os)
unfolding observed record_credit
observed-record_credit i c [] = refl
observed-record_credit i c (d ∷ os) = ground (
  arith,
  identity_eq_iff i c.identity,
  identity_eq_iff i d.identity,
  identity_eq_iff c.identity d.identity,
  observed-record_credit i c os,
)

record_credit-IsDistinct :
    (c : OnChainCredit) (os : Observations) → IsDistinct os → IsDistinct (record_credit c os)
unfolding observed record_credit
record_credit-IsDistinct c [] h = (refl, tt)
record_credit-IsDistinct c (d ∷ os) h = ground (
  arith,
  identity_eq_iff c.identity d.identity,
  identity_eq_iff d.identity c.identity,
  observed-record_credit d.identity c os,
  record_credit-IsDistinct c os h.1,
)

-- With distinct identities, being observed is standing in the list.
pub observed-In :
    (c : OnChainCredit) (os : Observations) → observed c.identity os ≡ some c → In c os
unfolding observed
observed-In c [] h = cc
observed-In c (d ∷ os) h = elim (Bool-cases (identity_eq c.identity d.identity)) [
  | inl same ↦ inl (ground arith)
  | inr other ↦ inr (observed-In c os (ground arith))
]

pub absent-not_In :
    (c : OnChainCredit) (os : Observations) → observed c.identity os ≡ none → In c os → ⊥
unfolding observed
absent-not_In c [] h m = elim m [ ]
absent-not_In c (d ∷ os) h (inl e) = ground (arith, identity_eq_iff c.identity d.identity)
absent-not_In c (d ∷ os) h (inr m) = absent-not_In c os (ground arith) m

pub In-observed :
    (c : OnChainCredit) (os : Observations)
    → IsDistinct os
    → In c os
    → observed c.identity os ≡ some c
unfolding observed
In-observed c [] d m = elim m [ ]
In-observed c (x ∷ os) d (inl e) = ground (arith, identity_eq_iff c.identity x.identity)
In-observed c (x ∷ os) d (inr m) =
    ground (arith, In-observed c os d.1 m, identity_eq_iff c.identity x.identity)

-- One step keeps what was observed, adds its own credit, which is of the expected
-- asset and payee, and adds nothing else.
pub record StepFacts (asset payee : Option Text) (c : OnChainCredit) (os os' : Observations)
    : Type 0 where
  pub asset_fits : differs asset c.asset ≡ false
  pub payee_fits : differs payee c.payee ≡ false
  pub distinct : IsDistinct os → IsDistinct os'
  pub added : observed c.identity os' ≡ some c
  pub kept :
      (i : SettlementIdentity) (b : OnChainCredit)
      → observed i os ≡ some b
      → observed i os' ≡ some b
  pub only :
      (i : SettlementIdentity) (b : OnChainCredit)
      → observed i os' ≡ some b
      → (observed i os ≡ some b) ⊎ (b ≡ c)

record_credit-StepFacts :
    (asset payee : Option Text) (c : OnChainCredit) (os : Observations)
    → differs asset c.asset ≡ false
    → differs payee c.payee ≡ false
    → ((b : OnChainCredit) → observed c.identity os ≡ some b → b ≡ c)
    → StepFacts asset payee c os (record_credit c os)
record_credit-StepFacts asset payee c os fa fp fresh = record {
  asset_fits = fa;
  payee_fits = fp;
  distinct = record_credit-IsDistinct c os;
  added = ground (arith, observed-record_credit c.identity c os, identity_eq_refl c.identity);
  kept =
      λ i b h. ground (arith, observed-record_credit i c os, identity_eq_iff i c.identity, fresh b);
  only = λ i b h. ground (arith, observed-record_credit i c os);
}

-- What is observed of the identity when a step succeeds is the credit itself.
observe_decided :
    (asset payee : Option Text) (c : OnChainCredit) (os : Observations) (o : Option OnChainCredit)
    → differs asset c.asset ≡ false
    → differs payee c.payee ≡ false
    → observed c.identity os ≡ o
    → Ensures (StepFacts asset payee c os) (elim o [
      | none ↦ ok (record_credit c os)
      | some previous ↦ if credit_eq previous c then ok (record_credit c os) else err conflicting
    ])
observe_decided asset payee c os none fa fp e = record {
  holds = record_credit-StepFacts asset payee c os fa fp (λ b h. ground arith);
}
observe_decided asset payee c os (some p) fa fp e = elim (Bool-cases (credit_eq p c)) [
  | inl same ↦ rw same (record {
    holds =
        record_credit-StepFacts asset payee c os fa fp (λ b h. ground (arith, credit_eq_iff p c));
  })
  | inr other ↦ rw other (record { holds = tt })
]

pub observe-StepFacts :
    (asset payee : Option Text) (c : OnChainCredit) (os : Observations)
    → Ensures (StepFacts asset payee c os) (observe asset payee c os)
unfolding observe
observe-StepFacts asset payee c os = Ensures-raise_if _ _ _ λ fa.
    Ensures-raise_if _ _ _
      λ fp. observe_decided asset payee c os (observed c.identity os) fa fp refl

-- What the whole loop ensures.
pub record LoopFacts (chain_id : ℤ) (asset payee : Option Text) (logs : List Fields)
    (os os' : Observations) : Type 0 where
  pub distinct : IsDistinct os → IsDistinct os'
  pub decoded :
      (log : Fields)
      → In log logs
      → (c : OnChainCredit) × (decode_transfer_log log chain_id ≡ ok c)
        × (observed c.identity os' ≡ some c)
        × (differs asset c.asset ≡ false)
        × (differs payee c.payee ≡ false)
  pub kept :
      (i : SettlementIdentity) (b : OnChainCredit)
      → observed i os ≡ some b
      → observed i os' ≡ some b
  pub only :
      (i : SettlementIdentity) (b : OnChainCredit)
      → observed i os' ≡ some b
      → (observed i os ≡ some b)
        ⊎ ((log : Fields) × In log logs × (decode_transfer_log log chain_id ≡ ok b))

module _ {chain_id : ℤ} {asset payee : Option Text} {log : Fields} {logs : List Fields}
    {c : OnChainCredit} {os mid os' : Observations}
    (decodes : decode_transfer_log log chain_id ≡ ok c) (step : StepFacts asset payee c os mid)
    (rest : LoopFacts chain_id asset payee logs mid os') where
  cons_decoded :
      (l : Fields)
      → In l (log ∷ logs)
      → (b : OnChainCredit) × (decode_transfer_log l chain_id ≡ ok b)
        × (observed b.identity os' ≡ some b)
        × (differs asset b.asset ≡ false)
        × (differs payee b.payee ≡ false)
  cons_decoded l (inl e) =
      (c, rw e decodes, rest.kept c.identity c step.added, step.asset_fits, step.payee_fits)
  cons_decoded l (inr m) = rest.decoded l m

  later :
      (b : OnChainCredit) (i : SettlementIdentity)
      → (observed i os ≡ some b) ⊎ (b ≡ c)
      → (observed i os ≡ some b)
        ⊎ ((l : Fields) × In l (log ∷ logs) × (decode_transfer_log l chain_id ≡ ok b))
  later b i (inl h) = inl h
  later b i (inr e) = inr (log, inl refl, rw e decodes)

  cons_only :
      (i : SettlementIdentity) (b : OnChainCredit)
      → observed i os' ≡ some b
      → (observed i os ≡ some b)
        ⊎ ((l : Fields) × In l (log ∷ logs) × (decode_transfer_log l chain_id ≡ ok b))
  cons_only i b h = elim (rest.only i b h) [
    | inl early ↦ later b i (step.only i b early)
    | inr (l, m, e) ↦ inr (l, inr m, e)
  ]

  cons-LoopFacts : LoopFacts chain_id asset payee (log ∷ logs) os os'
  cons-LoopFacts = record {
    distinct = λ d. rest.distinct (step.distinct d);
    decoded = cons_decoded;
    kept = λ i b h. rest.kept i b (step.kept i b h);
    only = cons_only;
  }

pub observe_all-LoopFacts :
    (chain_id : ℤ) (asset payee : Option Text) (logs : List Fields) (os : Observations)
    → Ensures (LoopFacts chain_id asset payee logs os) (observe_all chain_id asset payee logs os)
unfolding observe_all
observe_all-LoopFacts chain_id asset payee [] os = record {
  holds = record {
    distinct = λ d. d;
    decoded = λ l m. elim m [ ];
    kept = λ i b h. h;
    only = λ i b h. inl h;
  };
}
observe_all-LoopFacts chain_id asset payee (log ∷ logs) os =
    Ensures-bind (Ensures-self (decode_transfer_log log chain_id)) λ c decodes.
      Ensures-bind (observe-StepFacts asset payee c os) λ mid step.
        Ensures-map (observe_all-LoopFacts chain_id asset payee logs mid)
          λ os' rest. cons-LoopFacts decodes step rest
