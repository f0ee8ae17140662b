-- ===== src/Reconciliation/Ledger.antt =====
-- What `find_unreconciled` returns: exactly the credits of the snapshot that stand on the chain and
-- are missing from the ledger, in the order of their keys.
use psv.Base.{
  ◌≡◌, ◌↔◌, ◌⊎◌, inl, inr, true, false, Option, List, [], ◌∷◌, arith, In, ok, Ensures-eq_ok,
  Ensures-bind, Ensures-skip,
}
use psv.Base.Int.{ℤ}
use psv.Text.{Text}
use psv.Value.{Fields}
use psv.Reconciliation.Credit.{SettlementIdentity, OnChainCredit, decode_transfer_log}
use psv.Reconciliation.Find.{
  LedgerEntry, entry_identity, is_known, Observations, observed, insert_sorted, sort_credits,
  missing_credits, find_unreconciled,
}
use psv.Reconciliation.Equality.{identity_eq_iff}
use psv.Reconciliation.Observed.{LoopFacts, observe_all-LoopFacts, observed-In, In-observed}

-- The ledger has an entry for the identity.
abbrev pub Known : SettlementIdentity → List LedgerEntry → Type 0
Known i [] = ⊥
Known i (e ∷ es) = (i ≡ entry_identity e) ⊎ Known i es

pub is_known_iff :
    (i : SettlementIdentity) (es : List LedgerEntry) → (is_known i es ≡ true) ↔ Known i es
unfolding is_known
is_known_iff i [] = ((λ h. cc), λ h. elim h [ ])
is_known_iff i (e ∷ es) = ground (arith, identity_eq_iff i (entry_identity e), is_known_iff i es)

-- Canonical, and not in the ledger.
abbrev pub IsMissing : List LedgerEntry → OnChainCredit → Type 0
IsMissing ledger c = (c.removed ≡ false) × (¬ Known c.identity ledger)

pub missing_credits_iff :
    (ledger : List LedgerEntry) (c : OnChainCredit) (os : Observations)
    → In c (missing_credits ledger os) ↔ (In c os × IsMissing ledger c)
unfolding missing_credits
missing_credits_iff ledger c [] = ((λ m. elim m [ ]), λ h. elim h.0 [ ])
missing_credits_iff ledger c (d ∷ os) =
    ground (arith, missing_credits_iff ledger c os, is_known_iff d.identity ledger)

pub In-insert_sorted :
    (c d : OnChainCredit) (ds : List OnChainCredit)
    → In c (insert_sorted d ds) ↔ ((c ≡ d) ⊎ In c ds)
unfolding insert_sorted
In-insert_sorted c d [] = ((λ m. m), λ m. m)
In-insert_sorted c d (e ∷ ds) = ground (arith, In-insert_sorted c d ds)

pub In-sort_credits :
    (c : OnChainCredit) (ds : List OnChainCredit) → In c (sort_credits ds) ↔ In c ds
unfolding sort_credits
In-sort_credits c [] = ((λ m. m), λ m. m)
In-sort_credits c (d ∷ ds) =
    ground (arith, In-insert_sorted c d (sort_credits ds), In-sort_credits c ds)

-- The log of some transfer decodes to the credit.
abbrev pub Decoded : ℤ → List Fields → OnChainCredit → Type 0
Decoded chain_id logs c = (log : Fields) × In log logs × (decode_transfer_log log chain_id ≡ ok c)

Decoded-In :
    {chain_id : ℤ} {asset payee : Option Text} {logs : List Fields} {os : Observations}
    → LoopFacts chain_id asset payee logs [] os
    → (c : OnChainCredit) → Decoded chain_id logs c
    → In c os
Decoded-In {os = os} facts c (log, m, e) =
    let (b, decodes, seen, _, _) = facts.decoded log m in
    observed-In c os (ground (arith, e, decodes, seen))

pub loop_In :
    {chain_id : ℤ} {asset payee : Option Text} {logs : List Fields} {os : Observations}
    → LoopFacts chain_id asset payee logs [] os
    → (c : OnChainCredit) → In c os ↔ Decoded chain_id logs c
unfolding observed
loop_In {os = os} facts c = (
  λ m. elim (facts.only c.identity c (In-observed c os (facts.distinct tt) m)) [
    | inl nothing ↦ cc
    | inr found ↦ found
  ],
  Decoded-In facts c,
)

-- When `find_unreconciled` returns, a credit is in its result exactly when some log of the snapshot
-- decodes to it, the log was not removed and the ledger lacks its identity.
pub find_unreconciled_iff :
    (transfers : List Fields) (ledger : List LedgerEntry) (chain_id : ℤ) (asset payee : Option Text)
    (result : List OnChainCredit)
    → find_unreconciled transfers ledger chain_id asset payee ≡ ok result
    → (c : OnChainCredit) → In c result ↔ (Decoded chain_id transfers c × IsMissing ledger c)
unfolding find_unreconciled
find_unreconciled_iff transfers ledger chain_id asset payee result =
    Ensures-eq_ok
      {P = λ r. (c : OnChainCredit) → In c r ↔ (Decoded chain_id transfers c × IsMissing ledger c)}
      (Ensures-skip _ _ λ asset'. Ensures-skip _ _ λ payee'.
        Ensures-bind (observe_all-LoopFacts chain_id asset' payee' transfers []) λ os facts.
          record {
            holds = λ c. ground (
              arith,
              In-sort_credits c (missing_credits ledger os),
              missing_credits_iff ledger c os,
              loop_In facts c,
            );
          })
