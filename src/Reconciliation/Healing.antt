-- ===== src/Reconciliation/Healing.antt =====
-- What makes `find_unreconciled` safe to run again: the credits of the snapshot have one meaning,
-- they are of the expected asset and payee, and a ledger that booked a result has nothing missing.
use psv.Base.{
  ◌≡◌, refl, ap, ◌∙◌, inl, inr, false, Option, some, List, [], ◌∷◌, ◌++◌, map, arith, In, ok, ◌>>=◌,
  Ensures-eq_ok, Ensures-bind, Ensures-skip, Ensures-self,
}
use psv.Base.Int.{ℤ}
use psv.Text.{Text}
use psv.Value.{Fields}
use psv.Reconciliation.Credit.{SettlementIdentity, OnChainCredit, decode_transfer_log}
use psv.Reconciliation.Find.{
  LedgerEntry, by_credit, Observations, observed, observe_all, differs, sort_credits,
  missing_credits, optional_address, find_unreconciled,
}
use psv.Reconciliation.Observed.{LoopFacts, observe_all-LoopFacts}
use psv.Reconciliation.Ledger.{find_unreconciled_iff, Decoded, Known}

-- Every log decodes, and no two credits share an identity.
abbrev pub IsConsistent : ℤ → List Fields → Type 0
IsConsistent chain_id transfers =
    ((log : Fields)
      → In log transfers
      → (c : OnChainCredit) × (decode_transfer_log log chain_id ≡ ok c))
    × ((c d : OnChainCredit)
        → Decoded chain_id transfers c
        → Decoded chain_id transfers d
        → c.identity ≡ d.identity
        → c ≡ d)

-- Every credit is of the asset and the payee, where one is given.
abbrev pub IsExpected : ℤ → List Fields → Option Text → Option Text → Type 0
IsExpected chain_id transfers asset payee =
    (c : OnChainCredit)
    → Decoded chain_id transfers c
    → (differs asset c.asset ≡ false) × (differs payee c.payee ≡ false)

Decoded-facts :
    {chain_id : ℤ} {asset payee : Option Text} {logs : List Fields} {os : Observations}
    → LoopFacts chain_id asset payee logs [] os
    → (c : OnChainCredit) → Decoded chain_id logs c
    → (observed c.identity os ≡ some c)
      × (differs asset c.asset ≡ false)
      × (differs payee c.payee ≡ false)
Decoded-facts facts c (log, m, e) =
    let (b, decodes, seen, fa, fp) = facts.decoded log m in ground (arith, e, decodes, seen, fa, fp)

loop-IsConsistent :
    {chain_id : ℤ} {asset payee : Option Text} {logs : List Fields} {os : Observations}
    → LoopFacts chain_id asset payee logs [] os
    → IsConsistent chain_id logs
loop-IsConsistent facts = (
  λ log m. ((facts.decoded log m).0, (facts.decoded log m).1),
  λ c d h k e. ground (arith, (Decoded-facts facts c h).0, (Decoded-facts facts d k).0),
)

-- A call that returned has read every log of its snapshot, without a conflict: two logs that decode
-- to one settlement identity decode to the same credit, so a removed and a kept observation of one
-- settlement never stand beside each other.
pub find_unreconciled-IsConsistent :
    (transfers : List Fields) (ledger : List LedgerEntry) (chain_id : ℤ) (asset payee : Option Text)
    (result : List OnChainCredit)
    → find_unreconciled transfers ledger chain_id asset payee ≡ ok result
    → IsConsistent chain_id transfers
unfolding find_unreconciled
find_unreconciled-IsConsistent transfers ledger chain_id asset payee result =
    Ensures-eq_ok {P = λ r. IsConsistent chain_id transfers} (
      Ensures-skip _ _ λ asset'. Ensures-skip _ _ λ payee'.
        Ensures-bind (observe_all-LoopFacts chain_id asset' payee' transfers [])
          λ os facts. record { holds = loop-IsConsistent facts })

abbrev pub Expects : ℤ → List Fields → Option Text → Option Text → Type 0
Expects chain_id transfers asset payee =
    (asset' : Option Text) × (optional_address asset "expected asset" ≡ ok asset')
    × (payee' : Option Text) × (optional_address payee "expected payee" ≡ ok payee')
    × IsExpected chain_id transfers asset' payee'

-- In a call that returned, every credit of the snapshot has the validated form of the expected asset
-- and of the expected payee, where one is given.
pub find_unreconciled_expected :
    (transfers : List Fields) (ledger : List LedgerEntry) (chain_id : ℤ) (asset payee : Option Text)
    (result : List OnChainCredit)
    → find_unreconciled transfers ledger chain_id asset payee ≡ ok result
    → Expects chain_id transfers asset payee
unfolding find_unreconciled
find_unreconciled_expected transfers ledger chain_id asset payee result =
    Ensures-eq_ok {P = λ r. Expects chain_id transfers asset payee} (
      Ensures-bind (Ensures-self (optional_address asset "expected asset")) λ asset' ea.
        Ensures-bind (Ensures-self (optional_address payee "expected payee")) λ payee' ep.
          Ensures-bind (observe_all-LoopFacts chain_id asset' payee' transfers []) λ os facts.
            record {
              holds = (
                asset',
                ea,
                payee',
                ep,
                λ c h. ((Decoded-facts facts c h).1, (Decoded-facts facts c h).2),
              );
            })

Known-append_left :
    (i : SettlementIdentity) (es fs : List LedgerEntry) → Known i es → Known i (es ++ fs)
Known-append_left i [] fs h = elim h [ ]
Known-append_left i (e ∷ es) fs (inl h) = inl h
Known-append_left i (e ∷ es) fs (inr h) = inr (Known-append_left i es fs h)

Known-append_right :
    (i : SettlementIdentity) (es fs : List LedgerEntry) → Known i fs → Known i (es ++ fs)
Known-append_right i [] fs h = h
Known-append_right i (e ∷ es) fs h = inr (Known-append_right i es fs h)

pub Known-map :
    (c : OnChainCredit) (cs : List OnChainCredit) → In c cs → Known c.identity (map by_credit cs)
Known-map c [] m = elim m [ ]
Known-map c (d ∷ cs) (inl e) = inl (ap (λ (x : OnChainCredit). x.identity) e)
Known-map c (d ∷ cs) (inr m) = inr (Known-map c cs m)

abbrev pub Returns : List Fields → List LedgerEntry → ℤ → Option Text → Option Text → Type 0
Returns transfers ledger chain_id asset payee =
    (result : List OnChainCredit) × (find_unreconciled transfers ledger chain_id asset payee
      ≡ ok result)

-- Whether a call returns does not depend on the ledger.
pub Returns-too :
    (transfers : List Fields) (ledger ledger' : List LedgerEntry) (chain_id : ℤ)
    (asset payee : Option Text) (result : List OnChainCredit)
    → find_unreconciled transfers ledger chain_id asset payee ≡ ok result
    → Returns transfers ledger' chain_id asset payee
unfolding find_unreconciled
Returns-too transfers ledger ledger' chain_id asset payee result =
    Ensures-eq_ok {P = λ r. Returns transfers ledger' chain_id asset payee} (
      Ensures-bind (Ensures-self (optional_address asset "expected asset")) λ asset' ea.
        Ensures-bind (Ensures-self (optional_address payee "expected payee")) λ payee' ep.
          Ensures-bind (Ensures-self (observe_all chain_id asset' payee' transfers [])) λ os eo.
            record {
              holds = (
                sort_credits (missing_credits ledger' os),
                unfold ◌>>=◌ in rw ea (rw ep (rw eo refl)),
              );
            })

pub no_members : (cs : List OnChainCredit) → ((c : OnChainCredit) → In c cs → ⊥) → cs ≡ []
no_members [] h = refl
no_members (c ∷ cs) h = absurd (h c (inl refl))

-- A credit that is missing from the grown ledger is missing from the old one, and so was booked.
nothing_missing :
    (transfers : List Fields) (ledger : List LedgerEntry) (chain_id : ℤ) (asset payee : Option Text)
    (result result' : List OnChainCredit)
    → find_unreconciled transfers ledger chain_id asset payee ≡ ok result
    → find_unreconciled transfers (map by_credit result ++ ledger) chain_id asset payee ≡ ok result'
    → (c : OnChainCredit) → In c result'
    → ⊥
nothing_missing transfers ledger chain_id asset payee result result' h k c m =
    let booked = map by_credit result ++ ledger in
    let (found, (here, new)) =
      (find_unreconciled_iff transfers booked chain_id asset payee result' k c).0 m in
    let old : ¬ Known c.identity ledger =
      λ q. new (Known-append_right c.identity (map by_credit result) ledger q) in
    let in_result =
      (find_unreconciled_iff transfers ledger chain_id asset payee result h c).1
        (found, (here, old)) in
    new (Known-append_left c.identity (map by_credit result) ledger (Known-map c result in_result))

-- Reconciliation heals: once every returned credit is booked, the same snapshot has nothing
-- missing, and the call still returns.
pub find_unreconciled_heals :
    (transfers : List Fields) (ledger : List LedgerEntry) (chain_id : ℤ) (asset payee : Option Text)
    (result : List OnChainCredit)
    → find_unreconciled transfers ledger chain_id asset payee ≡ ok result
    → find_unreconciled transfers (map by_credit result ++ ledger) chain_id asset payee ≡ ok []
find_unreconciled_heals transfers ledger chain_id asset payee result h =
    let booked = map by_credit result ++ ledger in
    let (result', k) = Returns-too transfers ledger booked chain_id asset payee result h in
    k
    ∙ ap ok (
        no_members result'
          (nothing_missing transfers ledger chain_id asset payee result result' h k))
