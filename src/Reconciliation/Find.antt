-- ===== src/Reconciliation/Find.antt =====
-- `find_unreconciled` and `reconcile_asset_scoped` of src/psv/reconciliation.py. Credits whose
-- identity was observed before are compared with that observation. Python's `sorted` is an
-- insertion sort here: as the sort is stable, its result is the same.
use psv.Base.{
  String, Bool, true, false, not, ◌&&◌, ◌||◌, Option, none, some, List, [], ◌∷◌, ltb, ◌==◌,
  if◌then◌else◌, ok, err, ◌>>=◌, ◌>>◌, raise_if,
}
use psv.Base.Int.{ℤ, eqb_ℤ}
use psv.Text.{Text, text_eq}
use psv.Value.{Fields, str}
use psv.Reconciliation.Fields.{cross_asset, cross_recipient, conflicting, Checked, address}
use psv.Reconciliation.Credit.{SettlementIdentity, OnChainCredit, decode_transfer_log}

-- `LedgerEntry`
pub data LedgerEntry : Type 0 where
  by_identity : SettlementIdentity → LedgerEntry
  by_credit : OnChainCredit → LedgerEntry

-- `entry.identity if isinstance(entry, OnChainCredit) else entry`
abbrev pub entry_identity : LedgerEntry → SettlementIdentity
entry_identity (by_identity i) = i
entry_identity (by_credit c) = c.identity

unfoldable pub identity_eq : SettlementIdentity → SettlementIdentity → Bool
identity_eq a b =
    eqb_ℤ a.chain_id b.chain_id
    && text_eq a.asset b.asset
    && text_eq a.tx_hash b.tx_hash
    && a.log_index == b.log_index

unfoldable pub credit_eq : OnChainCredit → OnChainCredit → Bool
unfolding identity_eq
credit_eq a b =
    identity_eq a.identity b.identity
    && text_eq a.block_hash b.block_hash
    && a.block_number == b.block_number
    && text_eq a.payer b.payer
    && text_eq a.payee b.payee
    && a.value == b.value
    && (if a.removed then b.removed else not b.removed)

-- `identity in known`
unfoldable pub is_known : SettlementIdentity → List LedgerEntry → Bool
is_known i [] = false
is_known i (e ∷ es) = identity_eq i (entry_identity e) || is_known i es

-- The dict `observations`, whose keys are the identities of its values, in insertion order.
abbrev pub Observations : Type 0
Observations = List OnChainCredit

-- `observations.get(identity)`
unfoldable pub observed : SettlementIdentity → Observations → Option OnChainCredit
observed i [] = none
observed i (c ∷ os) = if identity_eq i c.identity then some c else observed i os

-- `observations[credit.identity] = credit`
unfoldable pub record_credit : OnChainCredit → Observations → Observations
record_credit c [] = c ∷ []
record_credit c (d ∷ os) =
    if identity_eq c.identity d.identity then c ∷ os else d ∷ record_credit c os

-- `expected is not None and actual != expected`
abbrev pub differs : Option Text → Text → Bool
differs none t = false
differs (some e) t = not (text_eq t e)

-- One decoded log of the loop of `find_unreconciled`.
unfoldable pub observe :
    Option Text → Option Text → OnChainCredit → Observations → Checked Observations
observe asset payee c os = do
  raise_if (differs asset c.asset) cross_asset
  raise_if (differs payee c.payee) cross_recipient
  elim (observed c.identity os) [
    | none ↦ ok (record_credit c os)
    | some previous ↦ if credit_eq previous c then ok (record_credit c os) else err conflicting
  ]

-- The loop of `find_unreconciled`.
unfoldable pub observe_all :
    ℤ → Option Text → Option Text → List Fields → Observations → Checked Observations
observe_all chain_id asset payee [] os = ok os
observe_all chain_id asset payee (log ∷ logs) os = do
  credit ← decode_transfer_log log chain_id
  os' ← observe asset payee credit os
  observe_all chain_id asset payee logs os'

-- `s < t` on texts
unfoldable pub text_ltb : Text → Text → Bool
text_ltb s [] = false
text_ltb [] (d ∷ t) = true
text_ltb (c ∷ s) (d ∷ t) = ltb c d || c == d && text_ltb s t

-- The order of the tuples `(block_number, log_index, tx_hash, asset)`.
unfoldable pub key_ltb : OnChainCredit → OnChainCredit → Bool
key_ltb a b =
    ltb a.block_number b.block_number
    || a.block_number == b.block_number
      && (ltb a.log_index b.log_index
          || a.log_index == b.log_index
            && (text_ltb a.tx_hash b.tx_hash
                || text_eq a.tx_hash b.tx_hash && text_ltb a.asset b.asset))

unfoldable pub insert_sorted : OnChainCredit → List OnChainCredit → List OnChainCredit
insert_sorted c [] = c ∷ []
insert_sorted c (d ∷ ds) = if key_ltb d c then d ∷ insert_sorted c ds else c ∷ d ∷ ds

unfoldable pub sort_credits : List OnChainCredit → List OnChainCredit
unfolding insert_sorted
sort_credits [] = []
sort_credits (c ∷ cs) = insert_sorted c (sort_credits cs)

-- `if not credit.removed and identity not in known`
unfoldable pub missing_credits : List LedgerEntry → Observations → List OnChainCredit
missing_credits ledger [] = []
missing_credits ledger (c ∷ os) =
    let rest = missing_credits ledger os in
    if not c.removed && not (is_known c.identity ledger) then c ∷ rest else rest

-- `_address(expected, ...) if expected else None`; an empty text is false too.
abbrev pub optional_address : Option Text → String → Checked (Option Text)
optional_address none what = ok none
optional_address (some []) what = ok none
optional_address (some (c ∷ s)) what = do exact ← address (str (c ∷ s)) what; ok (some exact)

unfoldable pub find_unreconciled :
    List Fields → List LedgerEntry → ℤ → Option Text → Option Text → Checked (List OnChainCredit)
find_unreconciled transfers ledger_entries chain_id expected_asset expected_payee = do
  asset ← optional_address expected_asset "expected asset"
  payee ← optional_address expected_payee "expected payee"
  observations ← observe_all chain_id asset payee transfers []
  ok (sort_credits (missing_credits ledger_entries observations))

-- The list comprehension of `reconcile_asset_scoped`: a log that does not decode raises.
unfoldable pub scope_to : Text → ℤ → List Fields → Checked (List Fields)
scope_to asset chain_id [] = ok []
scope_to asset chain_id (log ∷ logs) = do
  credit ← decode_transfer_log log chain_id
  rest ← scope_to asset chain_id logs
  ok (if text_eq credit.asset asset then log ∷ rest else rest)

unfoldable pub reconcile_asset_scoped :
    List Fields → List LedgerEntry → ℤ → Text → Option Text → Checked (List OnChainCredit)
reconcile_asset_scoped transfers ledger_entries chain_id expected_asset expected_payee = do
  asset ← address (str expected_asset) "expected asset"
  scoped ← scope_to asset chain_id transfers
  find_unreconciled scoped ledger_entries chain_id (some asset) expected_payee
