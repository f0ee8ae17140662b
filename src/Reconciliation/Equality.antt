-- ===== src/Reconciliation/Equality.antt =====
-- The comparisons of src/psv/reconciliation.py decide equality, and the sort key is a strict order
-- that is total on the credits of one chain.
use psv.Base.{◌≡◌, refl, ◌↔◌, true, false, [], ◌∷◌, arith}
use psv.Text.{Text}
use psv.Text.Laws.{text_eq_iff}
use psv.Reconciliation.Credit.{SettlementIdentity, OnChainCredit}
use psv.Reconciliation.Find.{identity_eq, credit_eq, text_ltb, key_ltb}

pub identity_eq_iff : (a b : SettlementIdentity) → (identity_eq a b ≡ true) ↔ (a ≡ b)
unfolding identity_eq
identity_eq_iff a b = ground (arith, text_eq_iff a.asset b.asset, text_eq_iff a.tx_hash b.tx_hash)

pub identity_eq_refl : (a : SettlementIdentity) → identity_eq a a ≡ true
identity_eq_refl a = (identity_eq_iff a a).1 refl

pub credit_eq_iff : (a b : OnChainCredit) → (credit_eq a b ≡ true) ↔ (a ≡ b)
unfolding credit_eq
credit_eq_iff a b = ground (
  arith,
  identity_eq_iff a.identity b.identity,
  text_eq_iff a.block_hash b.block_hash,
  text_eq_iff a.payer b.payer,
  text_eq_iff a.payee b.payee,
)

text_ltb_irrefl : (s : Text) → text_ltb s s ≡ false
unfolding text_ltb
text_ltb_irrefl [] = refl
text_ltb_irrefl (c ∷ s) = ground (arith, text_ltb_irrefl s)

text_ltb_trans : (s t u : Text) → text_ltb s t ≡ true → text_ltb t u ≡ true → text_ltb s u ≡ true
unfolding text_ltb
text_ltb_trans s t [] h k = cc
text_ltb_trans s [] (e ∷ u) h k = cc
text_ltb_trans [] (d ∷ t) (e ∷ u) h k = refl
text_ltb_trans (c ∷ s) (d ∷ t) (e ∷ u) h k = ground (arith, text_ltb_trans s t u)

text_ltb_total : (s t : Text) → text_ltb s t ≡ false → text_ltb t s ≡ false → s ≡ t
unfolding text_ltb
text_ltb_total [] [] h k = refl
text_ltb_total [] (d ∷ t) h k = cc
text_ltb_total (c ∷ s) [] h k = cc
text_ltb_total (c ∷ s) (d ∷ t) h k = ground (arith, text_ltb_total s t)

pub key_ltb_irrefl : (a : OnChainCredit) → key_ltb a a ≡ false
unfolding key_ltb
key_ltb_irrefl a = ground (arith, text_ltb_irrefl a.tx_hash, text_ltb_irrefl a.asset)

pub key_ltb_trans :
    (a b c : OnChainCredit) → key_ltb a b ≡ true → key_ltb b c ≡ true → key_ltb a c ≡ true
unfolding key_ltb
key_ltb_trans a b c h k = ground (
  arith,
  text_ltb_trans a.tx_hash b.tx_hash c.tx_hash,
  text_ltb_trans a.asset b.asset c.asset,
  text_eq_iff a.tx_hash b.tx_hash,
  text_eq_iff b.tx_hash c.tx_hash,
  text_eq_iff a.tx_hash c.tx_hash,
)

-- Credits of one chain with neither before the other have one identity.
pub key_ltb_total :
    (a b : OnChainCredit)
    → a.chain_id ≡ b.chain_id
    → key_ltb a b ≡ false
    → key_ltb b a ≡ false
    → a.identity ≡ b.identity
unfolding key_ltb
key_ltb_total a b chain h k = ground (
  arith,
  text_ltb_total a.tx_hash b.tx_hash,
  text_ltb_total a.asset b.asset,
  text_eq_iff a.tx_hash b.tx_hash,
  text_eq_iff b.tx_hash a.tx_hash,
)
