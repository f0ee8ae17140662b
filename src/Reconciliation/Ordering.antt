-- ===== src/Reconciliation/Ordering.antt =====
-- The result of `find_unreconciled` is sorted strictly by its keys, so that it names no identity
-- twice and depends on the snapshot and the ledger only as sets.
use psv.Base.{
  ◌≡◌, refl, sym, subst, ◌∙◌, ◌≢◌, ◌↔◌, inl, inr, Bool, true, false, not, ◌&&◌, Option, none, List,
  [], ◌∷◌, arith, if◌then◌else◌, Bool-cases, In, ok, Ensures-eq_ok, Ensures-bind, Ensures-skip,
}
use psv.Base.Int.{ℤ}
use psv.Text.{Text}
use psv.Value.{Fields}
use psv.Reconciliation.Credit.{SettlementIdentity, OnChainCredit}
use psv.Reconciliation.Find.{
  LedgerEntry, Observations, observed, key_ltb, insert_sorted, sort_credits, missing_credits,
  find_unreconciled, is_known,
}
use psv.Reconciliation.Equality.{key_ltb_irrefl, key_ltb_trans, key_ltb_total}
use psv.Reconciliation.Decoding.{decode_transfer_log-IsWellFormed}
use psv.Reconciliation.Observed.{IsDistinct, observe_all-LoopFacts, absent-not_In}
use psv.Reconciliation.Ledger.{
  In-insert_sorted, In-sort_credits, missing_credits_iff, loop_In, find_unreconciled_iff, Known,
}

-- Each credit stands before all that follow it.
abbrev pub IsSorted : List OnChainCredit → Type 0
IsSorted [] = Unit
IsSorted (c ∷ cs) = ((d : OnChainCredit) → In d cs → key_ltb c d ≡ true) × IsSorted cs

-- Another settlement of the same chain.
abbrev IsApart : OnChainCredit → OnChainCredit → Type 0
IsApart c d = (c.chain_id ≡ d.chain_id) × (c.identity ≢ d.identity)

abbrev AreApart : List OnChainCredit → Type 0
AreApart [] = Unit
AreApart (c ∷ cs) = ((d : OnChainCredit) → In d cs → IsApart c d) × AreApart cs

before_or_after : (c d : OnChainCredit) → IsApart c d → key_ltb d c ≡ false → key_ltb c d ≡ true
before_or_after c d apart h = elim (Bool-cases (key_ltb c d)) [
  | inl before ↦ before
  | inr k ↦ absurd (apart.1 (key_ltb_total c d apart.0 k h))
]

all_before :
    (c d : OnChainCredit) (ds : List OnChainCredit)
    → key_ltb c d ≡ true
    → IsSorted (d ∷ ds)
    → (e : OnChainCredit) → In e (d ∷ ds)
    → key_ltb c e ≡ true
all_before c d ds h s e (inl same) = rw same h
all_before c d ds h s e (inr m) = key_ltb_trans c d e h (s.0 e m)

insert_sorted-IsSorted :
    (c : OnChainCredit) (ds : List OnChainCredit)
    → ((d : OnChainCredit) → In d ds → IsApart c d)
    → IsSorted ds
    → IsSorted (insert_sorted c ds)
unfolding insert_sorted
insert_sorted-IsSorted c [] apart s = ((λ d m. elim m [ ]), tt)
insert_sorted-IsSorted c (d ∷ ds) apart s = elim (Bool-cases (key_ltb d c)) [
  | inl before ↦ rw before (
    (λ e m. elim ((In-insert_sorted e c ds).0 m) [
      | inl same ↦ rw same before
      | inr old ↦ s.0 e old
    ]),
    insert_sorted-IsSorted c ds (λ e m. apart e (inr m)) s.1,
  )
  | inr after ↦ rw after (all_before c d ds (before_or_after c d (apart d (inl refl)) after) s, s)
]

sort_credits-IsSorted : (cs : List OnChainCredit) → AreApart cs → IsSorted (sort_credits cs)
unfolding sort_credits
sort_credits-IsSorted [] h = tt
sort_credits-IsSorted (c ∷ cs) h =
    insert_sorted-IsSorted c (sort_credits cs) (λ d m. h.0 d ((In-sort_credits d cs).0 m))
      (sort_credits-IsSorted cs h.1)

AreApart-if :
    (b : Bool) (c : OnChainCredit) (cs : List OnChainCredit)
    → ((d : OnChainCredit) → In d cs → IsApart c d)
    → AreApart cs
    → AreApart (if b then c ∷ cs else cs)
AreApart-if true c cs h k = (h, k)
AreApart-if false c cs h k = k

-- The observations are pairwise apart, and so are those that the ledger lacks.
module _ (chain_id : ℤ) (ledger : List LedgerEntry) where
  IsApart-rest :
      (c : OnChainCredit) (os : Observations)
      → IsDistinct (c ∷ os)
      → ((e : OnChainCredit) → In e (c ∷ os) → e.chain_id ≡ chain_id)
      → (e : OnChainCredit) → In e (missing_credits ledger os)
      → IsApart c e
  IsApart-rest c os d chain e m =
      let old = ((missing_credits_iff ledger e os).0 m).0 in
      (
        chain c (inl refl) ∙ sym (chain e (inr old)),
        λ same. absent-not_In e os (subst (λ i. observed i os ≡ none) same d.0) old,
      )

  missing_credits-AreApart :
      (os : Observations)
      → IsDistinct os
      → ((c : OnChainCredit) → In c os → c.chain_id ≡ chain_id)
      → AreApart (missing_credits ledger os)
  unfolding missing_credits
  missing_credits-AreApart [] d chain = tt
  missing_credits-AreApart (c ∷ os) d chain =
      AreApart-if (not c.removed && not (is_known c.identity ledger)) c (missing_credits ledger os)
        (IsApart-rest c os d chain) (missing_credits-AreApart os d.1 (λ e m. chain e (inr m)))

-- A result of `find_unreconciled` is strictly sorted by block, log index, transaction and asset.
pub find_unreconciled-IsSorted :
    (transfers : List Fields) (ledger : List LedgerEntry) (chain_id : ℤ) (asset payee : Option Text)
    (result : List OnChainCredit)
    → find_unreconciled transfers ledger chain_id asset payee ≡ ok result
    → IsSorted result
unfolding find_unreconciled
find_unreconciled-IsSorted transfers ledger chain_id asset payee result =
    Ensures-eq_ok {P = IsSorted} (
      Ensures-skip _ _ λ asset'. Ensures-skip _ _ λ payee'.
        Ensures-bind (observe_all-LoopFacts chain_id asset' payee' transfers []) λ os facts.
          record {
            holds = sort_credits-IsSorted (missing_credits ledger os) (
                missing_credits-AreApart chain_id ledger os (facts.distinct tt) (λ c m.
                  let (log, _, e) = (loop_In facts c).0 m in
                  (decode_transfer_log-IsWellFormed log chain_id c e).1));
          })

not_self_before : (x c : OnChainCredit) → key_ltb x c ≡ true → c ≡ x → ⊥
not_self_before x c h e = ground (arith, key_ltb_irrefl x)

-- A member of the one tail is a member of the other.
tail_In :
    (x y c : OnChainCredit) (xs ys : List OnChainCredit)
    → x ≡ y
    → IsSorted (x ∷ xs)
    → In c xs
    → In c (y ∷ ys)
    → In c ys
tail_In x y c xs ys e s m (inl same) = absurd (not_self_before x c (s.0 c m) (same ∙ sym e))
tail_In x y c xs ys e s m (inr k) = k

heads_equal :
    (x y : OnChainCredit) (xs ys : List OnChainCredit)
    → IsSorted (x ∷ xs)
    → IsSorted (y ∷ ys)
    → In x (y ∷ ys)
    → In y (x ∷ xs)
    → x ≡ y
heads_equal x y xs ys h k (inl e) m = e
heads_equal x y xs ys h k (inr n) (inl e) = sym e
heads_equal x y xs ys h k (inr n) (inr m) =
    absurd (not_self_before x x (key_ltb_trans x y x (h.0 y m) (k.0 x n)) refl)

-- Strictly sorted lists with the same members are equal.
IsSorted-ext :
    (xs ys : List OnChainCredit)
    → IsSorted xs
    → IsSorted ys
    → ((c : OnChainCredit) → In c xs ↔ In c ys)
    → xs ≡ ys
IsSorted-ext [] [] h k e = refl
IsSorted-ext [] (y ∷ ys) h k e = elim ((e y).1 (inl refl)) [ ]
IsSorted-ext (x ∷ xs) [] h k e = elim ((e x).0 (inl refl)) [ ]
IsSorted-ext (x ∷ xs) (y ∷ ys) h k e =
    let same = heads_equal x y xs ys h k ((e x).0 (inl refl)) ((e y).1 (inl refl)) in
    let rest = IsSorted-ext xs ys h.1 k.1 λ c. (
      λ m. tail_In x y c xs ys same h m ((e c).0 (inr m)),
      λ m. tail_In y x c ys xs (sym same) k m ((e c).1 (inr m)),
    ) in
    cc (same, rest)

module _ (chain_id : ℤ) (asset payee asset' payee' : Option Text)
    (result result' : List OnChainCredit) where
  -- More logs and fewer known identities keep every member of a result.
  pub find_unreconciled_mono :
      (transfers transfers' : List Fields) (ledger ledger' : List LedgerEntry)
      → ((log : Fields) → In log transfers → In log transfers')
      → ((i : SettlementIdentity) → Known i ledger' → Known i ledger)
      → find_unreconciled transfers ledger chain_id asset payee ≡ ok result
      → find_unreconciled transfers' ledger' chain_id asset' payee' ≡ ok result'
      → (c : OnChainCredit) → In c result
      → In c result'
  find_unreconciled_mono transfers transfers' ledger ledger' logs known h k c m =
      let ((log, n, e), (here, new)) =
        (find_unreconciled_iff transfers ledger chain_id asset payee result h c).0 m in
      (find_unreconciled_iff transfers' ledger' chain_id asset' payee' result' k c).1
        ((log, logs log n, e), (here, λ q. new (known c.identity q)))

-- Snapshots with the same logs, in any order and however often, and ledgers that know the same
-- identities, give the same result whenever both calls return.
pub find_unreconciled_ext :
    (transfers transfers' : List Fields) (ledger ledger' : List LedgerEntry) (chain_id : ℤ)
    (asset payee asset' payee' : Option Text) (result result' : List OnChainCredit)
    → ((log : Fields) → In log transfers ↔ In log transfers')
    → ((i : SettlementIdentity) → Known i ledger ↔ Known i ledger')
    → find_unreconciled transfers ledger chain_id asset payee ≡ ok result
    → find_unreconciled transfers' ledger' chain_id asset' payee' ≡ ok result'
    → result ≡ result'
find_unreconciled_ext transfers transfers' ledger ledger' chain_id asset payee asset' payee' result
      result' logs known h k =
    IsSorted-ext result result'
      (find_unreconciled-IsSorted transfers ledger chain_id asset payee result h)
      (find_unreconciled-IsSorted transfers' ledger' chain_id asset' payee' result' k)
      λ c. (
        find_unreconciled_mono chain_id asset payee asset' payee' result result' transfers
            transfers' ledger ledger' (λ log. (logs log).0) (λ i. (known i).1) h k c,
        find_unreconciled_mono chain_id asset' payee' asset payee result' result transfers'
            transfers ledger' ledger (λ log. (logs log).1) (λ i. (known i).0) k h c,
      )
