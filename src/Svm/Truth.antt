-- ===== src/Svm/Truth.antt =====
-- What the truth of src/psv/svm_chain.py says of the balances in the metadata.
use psv.Base.{
  ℕ, ◌<◌, String, ◌≡◌, refl, subst, ◌↔◌, inl, inr, true, List, [], ◌∷◌, arith, if◌then◌else◌,
  Bool-cases, ok, Ensures, Ensures-bind, Ensures-skip, Ensures-raise_if, Ensures-self,
}
use psv.Base.Int.{pos}
use psv.Text.{Text}
use psv.Value.{Value, Values, Fields, list, dict, to_list, get_or_null}
use psv.Svm.{
  is_account, entry_amount, found_amounts, at_most_one, balance_for, balance_list, is_null,
  settlement_truth_from_svm_meta,
}
use psv.Divergence.{SettlementTruth}
use psv.Divergence.Verdict.{Moved, balances-Moved_iff}

-- The entries of an account, among the objects of a list.
abbrev pub accounts : Text → Text → List Value → List Fields
accounts owner mint [] = []
accounts owner mint (dict entry ∷ entries) =
    if is_account owner mint entry
    then entry ∷ accounts owner mint entries
    else accounts owner mint entries
accounts owner mint (_ ∷ entries) = accounts owner mint entries

-- An account with no entry holds nothing; with one, what the entry says.
abbrev pub HoldsAmount : List Fields → String → ℕ → Type 0
HoldsAmount [] what n = n ≡ 0
HoldsAmount (entry ∷ []) what n = entry_amount (get_or_null "uiTokenAmount" entry) what ≡ ok n
HoldsAmount (entry ∷ _ ∷ _) what n = ⊥

-- The amounts that were found are those of the account's entries, in their order.
abbrev AreAmounts : List Fields → String → List ℕ → Type 0
AreAmounts [] what [] = Unit
AreAmounts [] what (n ∷ ns) = ⊥
AreAmounts (e ∷ es) what [] = ⊥
AreAmounts (e ∷ es) what (n ∷ ns) =
    (entry_amount (get_or_null "uiTokenAmount" e) what ≡ ok n) × AreAmounts es what ns

found_amounts-AreAmounts :
    (owner mint : Text) (what : String) (entries : List Value)
    → Ensures
        (AreAmounts (accounts owner mint entries) what)
        (found_amounts owner mint what entries)
unfolding found_amounts
found_amounts-AreAmounts owner mint what [] = record { holds = tt }
found_amounts-AreAmounts owner mint what (dict entry ∷ entries) =
    let later = found_amounts-AreAmounts owner mint what entries in
    elim (Bool-cases (is_account owner mint entry)) [
      | inl t ↦ rw t (
          Ensures-bind (Ensures-self _)
            λ n e. Ensures-bind later λ more h. record { holds = (e, h) })
      | inr f ↦ rw f later
    ]
found_amounts-AreAmounts owner mint what (_ ∷ entries) = record { holds = tt }

at_most_one-Holds :
    (what : String) (es : List Fields) (ns : List ℕ)
    → AreAmounts es what ns
    → Ensures (HoldsAmount es what) (at_most_one what ns)
at_most_one-Holds what [] [] h = record { holds = refl }
at_most_one-Holds what [] (n ∷ ns) h = elim h [ ]
at_most_one-Holds what (e ∷ es) [] h = elim h [ ]
at_most_one-Holds what (e ∷ []) (n ∷ []) (h, t) = record { holds = h }
at_most_one-Holds what (e ∷ []) (n ∷ m ∷ ns) (h, t) = elim t [ ]
at_most_one-Holds what (e ∷ f ∷ es) (n ∷ []) (h, t) = elim t [ ]
at_most_one-Holds what (e ∷ f ∷ es) (n ∷ m ∷ ns) h = record { holds = tt }

balance_for-Holds :
    (owner mint : Text) (what : String) (entries : List Value)
    → Ensures (HoldsAmount (accounts owner mint entries) what) (balance_for owner mint what entries)
unfolding balance_for
balance_for-Holds owner mint what entries =
    Ensures-bind (found_amounts-AreAmounts owner mint what entries)
      λ ns h. at_most_one-Holds what (accounts owner mint entries) ns h

-- The four balances that a truth was read from.
pub record IsRead (meta : Fields) (mint payer payee : Text) (c : SettlementTruth) : Type 0 where
  pub pre : Values
  pub post : Values
  pub is_pre : get_or_null "preTokenBalances" meta ≡ list pre
  pub is_post : get_or_null "postTokenBalances" meta ≡ list post
  pub payer_before : (n : ℕ) × HoldsAmount (accounts payer mint (to_list pre)) "pre payer" n
  pub payer_after : (n : ℕ) × HoldsAmount (accounts payer mint (to_list post)) "post payer" n
  pub payee_before : (n : ℕ) × HoldsAmount (accounts payee mint (to_list pre)) "pre payee" n
  pub payee_after : (n : ℕ) × HoldsAmount (accounts payee mint (to_list post)) "post payee" n
  pub moved : Moved c ↔ (
      (is_null (get_or_null "err" meta) ≡ true)
      × (payee_before.0 < payee_after.0)
      × (payer_after.0 < payer_before.0))

balance_list-Ensures :
    (v : Value) → Ensures (λ xs. (vs : Values) × (v ≡ list vs) × (xs ≡ to_list vs)) (balance_list v)
balance_list-Ensures (list vs) = record { holds = (vs, refl, refl) }
balance_list-Ensures _ = record { holds = tt }

-- A truth that is read from the metadata of a transaction shows a payment, if and only if the
-- transaction has no error, the payee's balance of the mint rose and the payer's fell, where a
-- balance is what the only entry of the owner and the mint says, or zero if there is none.
pub settlement_truth-IsRead :
    (meta : Fields) (mint payer payee : Text)
    → Ensures
        (IsRead meta mint payer payee)
        (settlement_truth_from_svm_meta (dict meta) mint payer payee)
unfolding settlement_truth_from_svm_meta
settlement_truth-IsRead meta mint payer payee = Ensures-skip _ _ λ _. Ensures-skip _ _ λ _.
    Ensures-skip _ _ λ _. Ensures-raise_if _ _ _ λ differ. Ensures-raise_if _ _ _ λ has_err.
      Ensures-bind (balance_list-Ensures _) λ pre (pre_vs, is_pre, same_pre).
        Ensures-bind (balance_list-Ensures _) λ post (post_vs, is_post, same_post).
          Ensures-bind (balance_for-Holds payer mint "pre payer" pre) λ a ha.
            Ensures-bind (balance_for-Holds payer mint "post payer" post) λ b hb.
              Ensures-bind (balance_for-Holds payee mint "pre payee" pre) λ c hc.
                Ensures-bind (balance_for-Holds payee mint "post payee" post) λ d hd.
                  (let iff_moved =
                      balances-Moved_iff (is_null (get_or_null "err" meta)) (pos a) (pos b) (pos c)
                        (pos d) in
                    record {
                      holds = record {
                        pre = pre_vs;
                        post = post_vs;
                        is_pre = is_pre;
                        is_post = is_post;
                        payer_before = (
                          a,
                          subst (λ es. HoldsAmount (accounts payer mint es) "pre payer" a) same_pre
                              ha,
                        );
                        payer_after = (
                          b,
                          subst (λ es. HoldsAmount (accounts payer mint es) "post payer" b)
                              same_post hb,
                        );
                        payee_before = (
                          c,
                          subst (λ es. HoldsAmount (accounts payee mint es) "pre payee" c) same_pre
                              hc,
                        );
                        payee_after = (
                          d,
                          subst (λ es. HoldsAmount (accounts payee mint es) "post payee" d)
                              same_post hd,
                        );
                        moved = (
                          λ m. (let (x, y, z) = iff_moved.0 m in (x, omega arith, omega arith)),
                          λ (x, y, z). iff_moved.1 (x, omega arith, omega arith),
                        );
                      };
                    })
