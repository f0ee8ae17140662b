-- ===== src/ReferenceSut/Events.antt =====
-- What the tests on a log in src/psv/reference_sut/confirmer.py say of it.
use psv.Base.{
  both_true, ◌≡◌, refl, inl, inr, Bool, true, ◌&&◌, some, List, [], ◌∷◌, arith, Bool-cases,
  Option-cases, any, In,
}
use psv.Text.{Text, lower}
use psv.Text.Laws.{text_eq_sound}
use psv.Base.Int.{ℤ}
use psv.Value.{Value, Fields, str, get_or_null}
use psv.ReferenceSut.Confirmer.{
  topics_of, has_topics, receipt_log_matches_fetched, topic_addr, topic_nonce,
  topic_authorization_used, is_authorization, is_transfer, quantity, same_hex, is_quantity,
  Settlement,
}
use psv.ReferenceSut.Confirmed.{is_quantity_iff}

-- A text that is the other one but for letter case.
abbrev pub IsSameHex : Value → Text → Type 0
IsSameHex v t = (s : Text) × (v ≡ str s) × (lower s ≡ lower t)

same_hex-IsSameHex : (v : Value) (t : Text) → same_hex v t ≡ true → IsSameHex v t
unfolding same_hex
same_hex-IsSameHex (str s) t h = (s, refl, text_eq_sound (lower s) (lower t) h)
same_hex-IsSameHex _ t h = absurd (cc)

abbrev pub AreTopics : Value → Text → Text → Text → Type 0
AreTopics topics t0 t1 t2 =
    (a : Value) × (b : Value) × (c : Value) × (topics_of topics ≡ a ∷ b ∷ c ∷ [])
    × IsSameHex a t0
    × IsSameHex b t1
    × IsSameHex c t2

has_topics-cases :
    (vs : List Value) (t0 t1 t2 : Text)
    → has_topics vs t0 t1 t2 ≡ true
    → (a : Value) × (b : Value) × (c : Value) × (vs ≡ a ∷ b ∷ c ∷ [])
      × IsSameHex a t0
      × IsSameHex b t1
      × IsSameHex c t2
unfolding has_topics
has_topics-cases (a ∷ b ∷ c ∷ []) t0 t1 t2 h =
    let (xy, z) = both_true _ _ h in
    let (x, y) = both_true _ _ xy in
    (a, b, c, refl, same_hex-IsSameHex a t0 x, same_hex-IsSameHex b t1 y, same_hex-IsSameHex c t2 z)
has_topics-cases [] t0 t1 t2 h = absurd (cc)
has_topics-cases (a ∷ []) t0 t1 t2 h = absurd (cc)
has_topics-cases (a ∷ b ∷ []) t0 t1 t2 h = absurd (cc)
has_topics-cases (a ∷ b ∷ c ∷ d ∷ vs) t0 t1 t2 h = absurd (cc)

any-found :
    {A : Type 0} (test : A → Bool) (xs : List A)
    → any test xs ≡ true
    → (x : A) × In x xs × (test x ≡ true)
any-found test [] h = absurd (cc)
any-found test (x ∷ xs) h = elim (Bool-cases (test x)) [
  | inl t ↦ (x, inl refl, t)
  | inr f ↦ (let (y, m, t) = any-found test xs (ground (arith, f)) in (y, inr m, t))
]

-- Another log of the same transaction and the same index is among the fetched ones.
pub record IsFetched (log : Fields) (fetched : List Fields) : Type 0 where
  pub tx : Text
  pub has_tx : get_or_null "transactionHash" log ≡ str tx
  pub index : ℤ
  pub has_index : quantity (get_or_null "logIndex" log) ≡ some index
  pub candidate : Fields
  pub is_fetched : In candidate fetched
  pub same_tx : IsSameHex (get_or_null "transactionHash" candidate) tx
  pub same_index : quantity (get_or_null "logIndex" candidate) ≡ some index

matches-IsFetched :
    (log : Fields) (fetched : List Fields)
    → receipt_log_matches_fetched log fetched ≡ true
    → IsFetched log fetched
unfolding receipt_log_matches_fetched
matches-IsFetched log fetched h = by (get_or_null "transactionHash" log) refl
  where
    of_text : (tx : Text) → get_or_null "transactionHash" log ≡ str tx → IsFetched log fetched
    of_text tx t = elim (Option-cases (quantity (get_or_null "logIndex" log))) [
      | inl n ↦ absurd (ground (arith, t, n))
      | inr (index, i) ↦
          let (candidate, m, both) =
            any-found
              (λ candidate.
                same_hex (get_or_null "transactionHash" candidate) tx
                && is_quantity (get_or_null "logIndex" candidate) index)
              fetched (ground (arith, t, i)) in
          let (same, here) = both_true _ _ both in
          record {
            tx = tx;
            has_tx = t;
            index = index;
            has_index = i;
            candidate = candidate;
            is_fetched = m;
            same_tx = same_hex-IsSameHex _ tx same;
            same_index = (is_quantity_iff (get_or_null "logIndex" candidate) index).0 here;
          }
    ]

    by : (v : Value) → get_or_null "transactionHash" log ≡ v → IsFetched log fetched
    by (str tx) t = of_text tx t
    by _ t = absurd (ground (arith, t))

-- The watched event, with the parties and the value of the settlement, which the node returned too.
pub record IsTransferLog (watched : Text) (p : Settlement) (fetched : List Fields) (log : Fields)
    : Type 0 where
  pub topics :
      AreTopics (get_or_null "topics" log) watched (topic_addr p.payer) (topic_addr p.payee)
  pub value : quantity (get_or_null "data" log) ≡ some p.expected_value
  pub fetched_too : IsFetched log fetched

-- The use of the nonce of the payer.
abbrev pub IsAuthorizationLog : Settlement → Fields → Type 0
IsAuthorizationLog p log =
    AreTopics (get_or_null "topics" log) topic_authorization_used (topic_addr p.payer)
      (topic_nonce p.authorization_nonce)

pub is_transfer-IsTransferLog :
    (watched : Text) (p : Settlement) (fetched : List Fields) (log : Fields)
    → is_transfer watched p fetched log ≡ true
    → IsTransferLog watched p fetched log
unfolding is_transfer
is_transfer-IsTransferLog watched p fetched log h =
    let (both, fetched_too) = both_true _ _ h in
    let (topics, value) = both_true _ _ both in
    record {
      topics = has_topics-cases _ _ _ _ topics;
      value = (is_quantity_iff (get_or_null "data" log) p.expected_value).0 value;
      fetched_too = matches-IsFetched log fetched fetched_too;
    }

pub is_authorization-IsAuthorizationLog :
    (p : Settlement) (log : Fields) → is_authorization p log ≡ true → IsAuthorizationLog p log
unfolding is_authorization
is_authorization-IsAuthorizationLog p log h = has_topics-cases _ _ _ _ h
