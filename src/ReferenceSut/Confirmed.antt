-- ===== src/ReferenceSut/Confirmed.antt =====
-- What a confirmation rests on: the logs of the receipt that `settlement_log_index` needs.
use psv.Base.{
  ◌≡◌, refl, ap, subst, ◌∙◌, ◌↔◌, ◌⊎◌, inl, inr, true, false, Option, none, some, List, [], ◌∷◌,
  arith, if◌then◌else◌, Bool-cases, Option-cases, In,
}
use psv.Text.{Text}
use psv.Base.Int.{ℤ, eq_of_parts}
use psv.Value.{Value, Fields, get_or_null}
use psv.ReferenceSut.Confirmer.{
  Found, scan_logs, scan_log, is_authorization, is_transfer, quantity, same_hex, relevant_index,
  is_quantity, is_true, Settlement,
}

-- A later find replaces an earlier one.
abbrev pub latest : Option ℤ → Option ℤ → Option ℤ
latest none found = found
latest (some i) found = some i

latest-cases :
    (pick found : Option ℤ) (i : ℤ)
    → latest pick found ≡ some i
    → (found ≡ some i) ⊎ (pick ≡ some i)
latest-cases none found i e = inl e
latest-cases (some k) found i e = inr e

latest_unique :
    (pick found : Option ℤ) (i : ℤ)
    → ((k : ℤ) → pick ≡ some k → k ≡ i)
    → (found ≡ some i) ⊎ (pick ≡ some i)
    → latest pick found ≡ some i
latest_unique none found i only (inl e) = e
latest_unique none found i only (inr e) = cc
latest_unique (some k) found i only h = ap some (only k refl)

module _ {A : Type 0} (pick : A → Option ℤ) where
  -- The index that the last element has for which there is one.
  abbrev pub last_index : List A → Option ℤ → Option ℤ
  last_index [] found = found
  last_index (x ∷ xs) found = last_index xs (latest (pick x) found)

  abbrev pub Picked : List A → ℤ → Type 0
  Picked xs i = (x : A) × In x xs × (pick x ≡ some i)

  pub last_index-Picked :
      (xs : List A) (found : Option ℤ) (i : ℤ)
      → last_index xs found ≡ some i
      → (found ≡ some i) ⊎ Picked xs i
  last_index-Picked [] found i e = inl e
  last_index-Picked (x ∷ xs) found i e = elim (last_index-Picked xs (latest (pick x) found) i e) [
    | inl h ↦ elim (latest-cases (pick x) found i h) [
      | inl n ↦ inl n
      | inr s ↦ inr (x, inl refl, s)
    ]
    | inr (y, m, w) ↦ inr (y, inr m, w)
  ]

  -- With one index only, it is found.
  pub last_index_unique :
      (xs : List A) (found : Option ℤ) (i : ℤ)
      → ((x : A) (k : ℤ) → In x xs → pick x ≡ some k → k ≡ i)
      → (found ≡ some i) ⊎ Picked xs i
      → last_index xs found ≡ some i
  last_index_unique [] found i only (inl e) = e
  last_index_unique [] found i only (inr (y, m, w)) = absurd m
  last_index_unique (x ∷ xs) found i only h =
      last_index_unique xs (latest (pick x) found) i (λ y k m. only y k (inr m))
        (elim h [
          | inl e ↦ inl (latest_unique (pick x) found i (λ k. only x k (inl refl)) (inl e))
          | inr (y, inl e, p) ↦ inl (
              latest_unique (pick x) found i (λ k. only x k (inl refl))
                (inr (subst (λ z. pick z ≡ some i) e p)))
          | inr (y, inr m, p) ↦ inr (y, m, p)
        ])

-- What the guards of the loop ask of a log.
pub record IsOwnLog (p : Settlement) (block_number : ℤ) (log : Fields) (index : ℤ) : Type 0 where
  pub kept : is_true (get_or_null "removed" log) ≡ false
  pub same_token : same_hex (get_or_null "address" log) p.token ≡ true
  pub same_tx : same_hex (get_or_null "transactionHash" log) p.submitted_tx ≡ true
  pub same_block : quantity (get_or_null "blockNumber" log) ≡ some block_number
  pub same_index : quantity (get_or_null "logIndex" log) ≡ some index

pub is_quantity_iff : (v : Value) (z : ℤ) → (is_quantity v z ≡ true) ↔ (quantity v ≡ some z)
is_quantity_iff v z = elim (Option-cases (quantity v)) [
  | inl e ↦ ground (arith, e)
  | inr (n, e) ↦ ground (arith, e, eq_of_parts n z)
]

relevant_index-IsOwnLog :
    (p : Settlement) (b : ℤ) (log : Fields) (i : ℤ)
    → relevant_index p b log ≡ some i
    → IsOwnLog p b log i
unfolding relevant_index
relevant_index-IsOwnLog p b log i e = record {
  kept = ground arith;
  same_token = ground arith;
  same_tx = ground arith;
  same_block = ground (arith, is_quantity_iff (get_or_null "blockNumber" log) b);
  same_index = ground arith;
}

IsOwnLog-relevant_index :
    (p : Settlement) (b : ℤ) (log : Fields) (i : ℤ)
    → IsOwnLog p b log i
    → relevant_index p b log ≡ some i
unfolding relevant_index
IsOwnLog-relevant_index p b log i own =
    let k = own.kept in
    let t = own.same_token in
    let x = own.same_tx in
    let n = own.same_block in
    let m = own.same_index in ground (arith, is_quantity_iff (get_or_null "blockNumber" log) b)

abbrev pub transfer_of : Text → Settlement → List Fields → ℤ → Fields → Option ℤ
transfer_of watched p fetched b log =
    if is_transfer watched p fetched log then relevant_index p b log else none

abbrev pub authorization_of : Settlement → ℤ → Fields → Option ℤ
authorization_of p b log = if is_authorization p log then relevant_index p b log else none

scan_log-latest :
    (watched : Text) (p : Settlement) (fetched : List Fields) (b : ℤ) (log : Fields) (f : Found)
    → scan_log watched p fetched b log f ≡ record {
      transfer_index = latest (transfer_of watched p fetched b log) f.transfer_index;
      authorization_index = latest (authorization_of p b log) f.authorization_index;
    }
unfolding scan_log
scan_log-latest watched p fetched b log f = elim (Option-cases (relevant_index p b log)) [
  | inl e ↦ ground (arith, e)
  | inr (i, e) ↦ ground (arith, e)
]

-- The loop is two searches for the last index.
pub scan_logs-last_index :
    (watched : Text) (p : Settlement) (fetched : List Fields) (b : ℤ) (logs : List Fields)
    (f : Found)
    → scan_logs watched p fetched b logs f ≡ record {
      transfer_index = last_index (transfer_of watched p fetched b) logs f.transfer_index;
      authorization_index = last_index (authorization_of p b) logs f.authorization_index;
    }
unfolding scan_logs
scan_logs-last_index watched p fetched b [] f = refl
scan_logs-last_index watched p fetched b (log ∷ logs) f =
    ap (scan_logs watched p fetched b logs) (scan_log-latest watched p fetched b log f)
    ∙ scan_logs-last_index watched p fetched b logs (record {
      transfer_index = latest (transfer_of watched p fetched b log) f.transfer_index;
      authorization_index = latest (authorization_of p b log) f.authorization_index;
    })

-- The logs of the receipt that show the transfer, and the use of the authorization.
abbrev pub IsTransferAt : Text → Settlement → List Fields → ℤ → Fields → ℤ → Type 0
IsTransferAt watched p fetched b log i =
    IsOwnLog p b log i × (is_transfer watched p fetched log ≡ true)

abbrev pub IsAuthorizationAt : Settlement → ℤ → Fields → ℤ → Type 0
IsAuthorizationAt p b log i = IsOwnLog p b log i × (is_authorization p log ≡ true)

pub transfer_of_iff :
    (watched : Text) (p : Settlement) (fetched : List Fields) (b : ℤ) (log : Fields) (i : ℤ)
    → (transfer_of watched p fetched b log ≡ some i) ↔ IsTransferAt watched p fetched b log i
transfer_of_iff watched p fetched b log i = elim (Bool-cases (is_transfer watched p fetched log)) [
  | inl t ↦ (
    λ e. (relevant_index-IsOwnLog p b log i (ground (arith, t)), t),
    λ (own, u). ground (arith, t, IsOwnLog-relevant_index p b log i own),
  )
  | inr t ↦ (λ e. absurd (ground (arith, t)), λ (own, u). absurd (ground (arith, t)))
]

pub authorization_of_iff :
    (p : Settlement) (b : ℤ) (log : Fields) (i : ℤ)
    → (authorization_of p b log ≡ some i) ↔ IsAuthorizationAt p b log i
authorization_of_iff p b log i = elim (Bool-cases (is_authorization p log)) [
  | inl t ↦ (
    λ e. (relevant_index-IsOwnLog p b log i (ground (arith, t)), t),
    λ (own, u). ground (arith, t, IsOwnLog-relevant_index p b log i own),
  )
  | inr t ↦ (λ e. absurd (ground (arith, t)), λ (own, u). absurd (ground (arith, t)))
]
