-- ===== src/ReferenceSut/Settled.antt =====
-- When `settlement_log_index` confirms a settlement, from both sides.
use psv.Base.{
  ◌≡◌, refl, sym, subst, ◌≢◌, inl, inr, true, Option, none, some, List, [], ◌∷◌, arith,
  Option-cases, In, Result, ok, ◌>>=◌, >>=-eq-ok,
}
use psv.Base.Int.{ℤ, pos, ◌≤ℤ◌, eq_of_parts}
use psv.Text.{Text}
use psv.Value.{Value, Fields, get_or_null}
use psv.ReferenceSut.Confirmer.{
  settlement_log_index, mappings, as_list, scan_logs, same_hex, index_in_block, topic_addr, Found,
  confirmed_index, quantity, Settlement,
}
use psv.ReferenceSut.Events.{
  IsTransferLog, IsAuthorizationLog, is_transfer-IsTransferLog, is_authorization-IsAuthorizationLog,
}
use psv.ReferenceSut.Confirmed.{
  authorization_of_iff, last_index_unique, transfer_of_iff, is_quantity_iff, authorization_of,
  last_index, transfer_of, last_index-Picked, scan_logs-last_index, IsAuthorizationAt, IsTransferAt,
}

-- The receipt of the submitted transaction: it succeeded, went to the token, and was mined no
-- earlier than asked.
pub record IsMined (p : Settlement) (receipt : Fields) (block_number : ℤ) : Type 0 where
  pub success : quantity (get_or_null "status" receipt) ≡ some (pos 1)
  pub same_tx : same_hex (get_or_null "transactionHash" receipt) p.submitted_tx ≡ true
  pub same_token : same_hex (get_or_null "to" receipt) p.token ≡ true
  pub mined_in : quantity (get_or_null "blockNumber" receipt) ≡ some block_number
  pub recent : p.from_block ≤ℤ block_number

-- Both events are in the receipt, at two indices, and the transfer is among the fetched logs.
pub record IsProven (watched : Text) (p : Settlement) (fetched : List Fields) (b : ℤ)
    (logs : List Fields) (i : ℤ) : Type 0 where
  pub transfer_log : Fields
  pub transfer_in : In transfer_log logs
  pub transfer_at : IsTransferAt watched p fetched b transfer_log i
  pub authorization_log : Fields
  pub authorization_in : In authorization_log logs
  pub authorization_index : ℤ
  pub authorization_at : IsAuthorizationAt p b authorization_log authorization_index
  pub distinct : i ≢ authorization_index

confirmed_index-cases :
    (f : Found) (i : ℤ)
    → confirmed_index f ≡ some i
    → (f.transfer_index ≡ some i) × (j : ℤ) × (f.authorization_index ≡ some j) × (i ≢ j)
unfolding confirmed_index
confirmed_index-cases f i e = elim (Option-cases f.transfer_index) [
  | inl n ↦ absurd (ground (arith, n))
  | inr (t, s) ↦ elim (Option-cases f.authorization_index) [
    | inl n ↦ absurd (ground (arith, s, n))
    | inr (a, r) ↦ (ground (arith, s, r), a, r, ground (arith, s, r))
  ]
]

confirmed_index_distinct :
    (f : Found) (i j : ℤ)
    → f.transfer_index ≡ some i
    → f.authorization_index ≡ some j
    → i ≢ j
    → confirmed_index f ≡ some i
unfolding confirmed_index
confirmed_index_distinct f i j t a d = ground (arith, t, a, eq_of_parts i j)

abbrev start : Found
start = record { transfer_index = none; authorization_index = none }

confirmed-IsProven :
    (watched : Text) (p : Settlement) (fetched : List Fields) (b : ℤ) (logs : List Fields) (i : ℤ)
    → confirmed_index (scan_logs watched p fetched b logs start) ≡ some i
    → IsProven watched p fetched b logs i
confirmed-IsProven watched p fetched b logs i e =
    let (t, j, a, d) = confirmed_index-cases _ i (
      subst (λ f. confirmed_index f ≡ some i) (scan_logs-last_index watched p fetched b logs start)
        e) in
    elim (last_index-Picked (transfer_of watched p fetched b) logs none i t) [
      | inl n ↦ absurd (cc)
      | inr (x, m, q) ↦ elim (last_index-Picked (authorization_of p b) logs none j a) [
        | inl n ↦ absurd (cc)
        | inr (y, k, r) ↦ record {
          transfer_log = x;
          transfer_in = m;
          transfer_at = (transfer_of_iff watched p fetched b x i).0 q;
          authorization_log = y;
          authorization_in = k;
          authorization_index = j;
          authorization_at = (authorization_of_iff p b y j).0 r;
          distinct = d;
        }
      ]
    ]

-- What makes a settlement unmistakable: one index for the transfer, one for the authorization.
pub record IsUnambiguous (watched : Text) (p : Settlement) (fetched : List Fields) (b : ℤ)
    (logs : List Fields) (i : ℤ) : Type 0 where
  pub here : IsProven watched p fetched b logs i
  pub one_transfer :
      (log : Fields) (k : ℤ) → In log logs → IsTransferAt watched p fetched b log k → k ≡ i
  pub one_authorization :
      (log : Fields) (k : ℤ)
      → In log logs
      → IsAuthorizationAt p b log k
      → k ≡ here.authorization_index

unambiguous_index :
    (watched : Text) (p : Settlement) (fetched : List Fields) (b : ℤ) (logs : List Fields) (i : ℤ)
    → IsUnambiguous watched p fetched b logs i
    → confirmed_index (scan_logs watched p fetched b logs start) ≡ some i
unambiguous_index watched p fetched b logs i one =
    let h = one.here in
    subst (λ f. confirmed_index f ≡ some i)
      (sym (scan_logs-last_index watched p fetched b logs start))
      (confirmed_index_distinct
        (record {
          transfer_index = last_index (transfer_of watched p fetched b) logs none;
          authorization_index = last_index (authorization_of p b) logs none;
        })
        i h.authorization_index
        (last_index_unique (transfer_of watched p fetched b) logs none i
          (λ x k m e. one.one_transfer x k m ((transfer_of_iff watched p fetched b x k).0 e))
          (inr (
            h.transfer_log,
            h.transfer_in,
            (transfer_of_iff watched p fetched b h.transfer_log i).1 h.transfer_at,
          )))
        (last_index_unique (authorization_of p b) logs none h.authorization_index
          (λ x k m e. one.one_authorization x k m ((authorization_of_iff p b x k).0 e))
          (inr (
            h.authorization_log,
            h.authorization_in,
            (authorization_of_iff p b h.authorization_log h.authorization_index).1
                h.authorization_at,
          )))
        h.distinct)

module _ {ℓ} {E : Type ℓ} (fetch_logs : Text → List Text → ℤ → Result E (List Fields)) where
  -- What a confirmation at index `i` stands on.
  pub record IsConfirmed (watched : Text) (p : Settlement) (receipt : Option Fields) (i : ℤ)
      : Type ℓ where
    pub mined : Fields
    pub mined_eq : receipt ≡ some mined
    pub block_number : ℤ
    pub mined_at : IsMined p mined block_number
    pub fetched : List Fields
    pub fetched_eq :
        fetch_logs p.token (watched ∷ topic_addr p.payer ∷ topic_addr p.payee ∷ []) block_number
        ≡ ok fetched
    pub raw : List Value
    pub raw_eq : as_list (get_or_null "logs" mined) ≡ some raw
    pub proven : IsProven watched p fetched block_number (mappings raw) i
    pub as_transfer : IsTransferLog watched p fetched proven.transfer_log
    pub as_authorization : IsAuthorizationLog p proven.authorization_log

  index_in_block-cases :
      (watched : Text) (p : Settlement) (receipt : Fields) (b i : ℤ)
      → index_in_block fetch_logs watched p receipt b ≡ ok (some i)
      → (fetched : List Fields) × (fetch_logs p.token
            (watched ∷ topic_addr p.payer ∷ topic_addr p.payee ∷ [])
            b
          ≡ ok fetched)
        × (raw : List Value) × (as_list (get_or_null "logs" receipt) ≡ some raw)
        × IsProven watched p fetched b (mappings raw) i
  unfolding index_in_block
  index_in_block-cases watched p receipt b i e =
      let (fetched, q, h) = >>=-eq-ok _ _ e in
      elim (Option-cases (as_list (get_or_null "logs" receipt))) [
        | inl n ↦ absurd (ground (arith, n))
        | inr (raw, s) ↦ (
          fetched,
          q,
          raw,
          s,
          confirmed-IsProven watched p fetched b (mappings raw) i (ground (arith, s)),
        )
      ]

  -- A confirmation is never unfounded: the receipt of the submitted transaction succeeded, went to the
  -- token and was mined no earlier than asked, and in it are, at two indices, logs of the token and of
  -- this transaction and block. One has exactly three topics, the watched one, the payer and the payee,
  -- the expected value as its data, and a log of the same transaction and index among those that the
  -- node returned for that block; the other has the topics of the use of the payer's nonce.
  pub settlement_log_index-IsConfirmed :
      (watched : Text) (p : Settlement) (receipt : Option Fields) (i : ℤ)
      → settlement_log_index fetch_logs watched p receipt ≡ ok (some i)
      → IsConfirmed watched p receipt i
  unfolding settlement_log_index
  settlement_log_index-IsConfirmed watched p none i e = absurd (cc)
  settlement_log_index-IsConfirmed watched p (some receipt) i e =
      elim (Option-cases (quantity (get_or_null "blockNumber" receipt))) [
        | inl n ↦ absurd (ground (arith, n))
        | inr (b, s) ↦
            let (fetched, q, raw, r, proven) =
              index_in_block-cases watched p receipt b i (ground (arith, s)) in
            record {
              mined = receipt;
              mined_eq = refl;
              block_number = b;
              mined_at = record {
                success = ground (arith, is_quantity_iff (get_or_null "status" receipt) (pos 1));
                same_tx = ground arith;
                same_token = ground arith;
                mined_in = s;
                recent = ground (arith, s);
              };
              fetched = fetched;
              fetched_eq = q;
              raw = raw;
              raw_eq = r;
              proven = proven;
              as_transfer =
                  is_transfer-IsTransferLog watched p fetched proven.transfer_log
                    proven.transfer_at.1;
              as_authorization =
                  is_authorization-IsAuthorizationLog p proven.authorization_log
                    proven.authorization_at.1;
            }
      ]

  -- A real settlement is confirmed: a mined receipt whose logs hold the two events, each at one
  -- index, is answered with the index of the transfer, once the node returns its logs.
  pub settlement_log_index_complete :
      (watched : Text) (p : Settlement) (receipt : Fields) (b i : ℤ) (fetched : List Fields)
      (raw : List Value)
      → IsMined p receipt b
      → fetch_logs p.token (watched ∷ topic_addr p.payer ∷ topic_addr p.payee ∷ []) b ≡ ok fetched
      → as_list (get_or_null "logs" receipt) ≡ some raw
      → IsUnambiguous watched p fetched b (mappings raw) i
      → settlement_log_index fetch_logs watched p (some receipt) ≡ ok (some i)
  unfolding settlement_log_index index_in_block ◌>>=◌
  settlement_log_index_complete watched p receipt b i fetched raw mined q r one =
      let scanned = unambiguous_index watched p fetched b (mappings raw) i one in
      let u = mined.success in
      let v = mined.same_tx in
      let w = mined.same_token in
      let x = mined.mined_in in
      let y = mined.recent in
      ground (arith, q, r, scanned, x, is_quantity_iff (get_or_null "status" receipt) (pos 1))
