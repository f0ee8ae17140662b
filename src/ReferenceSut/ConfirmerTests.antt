-- ===== src/ReferenceSut/ConfirmerTests.antt =====
-- Confirmations of a concrete receipt, and of one whose event has drifted.
use psv.ReferenceSut.Confirmed.{IsOwnLog}
use psv.ReferenceSut.Drift.{HasDrifted-intro, HasDrifted}
use psv.ReferenceSut.Settled.{
  settlement_log_index_complete, IsMined, IsUnambiguous, settlement_log_index-IsConfirmed,
  IsConfirmed,
}
use psv.Base.{
  String, ◌≡◌, refl, sym, subst, inl, inr, true, false, some, List, [], ◌∷◌, arith, In, Result, ok,
  ◌>>=◌,
}
use psv.Base.Int.{ℤ, pos, ◌-ℤ◌}
use psv.Text.{Text, codes, text_eq, remove_prefix_0x, lower_char, lower, is_space, hex_value, zeros}
use psv.Value.{Fields, null, bool, str, list, dict, nil, cons, end, field, get, get_or_null}
use psv.ReferenceSut.Confirmer.{
  is_authorization, is_transfer, quantity, topic_nonce, as_list, settlement_log_index,
  topic_authorization_used, Settlement, topic_addr,
}
use psv.Reconciliation.Credit.{topic_transfer}

abbrev payment : Settlement
payment = record {
  token = codes "0xaA";
  payer = codes "0x0b";
  payee = codes "0x0c";
  expected_value = pos 16;
  authorization_nonce = codes "0x0d";
  submitted_tx = codes "0xEE";
  from_block = pos 4;
}

abbrev event : Text → Text → String → String → Fields
event topic0 topic2 payload index = field "removed" (bool false) (
    field "address" (str (codes "0xaa")) (
      field "transactionHash" (str (codes "0xee")) (
        field "blockNumber" (str (codes "0x5")) (
          field "logIndex" (str (codes index)) (
            field "data" (str (codes payload)) (
              field "topics"
                (list (
                  cons (str topic0)
                    (cons (str (topic_addr payment.payer)) (cons (str topic2) nil))))
                end))))))

abbrev transfer : Fields
transfer = event topic_transfer (topic_addr payment.payee) "0x10" "0x1"

abbrev drifted : Fields
drifted = event (codes "0x58") (topic_addr payment.payee) "0x10" "0x1"

abbrev used : Fields
used = event topic_authorization_used (topic_nonce payment.authorization_nonce) "0x" "0x2"

abbrev receipt_of : Fields → Fields
receipt_of log = field "status" (str (codes "0x1")) (
    field "transactionHash" (str (codes "0xee")) (
      field "to" (str (codes "0xAa")) (
        field "blockNumber" (str (codes "0x5"))
          (field "logs" (list (cons (dict log) (cons null (cons (dict used) nil)))) end))))

abbrev node : Text → List Text → ℤ → Result ⊥ (List Fields)
node token topics block_number = ok (transfer ∷ [])

confirmed :
    settlement_log_index node topic_transfer payment (some (receipt_of transfer))
    ≡ ok (some (pos 1))
unfolding settlement_log_index get psv.ReferenceSut.Confirmer.quantity psv.Text.Hex.int16 codes
    psv.ReferenceSut.Confirmer.same_hex psv.Text.text_eq psv.Text.lower topic_authorization_used
    topic_transfer topic_addr topic_nonce psv.Base.Int.◌-ℤ◌ psv.ReferenceSut.Confirmer.padded_word
    psv.Text.Hex.int_body psv.Text.Hex.int_digits psv.Text.Hex.int_signed psv.Text.Hex.strip
    psv.Text.Hex.strip_left psv.Text.hex_value psv.Text.is_space psv.Text.lower_char
    psv.Text.remove_prefix_0x psv.Text.zeros psv.ReferenceSut.Confirmer.has_topics
    psv.ReferenceSut.Confirmer.is_authorization psv.ReferenceSut.Confirmer.is_transfer
    psv.ReferenceSut.Confirmer.receipt_log_matches_fetched psv.Base.◌>>=◌
    psv.ReferenceSut.Confirmer.confirmed_index psv.ReferenceSut.Confirmer.scan_logs
    psv.ReferenceSut.Confirmer.mappings psv.ReferenceSut.Confirmer.scan_log
    psv.ReferenceSut.Confirmer.relevant_index psv.ReferenceSut.Confirmer.index_in_block
confirmed = refl

settlement_log_index-IsConfirmed_example :
    IsConfirmed node topic_transfer payment (some (receipt_of transfer)) (pos 1)
settlement_log_index-IsConfirmed_example =
    settlement_log_index-IsConfirmed node topic_transfer payment (some (receipt_of transfer))
      (pos 1) confirmed

logs_of_drifted :
    as_list (get_or_null "logs" (receipt_of drifted)) ≡ some (dict drifted ∷ null ∷ dict used ∷ [])
unfolding get
logs_of_drifted = refl

has_drifted : HasDrifted topic_transfer drifted
unfolding get psv.ReferenceSut.Confirmer.quantity psv.Text.Hex.int16 codes
    psv.ReferenceSut.Confirmer.same_hex psv.Text.text_eq psv.Text.lower topic_authorization_used
    topic_transfer topic_addr topic_nonce psv.Base.Int.◌-ℤ◌ psv.ReferenceSut.Confirmer.padded_word
    psv.Text.Hex.int_body psv.Text.Hex.int_digits psv.Text.Hex.int_signed psv.Text.Hex.strip
    psv.Text.Hex.strip_left psv.Text.hex_value psv.Text.is_space psv.Text.lower_char
    psv.Text.remove_prefix_0x psv.Text.zeros psv.ReferenceSut.Confirmer.has_topics
    psv.ReferenceSut.Confirmer.is_authorization psv.ReferenceSut.Confirmer.is_transfer
    psv.ReferenceSut.Confirmer.receipt_log_matches_fetched
has_drifted =
    HasDrifted-intro topic_transfer drifted (str (codes "0x58")) (str (topic_addr payment.payer))
      (str (topic_addr payment.payee)) refl refl

not_watched : HasDrifted topic_transfer used
unfolding get psv.ReferenceSut.Confirmer.quantity psv.Text.Hex.int16 codes
    psv.ReferenceSut.Confirmer.same_hex psv.Text.text_eq psv.Text.lower topic_authorization_used
    topic_transfer topic_addr topic_nonce psv.Base.Int.◌-ℤ◌ psv.ReferenceSut.Confirmer.padded_word
    psv.Text.Hex.int_body psv.Text.Hex.int_digits psv.Text.Hex.int_signed psv.Text.Hex.strip
    psv.Text.Hex.strip_left psv.Text.hex_value psv.Text.is_space psv.Text.lower_char
    psv.Text.remove_prefix_0x psv.Text.zeros psv.ReferenceSut.Confirmer.has_topics
    psv.ReferenceSut.Confirmer.is_authorization psv.ReferenceSut.Confirmer.is_transfer
    psv.ReferenceSut.Confirmer.receipt_log_matches_fetched
not_watched =
    HasDrifted-intro topic_transfer used (str topic_authorization_used)
      (str (topic_addr payment.payer)) (str (topic_nonce payment.authorization_nonce)) refl refl

drifted_log : (log : Fields) → In log (drifted ∷ used ∷ []) → HasDrifted topic_transfer log
drifted_log log (inl e) = subst (HasDrifted topic_transfer) (sym e) has_drifted
drifted_log log (inr (inl e)) = subst (HasDrifted topic_transfer) (sym e) not_watched
drifted_log log (inr (inr m)) = elim m [ ]

abbrev logs : List Fields
logs = transfer ∷ used ∷ []

own_transfer : IsOwnLog payment (pos 5) transfer (pos 1)
unfolding get psv.ReferenceSut.Confirmer.quantity psv.Text.Hex.int16 codes
    psv.ReferenceSut.Confirmer.same_hex psv.Text.text_eq psv.Text.lower topic_authorization_used
    topic_transfer topic_addr topic_nonce psv.Base.Int.◌-ℤ◌ psv.ReferenceSut.Confirmer.padded_word
    psv.Text.Hex.int_body psv.Text.Hex.int_digits psv.Text.Hex.int_signed psv.Text.Hex.strip
    psv.Text.Hex.strip_left psv.Text.hex_value psv.Text.is_space psv.Text.lower_char
    psv.Text.remove_prefix_0x psv.Text.zeros psv.ReferenceSut.Confirmer.has_topics
    psv.ReferenceSut.Confirmer.is_authorization psv.ReferenceSut.Confirmer.is_transfer
    psv.ReferenceSut.Confirmer.receipt_log_matches_fetched
own_transfer = record {
  kept = refl;
  same_token = refl;
  same_tx = refl;
  same_block = refl;
  same_index = refl;
}

own_used : IsOwnLog payment (pos 5) used (pos 2)
unfolding get psv.ReferenceSut.Confirmer.quantity psv.Text.Hex.int16 codes
    psv.ReferenceSut.Confirmer.same_hex psv.Text.text_eq psv.Text.lower topic_authorization_used
    topic_transfer topic_addr topic_nonce psv.Base.Int.◌-ℤ◌ psv.ReferenceSut.Confirmer.padded_word
    psv.Text.Hex.int_body psv.Text.Hex.int_digits psv.Text.Hex.int_signed psv.Text.Hex.strip
    psv.Text.Hex.strip_left psv.Text.hex_value psv.Text.is_space psv.Text.lower_char
    psv.Text.remove_prefix_0x psv.Text.zeros psv.ReferenceSut.Confirmer.has_topics
    psv.ReferenceSut.Confirmer.is_authorization psv.ReferenceSut.Confirmer.is_transfer
    psv.ReferenceSut.Confirmer.receipt_log_matches_fetched
own_used = record {
  kept = refl;
  same_token = refl;
  same_tx = refl;
  same_block = refl;
  same_index = refl;
}

-- The transfer is no use of an authorization, and the use is no transfer.
kinds :
    (is_transfer topic_transfer payment (transfer ∷ []) transfer ≡ true)
    × (is_transfer topic_transfer payment (transfer ∷ []) used ≡ false)
    × (is_authorization payment transfer ≡ false)
    × (is_authorization payment used ≡ true)
unfolding get psv.ReferenceSut.Confirmer.quantity psv.Text.Hex.int16 codes
    psv.ReferenceSut.Confirmer.same_hex psv.Text.text_eq psv.Text.lower topic_authorization_used
    topic_transfer topic_addr topic_nonce psv.Base.Int.◌-ℤ◌ psv.ReferenceSut.Confirmer.padded_word
    psv.Text.Hex.int_body psv.Text.Hex.int_digits psv.Text.Hex.int_signed psv.Text.Hex.strip
    psv.Text.Hex.strip_left psv.Text.hex_value psv.Text.is_space psv.Text.lower_char
    psv.Text.remove_prefix_0x psv.Text.zeros psv.ReferenceSut.Confirmer.has_topics
    psv.ReferenceSut.Confirmer.is_authorization psv.ReferenceSut.Confirmer.is_transfer
    psv.ReferenceSut.Confirmer.receipt_log_matches_fetched
kinds = (refl, refl, refl, refl)

unambiguous :
    IsUnambiguous topic_transfer payment (transfer ∷ []) (pos 5) (transfer ∷ used ∷ []) (pos 1)
unambiguous = record {
  here = record {
    transfer_log = transfer;
    transfer_in = inl refl;
    transfer_at = (own_transfer, kinds.0);
    authorization_log = used;
    authorization_in = inr (inl refl);
    authorization_index = pos 2;
    authorization_at = (own_used, kinds.3);
    distinct = λ e. cc e;
  };
  one_transfer = λ log k m t. elim m [
    | inl e ↦ cc (t.0.same_index, own_transfer.same_index, e)
    | inr (inl e) ↦ absurd (cc (t.1, kinds.1, e))
    | inr (inr n) ↦ absurd n
  ];
  one_authorization = λ log k m t. elim m [
    | inl e ↦ absurd (cc (t.1, kinds.2, e))
    | inr (inl e) ↦ cc (t.0.same_index, own_used.same_index, e)
    | inr (inr n) ↦ absurd n
  ];
}

mined : IsMined payment (receipt_of transfer) (pos 5)
unfolding get psv.ReferenceSut.Confirmer.quantity psv.Text.Hex.int16 codes
    psv.ReferenceSut.Confirmer.same_hex psv.Text.text_eq psv.Text.lower topic_authorization_used
    topic_transfer topic_addr topic_nonce psv.Base.Int.◌-ℤ◌ psv.ReferenceSut.Confirmer.padded_word
    psv.Text.Hex.int_body psv.Text.Hex.int_digits psv.Text.Hex.int_signed psv.Text.Hex.strip
    psv.Text.Hex.strip_left psv.Text.hex_value psv.Text.is_space psv.Text.lower_char
    psv.Text.remove_prefix_0x psv.Text.zeros psv.ReferenceSut.Confirmer.has_topics
    psv.ReferenceSut.Confirmer.is_authorization psv.ReferenceSut.Confirmer.is_transfer
    psv.ReferenceSut.Confirmer.receipt_log_matches_fetched
mined = record {
  success = refl;
  same_tx = refl;
  same_token = refl;
  mined_in = refl;
  recent = omega arith;
}

settlement_log_index_complete_example :
    settlement_log_index node topic_transfer payment (some (receipt_of transfer))
    ≡ ok (some (pos 1))
unfolding get psv.ReferenceSut.Confirmer.mappings
settlement_log_index_complete_example =
    settlement_log_index_complete node topic_transfer payment (receipt_of transfer) (pos 5) (pos 1)
      (transfer ∷ []) (dict transfer ∷ null ∷ dict used ∷ []) mined refl refl unambiguous
