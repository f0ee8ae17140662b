-- ===== src/Reconciliation/Tests.antt =====
-- `find_unreconciled` at a snapshot of one chain: a transfer that is seen twice, a removed one, and
-- one that the ledger has.
use psv.Reconciliation.Hexes.{exact_hex_accepts_blanks, HexPairs}
use psv.Reconciliation.Healing.{
  find_unreconciled-IsConsistent, find_unreconciled_heals, IsConsistent,
}
use psv.Reconciliation.Ordering.{find_unreconciled_ext}
use psv.Reconciliation.Ledger.{find_unreconciled_iff, IsMissing, Decoded}
use psv.Base.{
  ℕ, String, ◌≡◌, refl, ◌↔◌, inl, inr, Bool, true, false, Option, none, some, List, [], ◌∷◌, ◌++◌,
  map, arith, In, ok, err, ◌>>=◌,
}
use psv.Base.Int.{pos, ◌-ℤ◌}
use psv.Text.{Text, codes, text_eq, starts_with, lower, is_hex_digit, zeros}
use psv.Value.{Value, Fields, bool, str, list, nil, cons, end, field, get}
use psv.Text.Hex.{is_hex_of, int16, from_hex}
use psv.Reconciliation.Fields.{Checked, exact_hex, quantity, address, addr_from_topic, conflicting}
use psv.Reconciliation.Credit.{
  topic_transfer, OnChainCredit, settlement_identity, on_chain_credit, decode_transfer_log,
}
use psv.Reconciliation.Find.{
  by_credit, LedgerEntry, by_identity, find_unreconciled, missing_credits, sort_credits,
  observe_all, observe, observed, record_credit, credit_eq, identity_eq, is_known, key_ltb,
  text_ltb,
}
use psv.Reconciliation.Decoding.{IsWellFormed, decode_transfer_log-IsWellFormed}

abbrev token : String
token = "0x00000000000000000000000000000000000000Aa"

abbrev payer_topic : String
payer_topic = "0x0000000000000000000000001111111111111111111111111111111111111111"

abbrev payee_topic : String
payee_topic = "0x0000000000000000000000002222222222222222222222222222222222222222"

abbrev tx_a : String
tx_a = "0x00000000000000000000000000000000000000000000000000000000000000a1"

abbrev block_a : String
block_a = "0x00000000000000000000000000000000000000000000000000000000000000b1"

abbrev ten_thousand : String
ten_thousand = "0x0000000000000000000000000000000000000000000000000000000000002710"

text : String → Value
unfolding codes
text s = str (codes s)

-- A Transfer of 10000 in block 9, by its log index and its `removed` flag.
transfer : String → Bool → Fields
unfolding text topic_transfer
transfer log_index removed =
    field "topics"
      (list (cons (str topic_transfer) (cons (text payer_topic) (cons (text payee_topic) nil))))
      (field "data" (text ten_thousand) (
        field "removed" (bool removed) (
          field "address" (text token) (
            field "transactionHash" (text tx_a) (
              field "logIndex" (text log_index)
                (field "blockHash" (text block_a) (field "blockNumber" (text "0x9") end)))))))

credit_at : ℕ → OnChainCredit
unfolding codes
credit_at log_index = record {
  identity = record {
    chain_id = pos 8453;
    asset = codes "0x00000000000000000000000000000000000000aa";
    tx_hash = codes tx_a;
    log_index = log_index;
  };
  block_hash = codes block_a;
  block_number = 9;
  payer = codes "0x1111111111111111111111111111111111111111";
  payee = codes "0x2222222222222222222222222222222222222222";
  value = 10000;
  removed = false;
}

abbrev snapshot : List Fields
snapshot =
    transfer "0x7" false ∷ transfer "0x3" false ∷ transfer "0x5" true ∷ transfer "0x7" false ∷ []

abbrev reordered : List Fields
reordered = transfer "0x3" false ∷ transfer "0x7" false ∷ transfer "0x5" true ∷ []

decode_seven : decode_transfer_log (transfer "0x7" false) (pos 8453) ≡ ok (credit_at 7)
unfolding decode_transfer_log transfer credit_at get topic_transfer exact_hex quantity address
    addr_from_topic settlement_identity on_chain_credit codes starts_with text_eq lower int16
    from_hex zeros ◌>>=◌ ◌-ℤ◌
decode_seven = refl

decode_transfer_log-IsWellFormed_example :
    IsWellFormed (credit_at 7) × ((credit_at 7).chain_id ≡ pos 8453)
decode_transfer_log-IsWellFormed_example =
    decode_transfer_log-IsWellFormed (transfer "0x7" false) (pos 8453) (credit_at 7) decode_seven

-- All that `find_unreconciled` runs, for the tests below.
run : List Fields → List LedgerEntry → Checked (List OnChainCredit)
unfolding find_unreconciled observe_all decode_transfer_log transfer credit_at get topic_transfer
    exact_hex quantity address addr_from_topic settlement_identity on_chain_credit codes starts_with
    text_eq lower int16 from_hex zeros ◌>>=◌ ◌-ℤ◌ observe observed record_credit credit_eq
    identity_eq is_known key_ltb text_ltb missing_credits sort_credits
run transfers ledger =
    find_unreconciled transfers ledger (pos 8453) none
      (some (codes "0x2222222222222222222222222222222222222222"))

ledger : List LedgerEntry
unfolding credit_at
ledger = by_identity (credit_at 3).identity ∷ []

snapshot_empty_ledger : run snapshot [] ≡ ok (credit_at 3 ∷ credit_at 7 ∷ [])
unfolding run
snapshot_empty_ledger = refl

snapshot-ledger : run snapshot ledger ≡ ok (credit_at 7 ∷ [])
unfolding run ledger
snapshot-ledger = refl

removed_and_kept : run (transfer "0x7" false ∷ transfer "0x7" true ∷ []) [] ≡ err conflicting
unfolding run
removed_and_kept = refl

abbrev to_payee : Option Text
unfolding codes
to_payee = some (codes "0x2222222222222222222222222222222222222222")

find_unreconciled_iff_example :
    In (credit_at 7) (credit_at 7 ∷ [])
    ↔ (Decoded (pos 8453) snapshot (credit_at 7) × IsMissing ledger (credit_at 7))
unfolding run
find_unreconciled_iff_example =
    find_unreconciled_iff snapshot ledger (pos 8453) none to_payee (credit_at 7 ∷ [])
      snapshot-ledger (credit_at 7)

find_unreconciled-IsConsistent_example : IsConsistent (pos 8453) snapshot
unfolding run
find_unreconciled-IsConsistent_example =
    find_unreconciled-IsConsistent snapshot ledger (pos 8453) none to_payee (credit_at 7 ∷ [])
      snapshot-ledger

find_unreconciled_heals_example :
    find_unreconciled snapshot (map by_credit (credit_at 7 ∷ []) ++ ledger) (pos 8453) none to_payee
    ≡ ok []
unfolding run
find_unreconciled_heals_example =
    find_unreconciled_heals snapshot ledger (pos 8453) none to_payee (credit_at 7 ∷ [])
      snapshot-ledger

reordered_empty_ledger : run reordered [] ≡ ok (credit_at 3 ∷ credit_at 7 ∷ [])
unfolding run
reordered_empty_ledger = refl

to_reordered : (log : Fields) → In log snapshot → In log reordered
to_reordered log (inl e) = inr (inl e)
to_reordered log (inr (inl e)) = inl e
to_reordered log (inr (inr (inl e))) = inr (inr (inl e))
to_reordered log (inr (inr (inr (inl e)))) = inr (inl e)
to_reordered log (inr (inr (inr (inr h)))) = elim h [ ]

to_snapshot : (log : Fields) → In log reordered → In log snapshot
to_snapshot log (inl e) = inr (inl e)
to_snapshot log (inr (inl e)) = inl e
to_snapshot log (inr (inr (inl e))) = inr (inr (inl e))
to_snapshot log (inr (inr (inr h))) = elim h [ ]

find_unreconciled_ext_example :
    ◌≡◌ {A = List OnChainCredit} (credit_at 3 ∷ credit_at 7 ∷ []) (credit_at 3 ∷ credit_at 7 ∷ [])
unfolding run
find_unreconciled_ext_example =
    find_unreconciled_ext snapshot reordered [] [] (pos 8453) none to_payee none to_payee
      (credit_at 3 ∷ credit_at 7 ∷ []) (credit_at 3 ∷ credit_at 7 ∷ [])
      (λ log. (to_reordered log, to_snapshot log)) (λ i. (λ h. h, λ h. h)) snapshot_empty_ledger
      reordered_empty_ledger

-- 31 bytes and two blanks.
abbrev short_hash : Text
unfolding codes
short_hash = codes "00000000000000000000000000000000000000000000000000000000000000"

short_hash-HexPairs : HexPairs short_hash
unfolding is_hex_digit codes
short_hash-HexPairs = ground arith

exact_hex_accepts_blanks_example :
    (exact_hex (str (codes "0x" ++ short_hash ++ codes "  ")) 32 "tx hash"
      ≡ ok (lower (codes "0x" ++ short_hash ++ codes "  ")))
    × (is_hex_of 64 (lower (codes "0x" ++ short_hash ++ codes "  ")) ≡ false)
exact_hex_accepts_blanks_example =
    exact_hex_accepts_blanks short_hash 32 "tx hash" short_hash-HexPairs (unfold codes in refl)
