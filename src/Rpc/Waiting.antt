-- ===== src/Rpc/Waiting.antt =====
-- `wait_for_receipt` of src/psv/anvil.py ends, and finds the first receipt.
use psv.Rpc.{RpcFailure, rpc_error, value_error, Checked, hash}
use psv.Rpc.Evidence.{validate_receipt}
use psv.Rpc.Exec.{lift, bind-returns, bind-raises, lift-returns, raise_if-passes}
use psv.Text.Hex.{is_hex_of}
use psv.Rpc.Client.{Transport, call}
use psv.Rpc.Blocks.{is_null}
use psv.Rpc.Reads.{ask_receipt, poll, wait_for_receipt}
use psv.Base.{
  ℕ, zero, suc, ◌+◌, ◌≤◌, ◌<◌, ◌≡◌, refl, sym, ap, subst, ◌∙◌, inl, inr, true, false, arith,
  ℕ_discrete, Bool-cases, ok, err,
}
use psv.Base.Int.{pos}
use psv.Text.{Text}
use psv.Value.{Value, null, str}

-- The node answers the poll that is sent at this value of `_id` with null.
abbrev pub IsPending : Transport → Text → ℕ → Type 0
IsPending transport tx_hash id = (ask_receipt transport tx_hash id).0 ≡ ok null

asked :
    (transport : Transport) (tx_hash : Text) (id : ℕ)
    → (ask_receipt transport tx_hash id).1 ≡ id + 1
unfolding ask_receipt call
asked transport tx_hash id = refl

poll-pending :
    (transport : Transport) (tx_hash : Text) (tries id : ℕ)
    → IsPending transport tx_hash id
    → poll transport tx_hash (suc tries) id ≡ poll transport tx_hash tries (id + 1)
unfolding poll lift
poll-pending transport tx_hash tries id h =
    bind-returns (ask_receipt transport tx_hash) _ id null (id + 1) h (asked transport tx_hash id)

poll-receipt :
    (transport : Transport) (tx_hash : Text) (tries id : ℕ) (r : Value)
    → (ask_receipt transport tx_hash id).0 ≡ ok r
    → is_null r ≡ false
    → poll transport tx_hash (suc tries) id ≡ (validate_receipt r "receipt", id + 1)
unfolding poll lift
poll-receipt transport tx_hash tries id r h n =
    bind-returns (ask_receipt transport tx_hash) _ id r (id + 1) h (asked transport tx_hash id)
    ∙ rw n refl

poll-raises :
    (transport : Transport) (tx_hash : Text) (tries id : ℕ) (e : RpcFailure)
    → (ask_receipt transport tx_hash id).0 ≡ err e
    → poll transport tx_hash (suc tries) id ≡ (err e, id + 1)
unfolding poll
poll-raises transport tx_hash tries id e h =
    bind-raises (ask_receipt transport tx_hash) _ id e h
    ∙ ap (λ n. (err e, n)) (asked transport tx_hash id)

-- The first receipt within the tries ends the loop.
poll_finds :
    (transport : Transport) (tx_hash : Text) (tries found id : ℕ) (r : Value)
    → id ≤ found
    → found < id + tries
    → ((at : ℕ) → id ≤ at → at < found → IsPending transport tx_hash at)
    → (ask_receipt transport tx_hash found).0 ≡ ok r
    → is_null r ≡ false
    → poll transport tx_hash tries id ≡ (validate_receipt r "receipt", found + 1)
poll_finds transport tx_hash zero found id r h k p e n = absurd (omega arith)
poll_finds transport tx_hash (suc tries) found id r h k p e n = elim (ℕ_discrete found id) [
  | yes q ↦
      poll-receipt transport tx_hash tries id r
        (subst (λ at. (ask_receipt transport tx_hash at).0 ≡ ok r) q e) n
      ∙ ap (λ at. (validate_receipt r "receipt", at + 1)) (sym q)
  | no q ↦
      poll-pending transport tx_hash tries id (p id (omega arith) (omega arith))
      ∙ poll_finds transport tx_hash tries found (id + 1) r (omega arith) (omega arith)
          (λ at a b. p at (omega arith) b) e n
]

-- Without a receipt every try is used up.
poll_gives_up :
    (transport : Transport) (tx_hash : Text) (tries id : ℕ)
    → ((at : ℕ) → id ≤ at → at < id + tries → IsPending transport tx_hash at)
    → poll transport tx_hash tries id ≡ (err (rpc_error "no receipt"), id + tries)
poll_gives_up transport tx_hash zero id p =
    unfold poll lift in ap (λ n. (err (rpc_error "no receipt"), n)) (omega arith)
poll_gives_up transport tx_hash (suc tries) id p =
    poll-pending transport tx_hash tries id (p id (omega arith) (omega arith))
    ∙ poll_gives_up transport tx_hash tries (id + 1) (λ at a b. p at (omega arith) (omega arith))
    ∙ ap (λ n. (err (rpc_error "no receipt"), n)) (omega arith)

null-eq : (v : Value) → is_null v ≡ true → v ≡ null
null-eq null h = refl
null-eq _ h = cc

-- Whatever the node answers, no more requests are sent than there are tries.
poll_stops :
    (transport : Transport) (tx_hash : Text) (tries id : ℕ)
    → (poll transport tx_hash tries id).1 ≤ id + tries
poll_stops transport tx_hash zero id = unfold poll lift in omega arith
poll_stops transport tx_hash (suc tries) id =
    by_answer (ask_receipt transport tx_hash id).0 refl
      (poll_stops transport tx_hash tries (id + 1))
  where
    by_answer :
        (r : Checked Value)
        → (ask_receipt transport tx_hash id).0 ≡ r
        → (poll transport tx_hash tries (id + 1)).1 ≤ id + 1 + tries
        → (poll transport tx_hash (suc tries) id).1 ≤ id + suc tries
    by_answer (err x) e s = rw (poll-raises transport tx_hash tries id x e) (omega arith)
    by_answer (ok r) e s = elim (Bool-cases (is_null r)) [
      | inl n ↦ rw (poll-pending transport tx_hash tries id (e ∙ ap ok (null-eq r n))) (omega arith)
      | inr n ↦ rw (poll-receipt transport tx_hash tries id r e n) (omega arith)
    ]

-- Arguments that pass the checks start the loop.
wait_for_receipt-poll :
    (transport : Transport) (tx_hash : Text) (tries delay id : ℕ)
    → is_hex_of 64 tx_hash ≡ true
    → 0 < tries
    → wait_for_receipt transport tx_hash (pos tries) (pos delay) id
      ≡ poll transport tx_hash tries id
unfolding wait_for_receipt
wait_for_receipt-poll transport tx_hash tries delay id h p =
    lift-returns (hash (str tx_hash) "transaction hash") _ id tx_hash (unfold hash in rw h refl)
    ∙ raise_if-passes _ (value_error "tries") _ id (ground arith)
    ∙ raise_if-passes _ (value_error "delay") _ id (ground arith)

-- For a 32-byte hash and at least one try: if the node has no receipt at the first requests, and
-- has one at a request within the tries, then `wait_for_receipt` returns that receipt, validated,
-- and sends no request after it.
pub wait_for_receipt_finds :
    (transport : Transport) (tx_hash : Text) (tries delay found id : ℕ) (r : Value)
    → is_hex_of 64 tx_hash ≡ true
    → id ≤ found
    → found < id + tries
    → ((at : ℕ) → id ≤ at → at < found → IsPending transport tx_hash at)
    → (ask_receipt transport tx_hash found).0 ≡ ok r
    → is_null r ≡ false
    → wait_for_receipt transport tx_hash (pos tries) (pos delay) id
      ≡ (validate_receipt r "receipt", found + 1)
wait_for_receipt_finds transport tx_hash tries delay found id r h a b p e n =
    wait_for_receipt-poll transport tx_hash tries delay id h (omega arith)
    ∙ poll_finds transport tx_hash tries found id r a b p e n

-- For a 32-byte hash and at least one try, `wait_for_receipt` ends after at most that many requests,
-- whatever the node answers.
pub wait_for_receipt_ends :
    (transport : Transport) (tx_hash : Text) (tries delay id : ℕ)
    → is_hex_of 64 tx_hash ≡ true
    → 0 < tries
    → (wait_for_receipt transport tx_hash (pos tries) (pos delay) id).1 ≤ id + tries
wait_for_receipt_ends transport tx_hash tries delay id h p =
    subst (λ q. q.1 ≤ id + tries) (sym (wait_for_receipt-poll transport tx_hash tries delay id h p))
      (poll_stops transport tx_hash tries id)

-- For a 32-byte hash and at least one try: if the node has no receipt at any of the tries, then
-- `wait_for_receipt` raises an RpcError after exactly that many requests.
pub wait_for_receipt_gives_up :
    (transport : Transport) (tx_hash : Text) (tries delay id : ℕ)
    → is_hex_of 64 tx_hash ≡ true
    → 0 < tries
    → ((at : ℕ) → id ≤ at → at < id + tries → IsPending transport tx_hash at)
    → wait_for_receipt transport tx_hash (pos tries) (pos delay) id
      ≡ (err (rpc_error "no receipt"), id + tries)
wait_for_receipt_gives_up transport tx_hash tries delay id h p a =
    wait_for_receipt-poll transport tx_hash tries delay id h p
    ∙ poll_gives_up transport tx_hash tries id a
