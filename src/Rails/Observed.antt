-- ===== src/Rails/Observed.antt =====
-- The readers of src/psv/rails.py, with the token reads of `TokenView` in src/psv/chain.py over the
-- RPC client. `hashlib.sha256` is a parameter.
use psv.Rails.{RailConfig, RailAttestation}
use psv.Text.Hex.{is_hex_of, hex_fold, from_hex}
use psv.Chain.{
  ChainError, bad_word, not_boolean, node_error, slot_addr, slot_bytes32, word_to_int,
  sel_balance_of, sel_authorization_state,
}
use psv.Rpc.{RpcFailure, rpc_error, value_error, evidence_error, Checked, is_quantity_text, hex_of}
use psv.Rpc.Exec.{Exec, pure, lift, raise_if, ◌>>=◌, ◌>>◌}
use psv.Rpc.Client.{Transport, call}
use psv.Rpc.Reads.{get_block, get_code, eth_call, get_logs}
use psv.ReferenceSut.Confirmer.{topic_authorization_used}
use psv.Base.{
  ℕ, String, Bool, true, false, not, ◌||◌, Option, none, some, List, [], ◌∷◌, ◌++◌, str_eq,
  if◌then◌else◌, take, drop, ok, err, reraise,
}
use psv.Base.Int.{ℤ, pos, eqb_ℤ}
use psv.Text.{Text, codes, text_eq, starts_with, lower, zeros}
use psv.Value.{Value, Fields, bool, int, str, nil, cons, get_or_null}

-- `_quantity`
unfoldable pub quantity : Value → String → Checked ℕ
quantity (str s) what =
    if is_quantity_text s
    then elim (hex_fold 0 (drop 2 s)) [ none ↦ err (evidence_error what) | some n ↦ ok n ]
    else err (evidence_error what)
quantity _ what = err (evidence_error what)

-- `_exact_hash`
unfoldable pub exact_hash : Value → String → Checked Text
exact_hash (str s) what = if is_hex_of 64 s then ok (lower s) else err (evidence_error what)
exact_hash _ what = err (evidence_error what)

-- `_block_identity`
unfoldable pub block_identity : Fields → Exec (ℕ × Text)
unfolding quantity exact_hash
block_identity block = do
  number ← lift (quantity (get_or_null "number" block) "block number")
  block_hash ← lift (exact_hash (get_or_null "hash" block) "block hash")
  pure (number, block_hash)

abbrev pub Sha256 : Type 0
Sha256 = List ℕ → Text

-- `_code_fingerprint`
unfoldable pub code_fingerprint : Sha256 → Text → Checked Text
code_fingerprint sha256 code =
    if not (starts_with code (codes "0x")) || text_eq code (codes "0x")
    then err (evidence_error "no code")
    else elim (from_hex (drop 2 code)) [
      | none ↦ err (evidence_error "malformed code")
      | some [] ↦ err (evidence_error "no code")
      | some (b ∷ bytes) ↦ ok (sha256 (b ∷ bytes))
    ]

-- The errors of src/psv/chain.py: those of a node's answer are RpcErrors, the others ValueErrors.
unfoldable pub chain_failure : ChainError → RpcFailure
chain_failure bad_word = rpc_error "word"
chain_failure not_boolean = rpc_error "boolean"
chain_failure node_error = rpc_error "node"
chain_failure _ = value_error "argument"

-- `block_number` as a selector
abbrev pub at_block : ℕ → Value
at_block n = int (pos n)

-- `TokenView.balance_of`
unfoldable pub balance_of : Transport → Text → Text → Value → Exec ℤ
unfolding chain_failure
balance_of transport token who block = do
  slot ← lift (reraise chain_failure (slot_addr who))
  answer ← eth_call transport token (codes "0x" ++ sel_balance_of ++ slot) block
  lift (reraise chain_failure (word_to_int (str answer)))

-- `result in {0, 1}`
abbrev pub abi_boolean : ℤ → Checked Bool
abi_boolean z =
    if eqb_ℤ z (pos 0)
    then ok false
    else if eqb_ℤ z (pos 1)
    then ok true
    else err (rpc_error "boolean")

-- `TokenView.authorization_used`
unfoldable pub authorization_used : Transport → Text → Text → Text → Value → Exec Bool
unfolding chain_failure
authorization_used transport token authorizer nonce block = do
  slot ← lift (reraise chain_failure (slot_addr authorizer))
  nonce_slot ← lift (reraise chain_failure (slot_bytes32 nonce))
  answer ←
      eth_call transport token (codes "0x" ++ sel_authorization_state ++ slot ++ nonce_slot) block
  result ← lift (reraise chain_failure (word_to_int (str answer)))
  lift (abi_boolean result)

-- SEL_EVENT_MODE
abbrev pub sel_event_mode : Text
sel_event_mode = codes "0ce978e2"

-- `TokenView.event_mode`
unfoldable pub event_mode : Transport → Text → Value → Exec ℤ
unfolding chain_failure
event_mode transport token block = do
  answer ← eth_call transport token (codes "0x" ++ sel_event_mode) block
  lift (reraise chain_failure (word_to_int (str answer)))

-- `_topic_addr(authorizer) if authorizer else None`; an empty text is no authorizer.
unfoldable pub authorizer_topic : Option Text → Checked (Option Text)
unfolding chain_failure
authorizer_topic none = ok none
authorizer_topic (some []) = ok none
authorizer_topic (some (c ∷ s)) = with_prefix (reraise chain_failure (slot_addr (c ∷ s)))
  where
    with_prefix : Checked Text → Checked (Option Text)
    with_prefix (ok slot) = ok (some (codes "0x" ++ slot))
    with_prefix (err e) = err e

-- `TokenView.authorization_used_logs`
unfoldable pub authorization_used_logs :
    Transport → Text → Option Text → Value → Value → Exec (List Fields)
unfolding authorizer_topic
authorization_used_logs transport token authorizer from_block to_block = do
  topic ← lift (authorizer_topic authorizer)
  get_logs transport token (some topic_authorization_used ∷ topic ∷ []) from_block to_block

-- What is behind a proxy: the address, and the hash of its code.
pub record Implementation : Type 0 where
  pub addr : Text
  pub code_sha256 : Text

-- `slot is None or expected_address is None or expected_hash is None`
abbrev pub all_three : Option Text → Option Text → Option Text → Checked (Text × Text × Text)
all_three (some slot) (some addr) (some code) = ok (slot, addr, code)
all_three _ _ _ = err (evidence_error "not calibrated")

abbrev pub pinned_proxy : RailAttestation → Checked (Text × Text × Text)
pinned_proxy a =
    all_three a.proxy_implementation_slot a.implementation_address a.implementation_code_sha256

-- The address in a storage word: 12 bytes of zeros and 20 bytes, which are the last 40 characters.
unfoldable pub address_of_word : Value → Checked Text
address_of_word (str w) =
    if is_hex_of 64 w
    then (if text_eq (take 24 (drop 2 w)) (zeros 24)
        then ok (codes "0x" ++ lower (drop 26 w))
        else err (evidence_error "not an address word"))
    else err (evidence_error "malformed word")
address_of_word _ = err (evidence_error "malformed word")

-- `_implementation_identity`, of a rail with a proxy
unfoldable pub proxy_identity : Sha256 → RailConfig → Transport → ℕ → Exec (Option Implementation)
unfolding address_of_word code_fingerprint
proxy_identity sha256 rail transport block_number = do
  (slot, expected_address, expected_hash) ← lift (pinned_proxy rail.attestation)
  word ←
      call transport "eth_getStorageAt"
        (cons (str rail.token_address) (cons (str slot) (cons (str (hex_of block_number)) nil)))
  observed ← lift (address_of_word word)
  raise_if (not (text_eq observed (lower expected_address))) (evidence_error "implementation drift")
  code ← get_code transport observed (at_block block_number)
  implementation_hash ← lift (code_fingerprint sha256 code)
  raise_if (not (text_eq implementation_hash expected_hash)) (evidence_error "implementation code")
  pure (some (record { addr = observed; code_sha256 = implementation_hash }))

-- `_implementation_identity`
unfoldable pub implementation_identity :
    Sha256 → RailConfig → Transport → ℕ → Exec (Option Implementation)
unfolding proxy_identity
implementation_identity sha256 rail transport block_number =
    if str_eq rail.attestation.proxy_kind "none"
    then pure none
    else proxy_identity sha256 rail transport block_number

-- `block_hash != attestation.reviewed_block_hash`, where the attestation may have none
abbrev pub is_text : Option Text → Text → Bool
is_text none t = false
is_text (some s) t = text_eq s t

-- `_verify_review_anchor`, of a calibrated rail with a reviewed block
unfoldable pub anchored_at : RailConfig → Transport → ℤ → Exec (Unit {0})
unfolding block_identity
anchored_at rail transport reviewed_number = do
  reviewed ← get_block transport (int reviewed_number) (bool false)
  (number, block_hash) ← block_identity reviewed
  raise_if
      (not (eqb_ℤ (pos number) reviewed_number)
        || not (is_text rail.attestation.reviewed_block_hash block_hash))
      (evidence_error "review anchor")

-- `_verify_review_anchor`
unfoldable pub verify_review_anchor : RailConfig → Transport → Exec (Unit {0})
unfolding anchored_at
verify_review_anchor rail transport =
    if rail.attestation.calibrated
    then elim rail.attestation.reviewed_block_number [
      | none ↦ pure tt
      | some n ↦ anchored_at rail transport n
    ]
    else pure tt
