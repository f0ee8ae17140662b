-- ===== src/Rails/Steps.antt =====
-- What each paragraph of `reconcile_live` in src/psv/rails.py has established when it returns.
use psv.Rails.{RailConfig}
use psv.Rpc.{is_quantity_text}
use psv.Rpc
use psv.Rpc.Bounded.{not-eq_false}
use psv.Rpc.Accepted.{IsReceipt, get_transaction_receipt-IsReceipt}
use psv.Rpc.Reads.{get_block, get_code, get_transaction_receipt}
use psv.Rpc.Exec.{
  IsRead, Yields-IsRead, Yields-with, Yields, Yields-skip, Yields-bind, Yields-raise_if,
  Yields-lift, Yields-pure,
}
use psv.Rpc.Client.{Transport}
use psv.Rails.Observed.{
  at_block, block_identity, code_fingerprint, balance_of, authorization_used, all_three, Sha256,
  quantity, exact_hash, Implementation, implementation_identity, proxy_identity,
}
use psv.Rails.Arguments.{Payment, Arguments}
use psv.Rails.Settled.{
  Settled, confirmations, settled_at, differs_from, Identity, token_identity, Balances,
  pinned_balances,
}
use psv.Text.Laws.{text_eq_sound}
use psv.Base.{
  Ensures-with, ℕ, ◌-◌, ◌≤◌, ◌<◌, String, ◌≡◌, refl, ap, subst, ◌∙◌, ◌⊎◌, inl, inr, true, false,
  not, ◌||◌, Option, none, some, arith, ◌==◌, str_eq, if-cases, ok, Ensures, Ensures-self,
  Ensures-map,
}
use psv.Base.Int.{pos, ◌≤ℤ◌, eq_of_parts}
use psv.Text.{Text, text_eq, lower}
use psv.Value.{Value, Fields, bool, str, get_or_null}

-- The two readers of a quantity agree where the stricter error is the only difference.
quantity-agrees :
    (v : Value) (what other : String) (n : ℕ)
    → Rpc.quantity v what ≡ ok n
    → Ensures (λ m. m ≡ n) (quantity v other)
unfolding quantity Rpc.quantity
quantity-agrees (str s) what other n h =
    Ensures-map (Ensures-self (quantity (str s) other)) λ m e. ground (arith, e, h)
quantity-agrees _ what other n h = cc

-- The node returned this block, under these number and hash.
abbrev pub IsReadBlock : Transport → Value → ℕ → Text → Type 0
IsReadBlock transport block_id number block_hash =
    (block : Fields) × IsRead (get_block transport block_id (bool false)) block
    × IsRead (block_identity block) (number, block_hash)

-- A receipt that the node returned for this transaction, which succeeded or was reverted, in a
-- canonical block, as deep below the finality block as the rail demands.
pub record IsSettled (transport : Transport) (rail : RailConfig) (tx_hash : Text) (s : Settled)
    : Type 0 where
  pub finality :
      IsReadBlock transport (str rail.finality.block_tag) s.finality_number s.finality_hash
  pub returned : IsRead (get_transaction_receipt transport tx_hash) s.receipt
  pub in_block : quantity (get_or_null "blockNumber" s.receipt) "receipt block number" ≡ ok s.number
  pub block_hash :
      exact_hash (get_or_null "blockHash" s.receipt) "receipt block hash" ≡ ok s.block_hash
  pub has_status : quantity (get_or_null "status" s.receipt) "receipt status" ≡ ok s.status
  pub canonical : IsReadBlock transport (at_block s.number) s.number s.block_hash
  pub validated : IsReceipt s.receipt
  pub same_tx : exact_hash (get_or_null "transactionHash" s.receipt) "receipt" ≡ ok tx_hash
  pub status : s.status ≤ 1
  pub deep : rail.finality.minimum_confirmations ≤ℤ confirmations s.finality_number s.number

same_block :
    (m n : ℕ) (h k : Text)
    → not (m == n) || not (text_eq h k) ≡ false
    → ◌≡◌ {A = ℕ × Text} (m, h) (n, k)
same_block m n h k e =
    let number : m ≡ n = ground (arith, e) in
    let hash : h ≡ k = text_eq_sound h k (ground (arith, e)) in λ i. (number i, hash i)

pub settled_at-IsSettled :
    (transport : Transport) (rail : RailConfig) (tx_hash : Text)
    → Yields (IsSettled transport rail tx_hash) (settled_at transport rail tx_hash)
unfolding settled_at
settled_at-IsSettled transport rail tx_hash =
    Yields-bind _ _ (Yields-IsRead _) λ finality_block finality_read.
      Yields-bind _ _ (Yields-IsRead (block_identity finality_block))
        λ (finality_number, finality_hash) finality_at.
          Yields-bind _ _ (Yields-with _ (get_transaction_receipt-IsReceipt transport tx_hash))
            λ receipt (valid, returned).
              Yields-bind _ _ (Yields-lift _ (Ensures-self _)) λ receipt_tx tx_e.
                Yields-raise_if _ _ _ λ same.
                  Yields-bind _ _ (Yields-lift _ (Ensures-self _)) λ number number_e.
                    Yields-bind _ _ (Yields-lift _ (Ensures-self _)) λ block_hash hash_e.
                      let (n, read, small) = valid.status in
                      Yields-bind _ _
                        (Yields-lift _
                          (Ensures-with _ (quantity-agrees _ "status" "receipt status" n read)))
                        λ status (e, status_e). Yields-raise_if _ _ _ λ deep.
                          Yields-bind _ _ (Yields-IsRead _) λ canonical canonical_read.
                            Yields-bind _ _ (Yields-IsRead (block_identity canonical))
                              λ (canonical_number, canonical_hash) canonical_at.
                                Yields-raise_if _ _ _ λ here. Yields-pure _ (record {
                                  finality = (finality_block, finality_read, finality_at);
                                  returned = returned;
                                  in_block = number_e;
                                  block_hash = hash_e;
                                  has_status = status_e;
                                  canonical = (
                                    canonical,
                                    canonical_read,
                                    subst (IsRead (block_identity canonical))
                                        (same_block canonical_number number canonical_hash
                                          block_hash here)
                                        canonical_at,
                                  );
                                  validated = valid;
                                  same_tx =
                                      tx_e
                                      ∙ ap ok
                                          (text_eq_sound receipt_tx tx_hash (not-eq_false _ same));
                                  status = omega (arith, e);
                                  deep = ground arith;
                                })

-- The code of the token is the pinned code, where one is pinned.
abbrev pub IsPinnedCode : RailConfig → Identity → Type 0
IsPinnedCode rail i = differs_from rail.attestation.expected_code_sha256 i.token_code ≡ false

-- Behind a proxy stand the reviewed address and the reviewed code.
abbrev pub IsPinnedProxy : RailConfig → Option Implementation → Type 0
IsPinnedProxy rail implementation =
    (str_eq rail.attestation.proxy_kind "none" ≡ true)
    ⊎ ((addr : Text) × (code : Text) × (implementation
          ≡ some (record { addr = lower addr; code_sha256 = code }))
        × (rail.attestation.implementation_address ≡ some addr)
        × (rail.attestation.implementation_code_sha256 ≡ some code))

all_three-Ensures :
    (slot addr code : Option Text)
    → Ensures (λ (s, a, c). (addr ≡ some a) × (code ≡ some c)) (all_three slot addr code)
all_three-Ensures (some s) (some a) (some c) = record { holds = (refl, refl) }
all_three-Ensures none addr code = record { holds = tt }
all_three-Ensures (some s) none code = record { holds = tt }
all_three-Ensures (some s) (some a) none = record { holds = tt }

proxy_identity-IsPinnedProxy :
    (sha256 : Sha256) (rail : RailConfig) (transport : Transport) (number : ℕ)
    → Yields (IsPinnedProxy rail) (proxy_identity sha256 rail transport number)
unfolding proxy_identity
proxy_identity-IsPinnedProxy sha256 rail transport number =
    Yields-bind _ _ (Yields-lift _ (all_three-Ensures _ _ _)) λ (slot, addr, code) (a, c).
      Yields-skip _ _ λ _. Yields-skip _ _ λ observed. Yields-raise_if _ _ _ λ same_addr.
        Yields-skip _ _ λ _. Yields-skip _ _ λ hash. Yields-raise_if _ _ _ λ same_code.
          let at_addr = text_eq_sound observed (lower addr) (not-eq_false _ same_addr) in
          let with_code = text_eq_sound hash code (not-eq_false _ same_code) in
          Yields-pure _ (inr (addr, code, ap some (cc (at_addr, with_code)), a, c))

pub implementation_identity-IsPinnedProxy :
    (sha256 : Sha256) (rail : RailConfig) (transport : Transport) (number : ℕ)
    → Yields (IsPinnedProxy rail) (implementation_identity sha256 rail transport number)
unfolding implementation_identity
implementation_identity-IsPinnedProxy sha256 rail transport number =
    if-cases (Yields (IsPinnedProxy rail)) (str_eq rail.attestation.proxy_kind "none")
      (λ t. Yields-pure none (inl t)) λ f. proxy_identity-IsPinnedProxy sha256 rail transport number

-- The code of the token at this block, as the node returned it.
abbrev pub IsReadCode : Sha256 → Transport → Text → ℕ → Text → Type 0
IsReadCode sha256 transport token number token_code =
    (code : Text) × IsRead (get_code transport token (at_block number)) code
    × (code_fingerprint sha256 code ≡ ok token_code)

pub token_identity-IsPinned :
    (sha256 : Sha256) (transport : Transport) (token : Text) (rail : RailConfig) (number : ℕ)
    → Yields
        (λ i.
          IsReadCode sha256 transport token number i.token_code
          × IsPinnedCode rail i
          × IsPinnedProxy rail i.implementation)
        (token_identity sha256 transport token rail number)
unfolding token_identity
token_identity-IsPinned sha256 transport token rail number =
    Yields-bind _ _ (Yields-IsRead _) λ code read.
      Yields-bind _ _ (Yields-lift _ (Ensures-self _)) λ token_code fingerprint.
        Yields-raise_if _ _ _ λ same.
          Yields-bind _ _ (implementation_identity-IsPinnedProxy sha256 rail transport number)
            λ implementation pinned. Yields-pure _ ((code, read, fingerprint), same, pinned)

-- The balances at the settlement block and its parent and the state of the nonce, as the node returned
-- them; those before are the caller's.
pub record AreBalances (transport : Transport) (token : Text) (p : Payment) (number : ℕ)
    (a : Arguments) (b : Balances) : Type 0 where
  pub payer_parent_read :
      IsRead (balance_of transport token p.payer (at_block (number - 1))) b.payer_parent
  pub payee_parent_read :
      IsRead (balance_of transport token p.payee (at_block (number - 1))) b.payee_parent
  pub payer_read : IsRead (balance_of transport token p.payer (at_block number)) b.payer_after
  pub payee_read : IsRead (balance_of transport token p.payee (at_block number)) b.payee_after
  pub nonce_read :
      IsRead (authorization_used transport token p.payer p.nonce (at_block number)) b.nonce_consumed
  pub payer_before : b.payer_parent ≡ pos a.payer_before
  pub payee_before : b.payee_parent ≡ pos a.payee_before

pub pinned_balances-AreBalances :
    (transport : Transport) (token : Text) (p : Payment) (a : Arguments) (number : ℕ)
    → Yields
        (λ b. (0 < number) × AreBalances transport token p number a b)
        (pinned_balances transport token p a number)
unfolding pinned_balances
pinned_balances-AreBalances transport token p a number = Yields-raise_if _ _ _ λ not_genesis.
    Yields-bind _ _ (Yields-IsRead _) λ payer_parent r0.
      Yields-bind _ _ (Yields-IsRead _) λ payee_parent r1.
        Yields-bind _ _ (Yields-IsRead _) λ payer_after r2.
          Yields-bind _ _ (Yields-IsRead _) λ payee_after r3.
            Yields-bind _ _ (Yields-IsRead _) λ consumed r4. Yields-raise_if _ _ _ λ same.
              Yields-pure _ (
                ground arith,
                record {
                  payer_parent_read = r0;
                  payee_parent_read = r1;
                  payer_read = r2;
                  payee_read = r3;
                  nonce_read = r4;
                  payer_before = eq_of_parts payer_parent (pos a.payer_before) (ground arith);
                  payee_before = eq_of_parts payee_parent (pos a.payee_before) (ground arith);
                },
              )
