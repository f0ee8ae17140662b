-- ===== src/Rails/Proven.antt =====
-- What a verdict of `reconcile_live` in src/psv/rails.py rests on, and what it is.
use psv.Rails.Shown.{
  IsSelected, selected_transfer-IsSelected, IsAuthorizedAt, authorization_log_index-IsAuthorizedAt,
}
use psv.Rpc.Methods.{chain_id}
use psv.Rails.Steps.{
  IsReadCode, AreBalances, IsPinnedProxy, pinned_balances-AreBalances, IsPinnedCode,
  token_identity-IsPinned, settled_at-IsSettled, IsSettled,
}
use psv.Rails.Observed.{Sha256}
use psv.Rails.{RailConfig}
use psv.Rpc.Bounded.{not-eq_false}
use psv.Rpc.Exec.{
  IsRead, Yields-IsRead, Yields-bind, Yields, Yields-skip, Yields-raise_if, Yields-lift,
  Yields-pure, Yields-map,
}
use psv.Rpc.Client.{Transport}
use psv.Rails.Arguments.{check_arguments, Payment, Arguments}
use psv.Rails.Settled.{Identity, Settled, Balances}
use psv.Rails.Live.{
  evidence_of, LiveReconciliation, reconcile_live, Attribution, is_requested, is_attributed,
  settled_payment, reverted_payment, attribute,
}
use psv.Reconciliation.Credit.{OnChainCredit}
use psv.Divergence.{detect_payment_divergence, funds_moved}
use psv.Base.{
  ℕ, ◌<◌, ◌≡◌, refl, ◌⊎◌, inl, inr, true, false, not, ◌&&◌, none, some, arith, ◌==◌, str_eq,
  if-cases, ok, Ensures, Ensures-self, Ensures-map,
}
use psv.Base.Int.{ℤ, pos, ◌-ℤ◌, ◌≤ℤ◌, ◌<ℤ◌, -ℤ_parts, eq_of_parts}
use psv.Text.{Text, text_eq, lower}

-- The payer lost what the Transfer says, and the payee received some of it and no more.
pub record IsAttributed (b : Balances) (received_amount : ℤ) (event_value : ℕ) : Type 0 where
  pub debited : b.payer_after -ℤ b.payer_parent ≡ pos 0 -ℤ pos event_value
  pub credited : b.payee_after -ℤ b.payee_parent ≡ received_amount
  pub some_received : pos 0 <ℤ received_amount
  pub no_more : received_amount ≤ℤ pos event_value

-- The receipt succeeded, and its selected Transfer is the requested payment.
pub record IsPaid (p : Payment) (a : Arguments) (s : Settled) (b : Balances) (t : Attribution)
    : Type 0 where
  pub succeeded : s.status ≡ 1
  pub credit : OnChainCredit
  pub selected : t.selected_log ≡ some credit
  pub authorized : (n : ℕ) × (t.auth_log_index ≡ some n)
  pub kept : credit.removed ≡ false
  pub requested : is_requested p a s credit ≡ true
  pub consumed : b.nonce_consumed ≡ true
  pub attributed : IsAttributed b t.received_amount credit.value
  pub moved : funds_moved t.truth ≡ true
  pub same_received : t.truth.payee_delta ≡ t.received_amount

-- The receipt was reverted, and nothing is attributed to it.
pub record IsReverted (s : Settled) (b : Balances) (t : Attribution) : Type 0 where
  pub failed : (s.status == 1) ≡ false
  pub nothing_selected : t.selected_log ≡ none
  pub not_consumed : b.nonce_consumed ≡ false
  pub nothing_received : t.received_amount ≡ pos 0
  pub not_moved : funds_moved t.truth ≡ false

abbrev pub IsAttribution : Payment → Arguments → Settled → Balances → Attribution → Type 0
IsAttribution p a s b t = IsPaid p a s b t ⊎ IsReverted s b t

-- What the receipt shows of a payment that succeeded: the selected Transfer, and the use of the nonce.
pub record IsShown (token : Text) (chain : ℕ) (p : Payment) (a : Arguments) (s : Settled)
    (t : Attribution) : Type 0 where
  pub credit : OnChainCredit
  pub selected : t.selected_log ≡ some credit
  pub from_log : IsSelected s.receipt chain a.log_index token credit
  pub index : ℕ
  pub authorized : t.auth_log_index ≡ some index
  pub nonce_used : IsAuthorizedAt s.receipt token p.payer p.nonce index

abbrev pub IsShownOrReverted : Text → ℕ → Payment → Arguments → Settled → Attribution → Type 0
IsShownOrReverted token chain p a s t = IsShown token chain p a s t ⊎ ((s.status == 1) ≡ false)

attributed-moved :
    (d r : ℤ) (v : ℕ)
    → is_attributed d r v ≡ true
    → (d ≡ pos 0 -ℤ pos v) × (pos 0 <ℤ r) × (r ≤ℤ pos v) × (d <ℤ pos 0)
unfolding is_attributed
attributed-moved d r v h = ground (arith, -ℤ_parts (pos 0) (pos v), eq_of_parts d (pos 0 -ℤ pos v))

settled_payment-IsPaid :
    (transport : Transport) (token : Text) (chain : ℕ) (p : Payment) (a : Arguments) (s : Settled)
    (b : Balances)
    → s.status ≡ 1
    → Yields
        (λ t. IsPaid p a s b t × IsShown token chain p a s t)
        (settled_payment transport token chain p a s b)
unfolding settled_payment
settled_payment-IsPaid transport token chain p a s b one =
    Yields-bind _ _ (Yields-lift _ (selected_transfer-IsSelected s.receipt chain a.log_index token))
      λ credit from_log. Yields-raise_if _ _ _ λ kept. Yields-raise_if _ _ _ λ requested.
        Yields-bind _ _
          (Yields-lift _ (authorization_log_index-IsAuthorizedAt s.receipt token p.payer p.nonce))
          λ auth_index nonce_used. Yields-raise_if _ _ _ λ consumed. Yields-skip _ _ λ _.
            Yields-raise_if _ _ _ λ attributed.
              let (debit, positive, bounded, negative) =
                attributed-moved (b.payer_after -ℤ b.payer_parent) (b.payee_after -ℤ b.payee_parent)
                  credit.value (not-eq_false _ attributed) in
              Yields-pure _ (
                record {
                  succeeded = one;
                  credit = credit;
                  selected = refl;
                  authorized = (auth_index, refl);
                  kept = kept;
                  requested = not-eq_false _ requested;
                  consumed = not-eq_false _ consumed;
                  attributed = record {
                    debited = debit;
                    credited = refl;
                    some_received = positive;
                    no_more = bounded;
                  };
                  moved = unfold funds_moved in ground arith;
                  same_received = refl;
                },
                record {
                  credit = credit;
                  selected = refl;
                  from_log = from_log;
                  index = auth_index;
                  authorized = refl;
                  nonce_used = nonce_used;
                },
              )

reverted_payment-IsReverted :
    (s : Settled) (b : Balances)
    → (s.status == 1) ≡ false
    → Ensures (IsReverted s b) (reverted_payment b)
unfolding reverted_payment
reverted_payment-IsReverted s b other =
    if-cases (Ensures (IsReverted s b)) b.nonce_consumed (λ t. record { holds = tt })
      λ f. record {
        holds = record {
          failed = other;
          nothing_selected = refl;
          not_consumed = f;
          nothing_received = refl;
          not_moved = unfold funds_moved in refl;
        };
      }

attribute-IsAttribution :
    (transport : Transport) (token : Text) (chain : ℕ) (p : Payment) (a : Arguments) (s : Settled)
    (b : Balances)
    → Yields
        (λ t. IsAttribution p a s b t × IsShownOrReverted token chain p a s t)
        (attribute transport token chain p a s b)
unfolding attribute
attribute-IsAttribution transport token chain p a s b =
    if-cases (Yields (λ t. IsAttribution p a s b t × IsShownOrReverted token chain p a s t))
      (s.status == 1)
      (λ t.
        Yields-map (settled_payment-IsPaid transport token chain p a s b (ground arith))
          λ x (h, shown). (inl h, inl shown))
      λ f. Yields-lift _ (Ensures-map (reverted_payment-IsReverted s b f) λ x h. (inr h, inr f))

-- What stands behind a verdict on a payment of a rail.
pub record IsProven (sha256 : Sha256) (transport : Transport) (token : Text) (rail : RailConfig)
    (p : Payment) (r : LiveReconciliation) : Type 0 where
  pub a : Arguments
  pub accepted : check_arguments p ≡ ok a
  pub same_token : text_eq (lower token) (lower rail.token_address) ≡ true
  pub chain : ℕ
  pub chain_read : IsRead (chain_id transport) chain
  pub same_chain : pos chain ≡ rail.chain_id
  pub calibrated :
      str_eq rail.attestation.network_class "mainnet" && not rail.attestation.calibrated ≡ false
  pub s : Settled
  pub settled : IsSettled transport rail a.tx_hash s
  pub not_genesis : 0 < s.number
  pub i : Identity
  pub code_read : IsReadCode sha256 transport token s.number i.token_code
  pub same_code : IsPinnedCode rail i
  pub same_proxy : IsPinnedProxy rail i.implementation
  pub b : Balances
  pub balances : AreBalances transport token p s.number a b
  pub t : Attribution
  pub attribution : IsAttribution p a s b t
  pub shown : IsShownOrReverted token chain p a s t
  pub evidence : r.evidence ≡ evidence_of token rail p chain a s i b t
  pub verdict :
      r.divergence ≡ detect_payment_divergence t.truth a.believes (some (pos a.required_amount))

pub reconcile_live-IsProven :
    (sha256 : Sha256) (transport : Transport) (token : Text) (rail : RailConfig) (p : Payment)
    → Yields (IsProven sha256 transport token rail p) (reconcile_live sha256 transport token rail p)
unfolding reconcile_live
reconcile_live-IsProven sha256 transport token rail p = Yields-raise_if _ _ _ λ same_token.
    Yields-bind _ _ (Yields-lift _ (Ensures-self (check_arguments p))) λ a accepted.
      Yields-bind _ _ (Yields-IsRead _) λ chain chain_read. Yields-raise_if _ _ _ λ same_chain.
        Yields-raise_if _ _ _ λ calibrated. Yields-skip _ _ λ _.
          Yields-bind _ _ (settled_at-IsSettled transport rail a.tx_hash) λ s settled.
            Yields-bind _ _ (token_identity-IsPinned sha256 transport token rail s.number)
              λ i (code_read, same_code, same_proxy).
                Yields-bind _ _ (pinned_balances-AreBalances transport token p a s.number)
                  λ b (not_genesis, balances).
                    Yields-bind _ _ (attribute-IsAttribution transport token chain p a s b)
                      λ t (attribution, shown). Yields-skip _ _ λ _. Yields-pure _ (record {
                        a = a;
                        accepted = accepted;
                        same_token = not-eq_false _ same_token;
                        chain = chain;
                        chain_read = chain_read;
                        same_chain = eq_of_parts (pos chain) rail.chain_id (ground arith);
                        calibrated = calibrated;
                        s = s;
                        settled = settled;
                        not_genesis = not_genesis;
                        i = i;
                        code_read = code_read;
                        same_code = same_code;
                        same_proxy = same_proxy;
                        b = b;
                        balances = balances;
                        t = t;
                        attribution = attribution;
                        shown = shown;
                        evidence = refl;
                        verdict = refl;
                      })
