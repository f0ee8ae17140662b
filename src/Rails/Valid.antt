-- ===== src/Rails/Valid.antt =====
-- What the constructors of src/psv/rails.py guarantee of a rail, and what that adds to a verdict.
use psv.Rails.{
  FinalityPolicy, RailAttestation, RailConfig, is_pinned, check_finality, check_attestation,
  check_rail,
}
use psv.Rpc.Bounded.{not-eq_false}
use psv.Rpc.Exec.{Yields, Yields-map}
use psv.Rpc.Client.{Transport}
use psv.Rails.Observed.{Sha256}
use psv.Rails.Arguments.{Payment}
use psv.Rails.Settled.{confirmations, differs_from}
use psv.Rails.Live.{reconcile_live}
use psv.Rails.Steps.{IsReadCode}
use psv.Rails.Proven.{reconcile_live-IsProven}
use psv.Text.Laws.{text_eq_sound}
use psv.Base.{
  ℕ, ◌≤◌, ◌≡◌, sym, ap, ◌⊎◌, inl, inr, true, false, not, ◌&&◌, Option, none, some, arith, str_eq,
  Bool-cases, is_some, ok, Ensures, Ensures-eq_ok, Ensures-bind, Ensures-raise_if, Ensures-self,
  raise_if-eq_ok, Ensures-map,
}
use psv.Base.Int.{ℤ, pos, ◌-ℤ◌, ◌≤ℤ◌, ◌<ℤ◌, +ℤ_parts, -ℤ_parts, eq_of_parts}
use psv.Text.{Text}

pub record IsValidRail (r : RailConfig) : Type 0 where
  pub deep : pos 1 ≤ℤ r.finality.minimum_confirmations
  pub chain : pos 0 <ℤ r.chain_id
  pub read_only : r.signing_enabled ≡ false
  pub same_decimals : r.attestation.expected_decimals ≡ r.decimals
  pub pinned :
      str_eq r.attestation.network_class "mainnet"
        && r.attestation.calibrated
        && not (is_pinned r.attestation)
      ≡ false

finality-Ensures :
    (p : FinalityPolicy) → Ensures (λ u. pos 1 ≤ℤ p.minimum_confirmations) (check_finality p)
unfolding check_finality
finality-Ensures p =
    Ensures-raise_if _ _ _
      λ tag. Ensures-map (Ensures-self _) λ u e. (let c = raise_if-eq_ok _ _ e in ground arith)

attestation-Ensures :
    (a : RailAttestation)
    → Ensures
        (λ u. str_eq a.network_class "mainnet" && a.calibrated && not (is_pinned a) ≡ false)
        (check_attestation a)
unfolding check_attestation
attestation-Ensures a = Ensures-raise_if _ _ _ λ _. Ensures-raise_if _ _ _ λ _.
    Ensures-raise_if _ _ _ λ _. Ensures-raise_if _ _ _ λ _. Ensures-raise_if _ _ _ λ _.
      Ensures-raise_if _ _ _ λ _. Ensures-raise_if _ _ _ λ _. Ensures-raise_if _ _ _ λ _.
        Ensures-raise_if _ _ _ λ _. Ensures-raise_if _ _ _ λ _.
          Ensures-raise_if _ _ _ λ _.
            Ensures-raise_if _ _ _ λ _. Ensures-map (Ensures-self _) λ u e. raise_if-eq_ok _ _ e

-- A rail that passes the checks of its constructors demands at least one confirmation, has a
-- positive chain id, never signs, has the reviewed decimals, and if it is a calibrated rail of a
-- mainnet, its code and what is behind its proxy are pinned.
pub check_rail-IsValidRail : (r : RailConfig) → Ensures (λ u. IsValidRail r) (check_rail r)
unfolding check_rail
check_rail-IsValidRail r = Ensures-bind (finality-Ensures r.finality) λ _ deep.
    Ensures-bind (attestation-Ensures r.attestation) λ _ pinned. Ensures-raise_if _ _ _ λ chain.
      Ensures-raise_if _ _ _ λ _. Ensures-raise_if _ _ _ λ _. Ensures-raise_if _ _ _ λ signing.
        Ensures-raise_if _ _ _ λ decimals. Ensures-map (Ensures-self _) λ u e. record {
          deep = deep;
          chain = ground arith;
          read_only = signing;
          same_decimals = eq_of_parts r.attestation.expected_decimals r.decimals (ground arith);
          pinned = pinned;
        }

confirmed-le : (required : ℤ) (f n : ℕ) → pos 1 ≤ℤ required → required ≤ℤ confirmations f n → n ≤ f
unfolding confirmations
confirmed-le required f n p q =
    ground (arith, -ℤ_parts (pos f) (pos n), +ℤ_parts (pos f -ℤ pos n) (pos 1))

-- The code that was seen is the reviewed one.
same_code :
    (expected : Option Text) (code : Text)
    → is_some expected ≡ true
    → differs_from expected code ≡ false
    → expected ≡ some code
same_code none code h d = cc
same_code (some e) code h d = ap some (sym (text_eq_sound code e (not-eq_false _ d)))

mainnet_pinned :
    (r : RailConfig)
    → IsValidRail r
    → str_eq r.attestation.network_class "mainnet" && not r.attestation.calibrated ≡ false
    → str_eq r.attestation.network_class "mainnet" ≡ true
    → is_some r.attestation.expected_code_sha256 ≡ true
unfolding is_pinned
mainnet_pinned r v c m = let p = v.pinned in ground (arith, p, c, m)

-- On a rail that passes the checks of its constructors, a verdict of `reconcile_live` is on a
-- settlement that is not after the finality block. The code of the token in the evidence is the
-- fingerprint of what the node returned for it at the block of the settlement, and on a mainnet rail
-- it is the reviewed one.
pub reconcile_live_pinned :
    (sha256 : Sha256) (transport : Transport) (token : Text) (rail : RailConfig) (p : Payment)
    → check_rail rail ≡ ok tt
    → Yields
        (λ r.
          (r.evidence.settlement_block_number ≤ r.evidence.finality_block_number)
          × IsReadCode sha256 transport token r.evidence.settlement_block_number
              r.evidence.identity.token_code
          × ((str_eq rail.attestation.network_class "mainnet" ≡ false)
              ⊎ (rail.attestation.expected_code_sha256 ≡ some r.evidence.identity.token_code)))
        (reconcile_live sha256 transport token rail p)
reconcile_live_pinned sha256 transport token rail p checked =
    let valid = Ensures-eq_ok {P = λ u. IsValidRail rail} (check_rail-IsValidRail rail) checked in
    Yields-map (reconcile_live-IsProven sha256 transport token rail p) λ r h. rw h.evidence (
      confirmed-le rail.finality.minimum_confirmations h.s.finality_number h.s.number valid.deep
          h.settled.deep,
      h.code_read,
      elim (Bool-cases (str_eq rail.attestation.network_class "mainnet")) [
        | inl m ↦
            inr (same_code _ h.i.token_code (mainnet_pinned rail valid h.calibrated m) h.same_code)
        | inr n ↦ inl n
      ],
    )
