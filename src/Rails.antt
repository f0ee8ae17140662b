-- ===== src/Rails.antt =====
-- src/psv/rails.py: attested rails, and the read-only reconciliation of one settlement. Here are the
-- reviewed metadata and the checks of their constructors. The children are the rest.
pub mod Observed
pub mod Drift
pub mod Logs
pub mod Arguments
pub mod Settled
pub mod Live
pub mod Shown
pub mod Steps
pub mod Proven
pub mod Verdict
pub mod Matching
pub mod Valid
pub mod Known
pub mod Scenario
mod Tests
use psv.Base.{
  ℕ, String, Bool, true, false, not, ◌&&◌, ◌||◌, Option, none, some, List, [], ◌∷◌, leb, ◌==◌,
  str_eq, is_none, is_some, length, all, any, ◌>>=◌, ◌>>◌, raise_if,
}
use psv.Base.Int.{ℤ, pos, ltb_ℤ, leb_ℤ, eqb_ℤ}
use psv.Text.{Text, codes, text_eq}
use psv.Text.Hex.{is_hex_of}
use psv.Rpc.{value_error, Checked}

pub record FinalityPolicy : Type 0 where
  pub block_tag : Text
  pub minimum_confirmations : ℤ

-- `FinalityPolicy.__post_init__`
unfoldable pub check_finality : FinalityPolicy → Checked (Unit {0})
check_finality p = do
  raise_if
      (not (
        text_eq p.block_tag (codes "latest")
        || text_eq p.block_tag (codes "safe")
        || text_eq p.block_tag (codes "finalized")))
      (value_error "block_tag")
  raise_if (ltb_ℤ p.minimum_confirmations (pos 1)) (value_error "minimum_confirmations")

-- The day of the review is year, month and day.
pub record RailAttestation : Type 0 where
  pub version : String
  pub reviewed_on : ℕ × ℕ × ℕ
  pub authoritative_sources : List String
  pub interface : String
  pub network_class : String
  pub proxy_kind : String
  pub expected_decimals : ℤ
  pub domain_name : Option String
  pub domain_version : Option String
  pub reviewed_block_number : Option ℤ
  pub reviewed_block_hash : Option Text
  pub implementation_address : Option Text
  pub expected_code_sha256 : Option Text
  pub proxy_implementation_slot : Option Text
  pub implementation_code_sha256 : Option Text
  pub calibrated : Bool

abbrev pub one_of : String → List String → Bool
one_of s names = any (str_eq s) names

-- `_PROXY_KINDS`
abbrev pub proxy_kinds : List String
proxy_kinds = "none" ∷ "fiat-token-proxy" ∷ "vendor-proxy" ∷ "erc1967-proxy" ∷ "unknown" ∷ []

-- `re.fullmatch(r"[0-9a-f]{64}", s)`
unfoldable pub is_sha256_text : Text → Bool
is_sha256_text s =
    length s == 64 && all (λ c. leb b'0' c && leb c b'9' || leb b'a' c && leb c b'f') s

-- `v is not None and not test(v)`
abbrev pub fails : {A : Type 0} → (A → Bool) → Option A → Bool
fails test none = false
fails test (some a) = not (test a)

abbrev pub both_or_neither : Bool → Bool → Bool
both_or_neither a b = a && b || not a && not b

abbrev pub outside_decimals : ℤ → Bool
outside_decimals z = not (leb_ℤ (pos 0) z && leb_ℤ z (pos 36))

-- A calibrated rail of a mainnet names the reviewed block, the code, and what is behind a proxy.
unfoldable pub is_pinned : RailAttestation → Bool
is_pinned a =
    is_some a.reviewed_block_number
    && is_some a.expected_code_sha256
    && (str_eq a.proxy_kind "none"
        || is_some a.implementation_address
          && is_some a.proxy_implementation_slot
          && is_some a.implementation_code_sha256)

abbrev pub is_empty : {A : Type 0} → List A → Bool
is_empty [] = true
is_empty (a ∷ rest) = false

-- `RailAttestation.__post_init__`
unfoldable pub check_attestation : RailAttestation → Checked (Unit {0})
unfolding is_pinned is_sha256_text
check_attestation a = do
  raise_if (str_eq a.version "" || is_empty a.authoritative_sources) (value_error "version")
  raise_if (not (str_eq a.interface "eip3009")) (value_error "interface")
  raise_if (not (one_of a.network_class ("local" ∷ "testnet" ∷ "mainnet" ∷ [])))
      (value_error "network_class")
  raise_if (not (one_of a.proxy_kind proxy_kinds)) (value_error "proxy_kind")
  raise_if (outside_decimals a.expected_decimals) (value_error "expected_decimals")
  raise_if (not (both_or_neither (is_none a.reviewed_block_number) (is_none a.reviewed_block_hash)))
      (value_error "reviewed block")
  raise_if (fails (leb_ℤ (pos 0)) a.reviewed_block_number) (value_error "reviewed_block_number")
  raise_if (fails (is_hex_of 64) a.reviewed_block_hash) (value_error "reviewed_block_hash")
  raise_if (fails is_sha256_text a.expected_code_sha256) (value_error "expected_code_sha256")
  raise_if (fails (is_hex_of 40) a.implementation_address) (value_error "implementation_address")
  raise_if (fails (is_hex_of 64) a.proxy_implementation_slot)
      (value_error "proxy_implementation_slot")
  raise_if (fails is_sha256_text a.implementation_code_sha256)
      (value_error "implementation_code_sha256")
  raise_if (str_eq a.network_class "mainnet" && a.calibrated && not (is_pinned a))
      (value_error "calibrated")

pub record RailConfig : Type 0 where
  pub key : String
  pub label : String
  pub chain_id : ℤ
  pub token_address : Text
  pub decimals : ℤ
  pub token_name : Option String
  pub token_version : Option String
  pub finality : FinalityPolicy
  pub attestation : RailAttestation
  pub signing_enabled : Bool

abbrev pub option_eq : Option String → Option String → Bool
option_eq none none = true
option_eq (some s) (some t) = str_eq s t
option_eq _ _ = false

-- `RailConfig.__post_init__`; its policy and its attestation have been constructed before.
unfoldable pub check_rail : RailConfig → Checked (Unit {0})
unfolding check_finality check_attestation
check_rail r = do
  check_finality r.finality
  check_attestation r.attestation
  raise_if (leb_ℤ r.chain_id (pos 0)) (value_error "chain_id")
  raise_if (not (is_hex_of 40 r.token_address)) (value_error "token_address")
  raise_if (outside_decimals r.decimals) (value_error "decimals")
  raise_if r.signing_enabled (value_error "signing_enabled")
  raise_if (not (eqb_ℤ r.attestation.expected_decimals r.decimals)) (value_error "decimals")
  raise_if
      (not (
        option_eq r.attestation.domain_name r.token_name
        && option_eq r.attestation.domain_version r.token_version))
      (value_error "domain")
