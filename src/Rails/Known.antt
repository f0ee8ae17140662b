-- ===== src/Rails/Known.antt =====
-- `_attestation` of src/psv/rails.py, from which the known rails are built.
pub mod First
pub mod Second
pub mod Lookup
use psv.Base.{ℕ, String, Bool, Option, none, some, List, str_eq}
use psv.Base.Int.{ℤ}
use psv.Text.{Text}
use psv.Rails.{RailAttestation}

-- The keyword arguments of `_attestation`, with the values of those that a rail leaves out.
pub record Reviewed : Type 0 where
  pub sources : List String
  pub network_class : String
  pub proxy_kind : String
  pub decimals : ℤ
  pub domain_name : Option String
  pub domain_version : Option String
  pub calibrated : Option Bool
  pub reviewed_block_number : Option ℤ
  pub reviewed_block_hash : Option Text
  pub expected_code_sha256 : Option Text
  pub implementation_address : Option Text
  pub proxy_implementation_slot : Option Text
  pub implementation_code_sha256 : Option Text
  pub reviewed_on : ℕ × ℕ × ℕ
  pub version : String

-- `network_class == "local" if calibrated is None else calibrated`
abbrev pub or_local : Option Bool → String → Bool
or_local none network_class = str_eq network_class "local"
or_local (some b) network_class = b

-- `_attestation`
abbrev pub attestation : Reviewed → RailAttestation
attestation r = record {
  version = r.version;
  reviewed_on = r.reviewed_on;
  authoritative_sources = r.sources;
  interface = "eip3009";
  network_class = r.network_class;
  proxy_kind = r.proxy_kind;
  expected_decimals = r.decimals;
  domain_name = r.domain_name;
  domain_version = r.domain_version;
  reviewed_block_number = r.reviewed_block_number;
  reviewed_block_hash = r.reviewed_block_hash;
  implementation_address = r.implementation_address;
  expected_code_sha256 = r.expected_code_sha256;
  proxy_implementation_slot = r.proxy_implementation_slot;
  implementation_code_sha256 = r.implementation_code_sha256;
  calibrated = or_local r.calibrated r.network_class;
}
