-- ===== src/Svm.antt =====
-- src/psv/svm_chain.py: the settlement truth of a Solana transaction, from the token balances in its
-- metadata; and the reviewed rails.
pub mod Truth
mod Tests
use psv.Base.{
  ℕ, ◌-◌, ◌^◌, String, Bool, true, false, not, ◌&&◌, ◌||◌, Option, none, some, List, [], ◌∷◌, ltb,
  leb, ◌==◌, str_eq, if◌then◌else◌, is_none, length, all, any, Result, ok, err, ◌>>=◌, ◌>>◌,
  raise_if,
}
use psv.Text.Spaces.{is_str_digit, is_str_decimal, digits_value}
use psv.Base.Int.{ℤ, pos, leb_ℤ, eqb_ℤ}
use psv.Text.{Text, codes, text_eq}
use psv.Value.{Value, Fields, null, str, list, dict, to_list, get, get_or_null}
use psv.Adapter.{is_digit}
use psv.Safety.{decimal_value, int_max_str_digits}
use psv.Divergence.{SettlementTruth, settlement_truth_from_balances}

-- SvmEvidenceError and the plain ValueErrors, with the field that the message names.
pub data SvmError : Type 0 where
  svm_evidence_error value_error : String → SvmError

abbrev pub Checked : Type 0 → Type 0
Checked A = Result SvmError A

abbrev is_between : ℕ → ℕ → ℕ → Bool
is_between low high c = leb low c && leb c high

-- `[1-9A-HJ-NP-Za-km-z]`
unfoldable pub is_base58_char : ℕ → Bool
is_base58_char c =
    is_between b'1' b'9' c
    || is_between b'A' b'H' c
    || is_between b'J' b'N' c
    || is_between b'P' b'Z' c
    || is_between b'a' b'k' c
    || is_between b'm' b'z' c

-- `_BASE58_RE.fullmatch(s)`
unfoldable pub is_base58 : Text → Bool
unfolding is_base58_char
is_base58 s = is_between 32 44 (length s) && all is_base58_char s

-- `_b58`, of an argument that is a text
unfoldable pub b58 : Text → String → Checked Text
b58 s what = if is_base58 s then ok s else err (svm_evidence_error what)

-- _U64_MAX
abbrev pub u64_max : ℕ
u64_max = 2 ^ 64 - 1

-- `s.isdigit()`, which the empty text is not
abbrev pub is_decimal : Text → Bool
is_decimal [] = false
is_decimal (c ∷ s) = all is_str_digit (c ∷ s)

-- `_amount`; `int` refuses a text of more than 4300 digits, and digits that are no decimal digits.
unfoldable pub amount : Value → String → Checked ℕ
amount (str s) what = do
  raise_if (not (is_decimal s)) (svm_evidence_error what)
  raise_if (ltb int_max_str_digits (length s) || not (all is_str_decimal s)) (value_error what)
  raise_if (ltb u64_max (digits_value 0 s)) (svm_evidence_error what)
  ok (digits_value 0 s)
amount _ what = err (svm_evidence_error what)

-- `value == s`
abbrev pub is_text : Text → Value → Bool
is_text s (str t) = text_eq t s
is_text s _ = false

-- `entry.get("owner") == owner and entry.get("mint") == mint`
abbrev pub is_account : Text → Text → Fields → Bool
is_account owner mint entry =
    is_text owner (get_or_null "owner" entry) && is_text mint (get_or_null "mint" entry)

-- The amount that an entry of the account holds.
unfoldable pub entry_amount : Value → String → Checked ℕ
unfolding amount
entry_amount (dict ui) what = amount (get_or_null "amount" ui) what
entry_amount _ what = err (svm_evidence_error what)

-- The loop of `_balance_for`: the amounts of the account's entries.
unfoldable pub found_amounts : Text → Text → String → List Value → Checked (List ℕ)
unfolding entry_amount
found_amounts owner mint what [] = ok []
found_amounts owner mint what (dict entry ∷ entries) =
    let rest = found_amounts owner mint what entries in
    if is_account owner mint entry
    then (do n ← entry_amount (get_or_null "uiTokenAmount" entry) what; more ← rest; ok (n ∷ more))
    else rest
found_amounts owner mint what (_ ∷ entries) = err (svm_evidence_error what)

-- `found[0] if found else 0`, where more than one is refused
abbrev pub at_most_one : String → List ℕ → Checked ℕ
at_most_one what [] = ok 0
at_most_one what (n ∷ []) = ok n
at_most_one what (n ∷ m ∷ ns) = err (svm_evidence_error what)

-- `_balance_for`
unfoldable pub balance_for : Text → Text → String → List Value → Checked ℕ
unfolding found_amounts
balance_for owner mint what entries = do
  found ← found_amounts owner mint what entries
  at_most_one what found

-- `isinstance(v, list)`
abbrev pub balance_list : Value → Checked (List Value)
balance_list (list vs) = ok (to_list vs)
balance_list _ = err (svm_evidence_error "balances")

-- `meta["err"] is None`
abbrev pub is_null : Value → Bool
is_null null = true
is_null _ = false

unfoldable pub settlement_truth_from_svm_meta : Value → Text → Text → Text → Checked SettlementTruth
unfolding b58 balance_for
settlement_truth_from_svm_meta (dict meta) mint payer_owner payee_owner = do
  _ ← b58 mint "mint"
  _ ← b58 payer_owner "payer_owner"
  _ ← b58 payee_owner "payee_owner"
  raise_if (text_eq payer_owner payee_owner) (svm_evidence_error "owners")
  raise_if (is_none (get "err" meta)) (svm_evidence_error "err")
  pre ← balance_list (get_or_null "preTokenBalances" meta)
  post ← balance_list (get_or_null "postTokenBalances" meta)
  payer_before ← balance_for payer_owner mint "pre payer" pre
  payer_after ← balance_for payer_owner mint "post payer" post
  payee_before ← balance_for payee_owner mint "pre payee" pre
  payee_after ← balance_for payee_owner mint "post payee" post
  ok (
      settlement_truth_from_balances (is_null (get_or_null "err" meta)) (pos payer_before)
        (pos payer_after) (pos payee_before) (pos payee_after))
settlement_truth_from_svm_meta _ mint payer_owner payee_owner = err (svm_evidence_error "meta")

pub record SvmRailAttestation : Type 0 where
  pub version : String
  pub reviewed_on : ℕ × ℕ × ℕ
  pub authoritative_sources : List String
  pub network_class : String
  pub expected_decimals : ℤ
  pub calibrated : Bool

abbrev pub outside_decimals : ℤ → Bool
outside_decimals z = not (leb_ℤ (pos 0) z && leb_ℤ z (pos 36))

-- `SvmRailAttestation.__post_init__`
unfoldable pub check_svm_attestation : SvmRailAttestation → Checked (Unit {0})
check_svm_attestation a = do
  raise_if (str_eq a.version "" || length a.authoritative_sources == 0) (value_error "version")
  raise_if (not (any (str_eq a.network_class) ("local" ∷ "testnet" ∷ "mainnet" ∷ [])))
      (value_error "network_class")
  raise_if (outside_decimals a.expected_decimals) (value_error "expected_decimals")

pub record SvmRailConfig : Type 0 where
  pub key : String
  pub label : String
  pub network : String
  pub mint : Text
  pub decimals : ℤ
  pub token_program : String
  pub attestation : SvmRailAttestation
  pub signing_enabled : Bool

-- SOLANA_NETWORKS and _TOKEN_PROGRAMS
abbrev pub solana_networks : List String
solana_networks =
    "solana:5eykt4UsFv8P8NJdTREpY1vzqKqZKvdp" ∷ "solana:EtWTRABZaYq6iMfeYKouRu166VU2xqa1"
    ∷ "solana:4uhcVJyU9pJkvQyS88uRDiswHXSCkY3z" ∷ []

abbrev pub token_programs : List String
token_programs =
    "TokenkegQfeZyiNwAJbNbGKPFXCWuBvf9Ss623VQ5DA" ∷ "TokenzQdBNbLqP5VEhdkAS6EPFLC1PHnBqCXEpPxuEb"
    ∷ []

-- `SvmRailConfig.__post_init__`; its attestation has been constructed before.
unfoldable pub check_svm_rail : SvmRailConfig → Checked (Unit {0})
unfolding check_svm_attestation is_base58
check_svm_rail r = do
  check_svm_attestation r.attestation
  raise_if (not (any (str_eq r.network) solana_networks)) (value_error "network")
  raise_if (not (is_base58 r.mint)) (value_error "mint")
  raise_if (not (any (str_eq r.token_program) token_programs)) (value_error "token_program")
  raise_if (outside_decimals r.decimals) (value_error "decimals")
  raise_if r.signing_enabled (value_error "signing_enabled")
  raise_if (not (eqb_ℤ r.attestation.expected_decimals r.decimals)) (value_error "decimals")

-- The value of SVM_RAILS.
abbrev pub usdc_solana_devnet : SvmRailConfig
usdc_solana_devnet = record {
  key = "usdc-solana-devnet";
  label = "USDC on Solana devnet";
  network = "solana:EtWTRABZaYq6iMfeYKouRu166VU2xqa1";
  mint = codes "4zMMC9srt5Ri5X14GAgXhaHii3GnPAEERYPJgZJDncDU";
  decimals = pos 6;
  token_program = "TokenkegQfeZyiNwAJbNbGKPFXCWuBvf9Ss623VQ5DA";
  attestation = record {
    version = "2026-07-19";
    reviewed_on = (2026, 7, 19);
    authoritative_sources =
        "https://developers.circle.com/stablecoins/usdc-contract-addresses" ∷ [];
    network_class = "testnet";
    expected_decimals = pos 6;
    calibrated = false;
  };
  signing_enabled = false;
}

-- `get_svm_rail`; `none` is its KeyError.
unfoldable pub get_svm_rail : String → Option SvmRailConfig
get_svm_rail key = if str_eq "usdc-solana-devnet" key then some usdc_solana_devnet else none
