-- ===== src/Safety.antt =====
-- src/psv/safety.py: the policy that is asked before a settlement is built and signed. The answers
-- of the node are parameters; an RpcError among them is passed on.
pub mod Policy
mod Tests
use psv.Text.Hex.{int16}
use psv.Base.{
  ℕ, ◌+◌, ◌-◌, ◌*◌, ◌%◌, ◌^◌, String, Bool, not, ◌&&◌, ◌||◌, none, some, List, [], ◌∷◌, ◌++◌, ltb,
  leb, ◌==◌, if◌then◌else◌, length, drop, all, any, Result, ok, err, ◌>>=◌, ◌>>◌, raise_if,
}
use psv.Base.Int.{ℤ, pos, leb_ℤ, eqb_ℤ}
use psv.Text.{Text, codes, text_eq, starts_with, remove_prefix_0x, lower}
use psv.Value.{Value, int, str}

-- The messages of `SettlementSafetyError`, the ValueError of `int` on a decimal of too many digits,
-- and the RpcError of a node that does not answer.
pub data SafetyError : Type 0 where
  not_an_address not_hexadecimal zero_address : String → SafetyError
  malformed_chain_id invalid_chain_id malformed_code no_code : SafetyError
  not_an_integer order_amount_range amount_mismatch : SafetyError
  chain_not_allowed chain_mismatch payee_mismatch : SafetyError
  too_many_digits rpc_error : SafetyError

-- `_require_address`
unfoldable pub require_address : Text → String → Result SafetyError Text
require_address value what =
    let hex = remove_prefix_0x value in
    if not (length hex == 40) then err (not_an_address what) else elim (int16 hex) [
      | none ↦ err (not_hexadecimal what)
      | some numeric ↦
          if eqb_ℤ numeric (pos 0) then err (zero_address what) else ok (codes "0x" ++ lower hex)
    ]

-- `_parse_chain_id`
unfoldable pub parse_chain_id : Value → Result SafetyError ℤ
parse_chain_id (str s) =
    if not (starts_with s (codes "0x")) then err malformed_chain_id else elim (int16 s) [
      | none ↦ err malformed_chain_id
      | some chain_id ↦ if leb_ℤ chain_id (pos 0) then err invalid_chain_id else ok chain_id
    ]
parse_chain_id _ = err malformed_chain_id

-- `_require_deployed_code`
unfoldable pub require_deployed_code : Value → Result SafetyError (Unit {0})
require_deployed_code (str s) =
    if not (starts_with s (codes "0x"))
    then err malformed_code
    else if length (drop 2 s) == 0
    then err no_code
    else elim (int16 (drop 2 s)) [
      | none ↦ err malformed_code
      | some numeric ↦
          if eqb_ℤ numeric (pos 0)
          then err no_code
          else if length (drop 2 s) % 2 == 0
          then ok tt
          else err malformed_code
    ]
require_deployed_code _ = err malformed_code

abbrev is_decimal_digit : ℕ → Bool
is_decimal_digit c = leb b'0' c && leb c b'9'

-- `s and s.isascii() and s.isdecimal()`
unfoldable pub is_decimal : Text → Bool
is_decimal s = not (length s == 0) && all is_decimal_digit s

-- `int(s)` of a text of decimal digits.
unfoldable pub decimal_value : ℕ → Text → ℕ
decimal_value acc [] = acc
decimal_value acc (c ∷ s) = decimal_value (acc * 10 + (c - b'0')) s

-- The number of digits that `int` converts at most.
abbrev pub int_max_str_digits : ℕ
int_max_str_digits = 4300

-- The amount that `_require_exact_amount` compares.
unfoldable pub amount_of : Value → Result SafetyError ℤ
amount_of (int z) = ok z
amount_of (str s) =
    if not (is_decimal s)
    then err not_an_integer
    else if ltb int_max_str_digits (length s)
    then err too_many_digits
    else ok (pos (decimal_value 0 s))
amount_of _ = err not_an_integer

-- `_require_exact_amount`
unfoldable pub require_exact_amount : Value → ℤ → Result SafetyError (Unit {0})
require_exact_amount raw expected = do
  amount ← amount_of raw
  raise_if (leb_ℤ expected (pos 0) || leb_ℤ (pos (2 ^ 256)) expected) order_amount_range
  raise_if (not (eqb_ℤ amount expected)) amount_mismatch

-- ALLOWED_SETTLEMENT_CHAIN_IDS
abbrev pub allowed_settlement_chain_ids : List ℤ
allowed_settlement_chain_ids = pos 1337 ∷ pos 31337 ∷ pos 84532 ∷ pos 11155111 ∷ []

-- `configured_chain_id in ALLOWED_SETTLEMENT_CHAIN_IDS`
abbrev pub is_allowed : ℤ → Bool
is_allowed chain_id = any (eqb_ℤ chain_id) allowed_settlement_chain_ids

-- The arguments of `require_safe_submission`, but for the node.
pub record Submission : Type 0 where
  pub configured_chain_id : ℤ
  pub token_address : Text
  pub payer_address : Text
  pub payee_address : Text
  pub authorization_to : Text
  pub authorization_amount : Value
  pub expected_amount : ℤ

-- What the node answers to `eth_chainId` and to `eth_getCode`.
pub record SafetyRpc : Type 0 where
  pub chain_id_answer : Result SafetyError Value
  pub get_code : Text → Result SafetyError Value

unfoldable pub require_safe_submission : SafetyRpc → Submission → Result SafetyError (Unit {0})
require_safe_submission rpc s = do
  raise_if (not (is_allowed s.configured_chain_id)) chain_not_allowed
  answer ← rpc.chain_id_answer
  actual_chain_id ← parse_chain_id answer
  raise_if (not (eqb_ℤ actual_chain_id s.configured_chain_id)) chain_mismatch
  token ← require_address s.token_address "token address"
  payer ← require_address s.payer_address "payer address"
  payee ← require_address s.payee_address "payee address"
  authorized_payee ← require_address s.authorization_to "authorization payee"
  raise_if (not (text_eq authorized_payee payee)) payee_mismatch
  done ← require_exact_amount s.authorization_amount s.expected_amount
  code ← rpc.get_code token
  require_deployed_code code
