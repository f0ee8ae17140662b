-- ===== src/Rails/Arguments.antt =====
-- The arguments of `reconcile_live` in src/psv/rails.py, and their checks.
use psv.Rpc.{value_error, Checked}
use psv.Rails.Observed.{exact_hash}
use psv.Text.Hex.{is_hex_of}
use psv.Base.{
  ℕ, String, Bool, not, Option, none, some, leb, if◌then◌else◌, ok, err, ◌>>=◌, ◌>>◌, raise_if,
}
use psv.Text.{Text}
use psv.Value.{Value, bool, str, bounded_int, uint256_max}

-- The keyword arguments.
pub record Payment : Type 0 where
  pub payer : Text
  pub payee : Text
  pub nonce : Text
  pub transaction_hash : Text
  pub log_index : Value
  pub required_amount : Value
  pub payer_before : Value
  pub payee_before : Value
  pub sut_believes_paid : Value

-- Those of them that are checked before the chain is read.
pub record Arguments : Type 0 where
  pub tx_hash : Text
  pub log_index : ℕ
  pub required_amount : ℕ
  pub payer_before : ℕ
  pub payee_before : ℕ
  pub believes : Bool

-- `type(v) is int and minimum <= v <= _UINT256_MAX`
abbrev pub at_least : ℕ → String → Option ℕ → Checked ℕ
at_least minimum what none = err (value_error what)
at_least minimum what (some n) = if leb minimum n then ok n else err (value_error what)

unfoldable pub uint256_from : ℕ → Value → String → Checked ℕ
uint256_from minimum v what = at_least minimum what (bounded_int uint256_max v)

unfoldable pub belief : Value → Checked Bool
belief (bool b) = ok b
belief _ = err (value_error "sut_believes_paid")

unfoldable pub check_arguments : Payment → Checked Arguments
unfolding uint256_from belief
check_arguments p = do
  tx_hash ← exact_hash (str p.transaction_hash) "transaction hash"
  raise_if (not (is_hex_of 64 p.nonce)) (value_error "nonce")
  log_index ← uint256_from 0 p.log_index "log_index"
  required_amount ← uint256_from 1 p.required_amount "required_amount"
  payer_before ← uint256_from 0 p.payer_before "payer_before"
  payee_before ← uint256_from 0 p.payee_before "payee_before"
  believes ← belief p.sut_believes_paid
  ok (record {
    tx_hash = tx_hash;
    log_index = log_index;
    required_amount = required_amount;
    payer_before = payer_before;
    payee_before = payee_before;
    believes = believes;
  })
