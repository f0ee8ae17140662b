-- ===== src/Cli/Options.antt =====
-- The types of the arguments in src/psv/cli.py. The library of arguments itself, and the timeout,
-- which is a float, are not modelled; `urlsplit` is a parameter.
use psv.Base.{
  ℕ, zero, suc, ◌+◌, ◌-◌, ◌*◌, Bool, true, false, not, ◌&&◌, ◌||◌, Option, none, some, [], ◌∷◌, ltb,
  leb, ◌==◌, if◌then◌else◌, is_some, length, any, Result, ok, err, ◌>>=◌, ◌>>◌, raise_if,
}
use psv.Base.Int.{ℤ, pos, ◌-ℤ◌}
use psv.Text.{Text, codes, text_eq}
use psv.Value.{int, bounded_int, uint256_max}
use psv.Text.Hex.{is_hex_of, strip}
use psv.Safety.{int_max_str_digits}
use psv.Cli.{Request}

-- The messages of `argparse.ArgumentTypeError`.
pub data OptionError : Type 0 where
  not_an_address not_bytes32 not_an_integer not_uint256 not_positive : OptionError
  url_size bad_url url_scheme url_fragment url_credentials url_port bad_path : OptionError

abbrev pub Parsed : Type 0 → Type 0
Parsed A = Result OptionError A

-- `_address`
unfoldable pub address : Text → Parsed Text
address v = do raise_if (not (is_hex_of 40 v)) not_an_address; ok v

-- `_bytes32`
unfoldable pub bytes32 : Text → Parsed Text
bytes32 v = do raise_if (not (is_hex_of 64 v)) not_bytes32; ok v

abbrev pub is_digit : ℕ → Bool
is_digit c = leb b'0' c && leb c b'9'

-- The digits of `int(s, 10)`: one underscore may stand between two of them. `digit` says whether the
-- last character was a digit, and `room` how many more are converted.
unfoldable pub decimal_digits : ℕ → ℕ → Bool → Text → Option ℕ
decimal_digits room acc digit [] = if digit then some acc else none
decimal_digits zero acc digit (c ∷ s) =
    let rest = decimal_digits zero acc false s in if c == b'_' && digit then rest else none
decimal_digits (suc room) acc digit (c ∷ s) =
    let after_underscore = decimal_digits (suc room) acc false s in
    let after_digit = decimal_digits room (acc * 10 + (c - b'0')) true s in
    if c == b'_'
    then (if digit then after_underscore else none)
    else if is_digit c
    then after_digit
    else none

abbrev pub negated : Option ℕ → Option ℤ
negated none = none
negated (some n) = some (pos 0 -ℤ pos n)

abbrev pub as_integer : Option ℕ → Option ℤ
as_integer none = none
as_integer (some n) = some (pos n)

abbrev pub signed : Text → Option ℤ
signed [] = none
signed (c ∷ s) =
    if c == b'-'
    then negated (decimal_digits int_max_str_digits 0 false s)
    else if c == b'+'
    then as_integer (decimal_digits int_max_str_digits 0 false s)
    else as_integer (decimal_digits int_max_str_digits 0 false (c ∷ s))

-- `int(s, 10)`; `none` is its ValueError.
unfoldable pub int10 : Text → Option ℤ
int10 s = signed (strip s)

abbrev pub in_uint256 : Option ℤ → Parsed ℕ
in_uint256 none = err not_an_integer
in_uint256 (some z) = by (bounded_int uint256_max (int z))
  where
    by : Option ℕ → Parsed ℕ
    by none = err not_uint256
    by (some n) = ok n

-- `_uint256`
unfoldable pub uint256 : Text → Parsed ℕ
uint256 v = in_uint256 (int10 v)

-- `_positive_uint256`
unfoldable pub positive_uint256 : Text → Parsed ℕ
positive_uint256 v = do n ← uint256 v; raise_if (n == 0) not_positive; ok n

-- What `urlsplit` finds, where its `port` is a number or absent.
pub record SplitUrl : Type 0 where
  pub scheme : Text
  pub hostname : Option Text
  pub port : Option ℕ
  pub fragment : Text
  pub username : Option Text
  pub password : Option Text

-- An absent or empty text is false.
abbrev pub has_text : Option Text → Bool
has_text (some (c ∷ s)) = true
has_text _ = false

abbrev pub or_bad_url : Option SplitUrl → Parsed SplitUrl
or_bad_url none = err bad_url
or_bad_url (some u) = ok u

abbrev pub is_port : Option ℕ → Bool
is_port none = true
is_port (some n) = leb 1 n && leb n 65535

-- `_rpc_url`; `none` of `urlsplit` is a ValueError of its own or of `port`.
unfoldable pub rpc_url : (Text → Option SplitUrl) → Text → Parsed Text
rpc_url urlsplit v = do
  raise_if (ltb 2048 (length v) || any (λ c. c == 0) v) url_size
  u ← or_bad_url (urlsplit v)
  raise_if
      (not (text_eq u.scheme (codes "http") || text_eq u.scheme (codes "https"))
        || not (has_text u.hostname))
      url_scheme
  raise_if (has_text (some u.fragment)) url_fragment
  raise_if (is_some u.username || is_some u.password) url_credentials
  raise_if (not (is_port u.port)) url_port
  ok v

-- `_output_path`
unfoldable pub output_path : Text → Parsed Text
output_path v = do
  raise_if (length v == 0 || ltb 4096 (length v) || any (λ c. c == 0) v) bad_path
  ok v

-- The texts of the arguments that say what is asked, and which of the two flags was given.
pub record RawRequest : Type 0 where
  pub payer : Text
  pub payee : Text
  pub nonce : Text
  pub transaction_hash : Text
  pub log_index : Text
  pub required_amount : Text
  pub payer_before : Text
  pub payee_before : Text
  pub sut_paid : Bool

-- The types that `_build_parser` gives them.
unfoldable pub parse_request : RawRequest → Parsed Request
parse_request r = do
  payer ← address r.payer
  payee ← address r.payee
  nonce ← bytes32 r.nonce
  transaction_hash ← bytes32 r.transaction_hash
  log_index ← uint256 r.log_index
  required_amount ← positive_uint256 r.required_amount
  payer_before ← uint256 r.payer_before
  payee_before ← uint256 r.payee_before
  ok (record {
    payer = payer;
    payee = payee;
    nonce = nonce;
    transaction_hash = transaction_hash;
    log_index = pos log_index;
    required_amount = pos required_amount;
    payer_before = pos payer_before;
    payee_before = pos payee_before;
    sut_believes_paid = r.sut_paid;
  })
