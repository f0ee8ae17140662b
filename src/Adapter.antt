-- ===== src/Adapter.antt =====
-- src/psv/sut.py: the strict parsers of what a system under test answers. The HTTP transport and the
-- JSON decoder are not modelled: a body is a decoded value, whose members have each name once.
pub mod Parsed
mod Tests
use psv.Text.Hex.{is_hex_of}
use psv.Base.{
  ℕ, String, Bool, false, not, ◌&&◌, ◌||◌, Option, none, some, [], ◌∷◌, ltb, leb, ◌==◌,
  if◌then◌else◌, is_some, length, drop, all, any, Result, ok, err, ◌>>=◌, ◌>>◌, raise_if,
}
use psv.Text.{Text, codes, text_eq, starts_with}
use psv.Value.{Value, Fields, null, bool, str, dict, get, get_or_null, uint256_max}
use psv.Safety.{decimal_value, int_max_str_digits}

-- The messages of `SutAdapterError`, with the field or the body where the message has it, and the
-- plain ValueError of `int` on too many digits.
pub data AdapterError : Type 0 where
  not_an_object missing_field not_a_string string_size bad_order_id : String → AdapterError
  not_an_address not_a_tx_hash not_a_boolean not_an_amount amount_range : String → AdapterError
  not_a_network other_order contradictory too_many_digits : AdapterError

abbrev pub Parse : Type 0 → Type 0
Parse A = Result AdapterError A

pub record Quote : Type 0 where
  pub order_id : Text
  pub amount : ℕ
  pub pay_to : Text
  pub asset : Text
  pub network : Text
  pub token_name : Text
  pub token_version : Text

pub data PayOutcome : Type 0 where
  settled pending unsettled : PayOutcome

pub record PayResult : Type 0 where
  pub order_id : Text
  pub submitted_tx : Option Text
  pub is_settled : Bool
  pub reason : Option Text

-- SETTLEMENT_PENDING
unfoldable pub settlement_pending : Text
settlement_pending = codes "settlement_pending"

-- `reason == SETTLEMENT_PENDING`
abbrev pub is_pending : Option Text → Bool
is_pending none = false
is_pending (some r) = text_eq r settlement_pending

unfoldable pub outcome : PayResult → PayOutcome
outcome r =
    if r.is_settled
    then settled
    else if is_pending r.reason && is_some r.submitted_tx
    then pending
    else unsettled

pub record Status : Type 0 where
  pub order_id : Text
  pub paid : Bool
  pub resource : Option Text
  pub submitted_tx : Option Text

-- `_body_object`
unfoldable pub body_object : Value → String → Parse Fields
body_object (dict fs) what = ok fs
body_object _ what = err (not_an_object what)

-- `_required`
unfoldable pub required : Fields → String → Parse Value
required body name = elim (get name body) [ none ↦ err (missing_field name) | some v ↦ ok v ]

abbrev pub max_text_chars : ℕ
max_text_chars = 16384

abbrev pub max_order_id_chars : ℕ
max_order_id_chars = 256

-- `_wire_string`
unfoldable pub wire_string : Value → String → Parse Text
wire_string (str s) name =
    if length s == 0 || ltb max_text_chars (length s) then err (string_size name) else ok s
wire_string _ name = err (not_a_string name)

-- `_wire_string` with `nullable`
unfoldable pub wire_string_or_null : Value → String → Parse (Option Text)
wire_string_or_null null name = ok none
wire_string_or_null v name = do s ← wire_string v name; ok (some s)

abbrev is_control : ℕ → Bool
is_control c = ltb c 32

-- `_order_id`
unfoldable pub parse_order_id : Value → String → Parse Text
parse_order_id value name = do
  s ← wire_string value name
  raise_if (ltb max_order_id_chars (length s) || any is_control s) (bad_order_id name)
  ok s

-- `_address`
unfoldable pub parse_address : Value → String → Parse Text
parse_address (str s) name = if is_hex_of 40 s then ok s else err (not_an_address name)
parse_address _ name = err (not_an_address name)

-- `_transaction_hash`
unfoldable pub transaction_hash : Value → String → Parse (Option Text)
transaction_hash null name = ok none
transaction_hash (str s) name = if is_hex_of 64 s then ok (some s) else err (not_a_tx_hash name)
transaction_hash _ name = err (not_a_tx_hash name)

-- `_boolean`
unfoldable pub parse_boolean : Value → String → Parse Bool
parse_boolean (bool b) name = ok b
parse_boolean _ name = err (not_a_boolean name)

abbrev pub is_digit : ℕ → Bool
is_digit c = leb b'0' c && leb c b'9'

-- `[1-9][0-9]*`
unfoldable pub is_positive_decimal : Text → Bool
is_positive_decimal [] = false
is_positive_decimal (c ∷ s) = leb b'1' c && leb c b'9' && all is_digit s

-- `_AMOUNT_RE`
unfoldable pub is_canonical_decimal : Text → Bool
unfolding is_positive_decimal
is_canonical_decimal s = text_eq s (codes "0") || is_positive_decimal s

-- `int(s)` of a text of decimal digits
unfoldable pub decimal_int : Text → Parse ℕ
decimal_int s =
    if ltb int_max_str_digits (length s) then err too_many_digits else ok (decimal_value 0 s)

-- `_positive_uint256`
unfoldable pub positive_uint256 : Value → String → Parse ℕ
positive_uint256 (str s) name = do
  raise_if (not (is_canonical_decimal s)) (not_an_amount name)
  n ← decimal_int s
  raise_if (not (leb 1 n && leb n uint256_max)) (amount_range name)
  ok n
positive_uint256 _ name = err (not_an_amount name)

-- `_NETWORK_RE.fullmatch(s)`, with its group
unfoldable pub network_group : Text → Option Text
network_group s =
    if starts_with s (codes "eip155:") && is_positive_decimal (drop 7 s)
    then some (drop 7 s)
    else none

-- `_network`, by the match.
unfoldable pub network_of : Text → Option Text → Parse Text
network_of s none = err not_a_network
network_of s (some group) = do
  n ← decimal_int group
  raise_if (ltb uint256_max n) not_a_network
  ok s

-- `_network`
unfoldable pub parse_network : Value → Parse Text
unfolding network_of
parse_network (str s) = network_of s (network_group s)
parse_network _ = err not_a_network

-- `Quote.chain_id`
unfoldable pub chain_id : Quote → Parse ℕ
chain_id q = elim (network_group q.network) [
  | none ↦ err not_a_network
  | some group ↦ decimal_int group
]

-- `expected_order_id is not None and result != expected_order_id`
abbrev pub is_other : Option Text → Text → Bool
is_other none s = false
is_other (some e) s = not (text_eq s e)

-- `_matching_order_id`
unfoldable pub matching_order_id : Fields → Option Text → Parse Text
matching_order_id body expected_order_id = do
  v ← required body "order_id"
  result ← parse_order_id v "order_id"
  raise_if (is_other expected_order_id result) other_order
  ok result

unfoldable pub parse_quote : Value → Parse Quote
parse_quote body = do
  parsed ← body_object body "quote"
  extra_value ← required parsed "extra"
  extra ← body_object extra_value "quote.extra"
  name_value ← required extra "name"
  name ← wire_string name_value "extra.name"
  version_value ← required extra "version"
  version ← wire_string version_value "extra.version"
  order_id ← matching_order_id parsed none
  amount_value ← required parsed "amount"
  amount ← positive_uint256 amount_value "amount"
  pay_to_value ← required parsed "payTo"
  pay_to ← parse_address pay_to_value "payTo"
  asset_value ← required parsed "asset"
  asset ← parse_address asset_value "asset"
  network_value ← required parsed "network"
  network ← parse_network network_value
  ok (record {
    order_id = order_id;
    amount = amount;
    pay_to = pay_to;
    asset = asset;
    network = network;
    token_name = name;
    token_version = version;
  })

unfoldable pub parse_pay : Value → Option Text → Parse PayResult
parse_pay body expected_order_id = do
  parsed ← body_object body "pay"
  settled_value ← required parsed "settled"
  is_settled ← parse_boolean settled_value "settled"
  reason ← wire_string_or_null (get_or_null "reason" parsed) "reason"
  raise_if (is_settled && is_pending reason) contradictory
  order_id ← matching_order_id parsed expected_order_id
  submitted_tx ← transaction_hash (get_or_null "submitted_tx" parsed) "submitted_tx"
  ok (record {
    order_id = order_id;
    submitted_tx = submitted_tx;
    is_settled = is_settled;
    reason = reason;
  })

unfoldable pub parse_status : Value → Option Text → Parse Status
parse_status body expected_order_id = do
  parsed ← body_object body "status"
  resource_value ← required parsed "resource"
  resource ← wire_string_or_null resource_value "resource"
  order_id ← matching_order_id parsed expected_order_id
  paid_value ← required parsed "paid"
  paid ← parse_boolean paid_value "paid"
  tx_value ← required parsed "submitted_tx"
  submitted_tx ← transaction_hash tx_value "submitted_tx"
  ok (record { order_id = order_id; paid = paid; resource = resource; submitted_tx = submitted_tx })
