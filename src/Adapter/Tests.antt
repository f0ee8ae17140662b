-- ===== src/Adapter/Tests.antt =====
-- A quote and an answer to `pay` as they come over the wire.
use psv.Adapter.Parsed.{parse_quote-IsValid, IsValid}
use psv.Base.{◌≡◌, refl, false, none, some, ok, ◌>>=◌}
use psv.Text.{Text, codes, text_eq, starts_with, is_hex_digit}
use psv.Value.{Value, bool, str, dict, end, field, get}
use psv.Adapter.{Quote, PayResult, parse_quote, parse_pay}

abbrev usdc : Text
usdc = codes "0x5FbDB2315678afecb367f032d93F642f64180aa3"

abbrev quoted : Quote
quoted = record {
  order_id = codes "ord_1";
  amount = 10000;
  pay_to = usdc;
  asset = usdc;
  network = codes "eip155:31337";
  token_name = codes "USDC";
  token_version = codes "2";
}

abbrev body : Value
body = dict (
    field "order_id" (str (codes "ord_1")) (
      field "amount" (str (codes "10000")) (
        field "payTo" (str usdc) (
          field "asset" (str usdc) (
            field "network" (str (codes "eip155:31337")) (
              field "extra"
                (dict (field "name" (str (codes "USDC")) (field "version" (str (codes "2")) end)))
                end))))))

quote_parses : parse_quote body ≡ ok quoted
unfolding parse_quote psv.Base.◌>>=◌ psv.Value.get psv.Adapter.body_object psv.Adapter.required
    psv.Adapter.wire_string psv.Adapter.wire_string_or_null psv.Adapter.parse_order_id
    psv.Adapter.parse_address psv.Adapter.transaction_hash psv.Adapter.parse_boolean
    psv.Adapter.is_positive_decimal psv.Adapter.is_canonical_decimal psv.Adapter.decimal_int
    psv.Adapter.positive_uint256 psv.Adapter.network_group psv.Adapter.network_of
    psv.Adapter.parse_network psv.Adapter.matching_order_id psv.Safety.decimal_value
    psv.Text.starts_with codes psv.Text.text_eq psv.Text.Hex.is_hex_of psv.Text.is_hex_digit
    psv.Adapter.settlement_pending
quote_parses = refl

parse_quote-IsValid_example : IsValid quoted
parse_quote-IsValid_example = parse_quote-IsValid body quoted quote_parses

abbrev unconfirmed : PayResult
unconfirmed = record {
  order_id = codes "ord_1";
  submitted_tx = none;
  is_settled = false;
  reason = some (codes "settlement_pending");
}

pay_parses :
    parse_pay
      (dict (
        field "order_id"
          (str (codes "ord_1"))
          (field "settled" (bool false) (field "reason" (str (codes "settlement_pending")) end))))
      (some (codes "ord_1"))
    ≡ ok unconfirmed
unfolding parse_pay psv.Base.◌>>=◌ psv.Value.get psv.Adapter.body_object psv.Adapter.required
    psv.Adapter.wire_string psv.Adapter.wire_string_or_null psv.Adapter.parse_order_id
    psv.Adapter.parse_address psv.Adapter.transaction_hash psv.Adapter.parse_boolean
    psv.Adapter.is_positive_decimal psv.Adapter.is_canonical_decimal psv.Adapter.decimal_int
    psv.Adapter.positive_uint256 psv.Adapter.network_group psv.Adapter.network_of
    psv.Adapter.parse_network psv.Adapter.matching_order_id psv.Safety.decimal_value
    psv.Text.starts_with codes psv.Text.text_eq psv.Text.Hex.is_hex_of psv.Text.is_hex_digit
    psv.Adapter.settlement_pending
pay_parses = refl
