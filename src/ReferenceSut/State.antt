-- ===== src/ReferenceSut/State.antt =====
-- The configuration, the orders and the ledger of src/psv/reference_sut/server.py, and what the
-- outside answers to one request. The clock, the random order ids, hashing, signing and the JSON-RPC
-- client are such answers. A dict of orders is the list of its orders, in insertion order, under
-- their own `order_id`.
use psv.Text.Hex.{int16}
use psv.Base.{
  ℕ, String, Bool, false, Option, none, some, List, [], ◌∷◌, if◌then◌else◌, Result, ok, err,
}
use psv.Base.Int.{ℤ, pos}
use psv.Text.{Text, text_eq}
use psv.Value.{Value, Fields, int, str, get}
use psv.QuoteOption.{QuoteError, ToleranceInput}
use psv.Safety.{SafetyError, SafetyRpc}
use psv.Chain.{ChainError}
use psv.Reconciliation.Fields.{ReconciliationError}
use psv.Reconciliation.Credit.{SettlementIdentity}

-- What a request of the reference system may raise. `rpc_error` is the client's RpcError, and
-- `client_error` its ValueErrors, like that of a bound on the receipt polls that is not positive.
pub data SutError : Type 0 where
  rpc_error client_error type_error value_error : SutError
  key_error : String → SutError
  safety_error : SafetyError → SutError
  chain_error : ChainError → SutError
  quote_error : QuoteError → SutError
  reconciliation_error : ReconciliationError → SutError

abbrev pub Answer : Type 0 → Type 0
Answer A = Result SutError A

pub record SutConfig : Type 0 where
  pub token_address : Text
  pub merchant_address : Text
  pub chain_id : ℤ
  pub token_name : Text
  pub token_version : Text
  pub price : ℤ
  pub gas : ℤ
  pub reconciliation_enabled : Bool
  pub quote_ttl : ℤ
  pub reprice_on_pay : Bool
  pub reprice_tolerance : ToleranceInput
  pub idempotent_pay : Bool
  pub confirm_without_waiting : Bool
  pub receipt_tries : ℤ

-- `_Order`
pub record Order : Type 0 where
  pub order_id : Text
  pub amount : ℤ
  pub expires_at : ℤ
  pub quoted_fair_price : ℤ
  pub nonce_seen : Option Text
  pub paid : Bool
  pub submitted_tx : Option Text
  pub resource : Option Text
  pub created_block : ℤ
  pub recovered : Bool
  pub settle_attempts : ℕ
  pub pending_tx : Option Text
  pub pending_authorization : Option Fields
  pub settlement_identity : Option SettlementIdentity

-- `_Order(...)` with its four arguments and the defaults of the rest.
unfoldable pub new_order : Text → ℤ → ℤ → ℤ → Order
new_order order_id amount expires_at quoted_fair_price = record {
  order_id = order_id;
  amount = amount;
  expires_at = expires_at;
  quoted_fair_price = quoted_fair_price;
  nonce_seen = none;
  paid = false;
  submitted_tx = none;
  resource = none;
  created_block = pos 0;
  recovered = false;
  settle_attempts = 0;
  pending_tx = none;
  pending_authorization = none;
  settlement_identity = none;
}

-- `ReferenceSut`: the movable fair price, and the orders.
pub record Sut : Type 0 where
  pub fair_price : ℤ
  pub orders : List Order

-- `self.orders.get(order_id)`
unfoldable pub find_order : Text → List Order → Option Order
find_order i [] = none
find_order i (o ∷ os) = if text_eq o.order_id i then some o else find_order i os

-- `self.orders[order.order_id] = order`
unfoldable pub put_order : Order → List Order → List Order
put_order p [] = p ∷ []
put_order p (o ∷ os) = if text_eq o.order_id p.order_id then p ∷ os else o ∷ put_order p os

-- The transaction that `_submit_settlement` signs; its value is 0.
pub record Transaction : Type 0 where
  pub recipient : Text
  pub payload : Text
  pub gas : ℤ
  pub gas_price : ℤ
  pub nonce : ℤ
  pub chain_id : ℤ

-- The answers of the outside to one request.
pub record Outside : Type 0 where
  pub now : ℤ
  pub order_token : Text
  pub block_number : Answer ℤ
  pub safety_rpc : SafetyRpc
  pub transaction_count : Answer Value
  pub gas_price : Answer Value
  pub sign_transaction : Transaction → Answer Text
  pub send_raw_transaction : Text → Answer Text
  pub wait_for_receipt : Text → ℤ → Answer Fields
  pub get_logs : Text → List (Option Text) → ℤ → Answer (List Fields)
  -- `str(v)` of what is no text.
  pub render : Value → Text
  -- `int(v)` of what is no int.
  pub read_int : Value → Option ℤ
  -- The hex digest of `sha256` of the text of an identity.
  pub identity_digest : SettlementIdentity → Text

-- `str(v)`
abbrev pub text_of : Outside → Value → Text
text_of out (str s) = s
text_of out v = out.render v

-- `int(v)`
abbrev pub int_of : Outside → Value → Option ℤ
int_of out (int z) = some z
int_of out v = out.read_int v

-- `d[k]`
abbrev pub item : String → Fields → Answer Value
item k d = elim (get k d) [ none ↦ err (key_error k) | some v ↦ ok v ]

-- `str(d[k])`
abbrev pub text_item : Outside → String → Fields → Answer Text
text_item out k d = elim (get k d) [ none ↦ err (key_error k) | some v ↦ ok (text_of out v) ]

-- `int(d[k])`
abbrev pub int_item : Outside → String → Fields → Answer ℤ
int_item out k d = elim (get k d) [
  | none ↦ err (key_error k)
  | some v ↦ elim (int_of out v) [ none ↦ err value_error | some z ↦ ok z ]
]

-- `int(v, 16)`
abbrev pub int_base16 : Value → Answer ℤ
int_base16 (str s) = elim (int16 s) [ none ↦ err value_error | some z ↦ ok z ]
int_base16 _ = err type_error
