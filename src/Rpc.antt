-- ===== src/Rpc.antt =====
-- src/psv/anvil.py: the strict JSON-RPC client. Here are the bounds on a decoded answer, and the
-- scalars of the protocol; the records and the client are in the children.

pub mod Evidence
pub mod Exec
pub mod Client
pub mod Blocks
pub mod Methods
pub mod Reads
pub mod Bounded
pub mod Numerals
pub mod Envelope
pub mod Waiting
pub mod Accepted
pub mod Scripted
mod Tests
use psv.Base.{
  ℕ, zero, suc, ◌+◌, ◌*◌, ◌/◌, ◌%◌, String, Bool, false, not, ◌&&◌, ◌||◌, Option, none, some, [],
  ◌∷◌, ◌++◌, ltb, ◌==◌, if◌then◌else◌, length, drop, all, Result, ok, err, ◌>>=◌, ◌>>◌, raise_if,
}
use psv.Base.Int.{pos}
use psv.Text.{Text, codes, text_eq, is_hex_digit}
use psv.Value.{
  Value, Values, Fields, null, bool, int, float, str, list, dict, nil, cons, end, field, to_list,
}
use psv.Text.Hex.{is_hex_of, hex_fold}
use psv.Chain.{hex_digit}

-- RpcError and ValueError with the field that the message names, and the subclass of RpcError that
-- src/psv/rails.py raises.
pub data RpcFailure : Type 0 where
  rpc_error value_error evidence_error : String → RpcFailure

abbrev pub Checked : Type 0 → Type 0
Checked A = Result RpcFailure A

-- _MAX_RPC_LIST_ITEMS
abbrev pub max_list_items : ℕ
max_list_items = 10_000

-- _MAX_RPC_OBJECT_FIELDS
abbrev pub max_object_fields : ℕ
max_object_fields = 256

-- _MAX_RPC_STRING_CHARS
abbrev pub max_string_chars : ℕ
max_string_chars = 2 * 1024 * 1024

-- _MAX_RPC_DEPTH
abbrev pub max_depth : ℕ
max_depth = 16

-- `len(d)`
abbrev pub field_count : Fields → ℕ
field_count end = 0
field_count (field k v fs) = suc (field_count fs)

-- `depth > _MAX_RPC_DEPTH`, which is tested before the value is looked at
unfoldable pub within_depth : ℕ → Checked (Unit {0})
within_depth depth = raise_if (ltb max_depth depth) (rpc_error "nesting")

-- The rest of `_bounded_json`, over values, the items of a list and the members of an object; the
-- test of the depth stands at each call.
unfoldable mutual
  pub bounded_value : Value → ℕ → Checked (Unit {0})
  bounded_value (str s) depth = raise_if (ltb max_string_chars (length s)) (rpc_error "string")
  bounded_value (float finite) depth = raise_if (not finite) (rpc_error "number")
  bounded_value (list vs) depth = do
    raise_if (ltb max_list_items (length (to_list vs))) (rpc_error "list")
    bounded_items vs (depth + 1)
  bounded_value (dict fs) depth = do
    raise_if (ltb max_object_fields (field_count fs)) (rpc_error "object")
    bounded_fields fs (depth + 1)
  bounded_value null depth = ok tt
  bounded_value (bool b) depth = ok tt
  bounded_value (int z) depth = ok tt

  pub bounded_items : Values → ℕ → Checked (Unit {0})
  bounded_items nil depth = ok tt
  bounded_items (cons v vs) depth = do
    within_depth depth
    bounded_value v depth
    bounded_items vs depth

  pub bounded_fields : Fields → ℕ → Checked (Unit {0})
  bounded_fields end depth = ok tt
  bounded_fields (field k v fs) depth = do
    within_depth depth
    bounded_value v depth
    bounded_fields fs depth

-- `_bounded_json`
unfoldable pub bounded_json : Value → ℕ → Checked (Unit {0})
bounded_json v depth = do within_depth depth; bounded_value v depth

-- `re.fullmatch(r"0x(?:0|[1-9a-fA-F][0-9a-fA-F]*)", s)`
unfoldable pub is_quantity_text : Text → Bool
unfolding is_hex_digit
is_quantity_text (a ∷ b ∷ c ∷ s) =
    a == b'0'
    && b == b'x'
    && is_hex_digit c
    && all is_hex_digit s
    && (not (c == b'0') || length s == 0)
is_quantity_text _ = false

-- `_quantity`; `int` of a text that matched has no sign, blank or underscore to skip.
unfoldable pub quantity : Value → String → Checked ℕ
unfolding is_quantity_text hex_fold
quantity (str s) what =
    if is_quantity_text s
    then elim (hex_fold 0 (drop 2 s)) [ none ↦ err (rpc_error what) | some n ↦ ok n ]
    else err (rpc_error what)
quantity _ what = err (rpc_error what)

-- `re.fullmatch(r"0x(?:[0-9a-fA-F]{2})*", s)`
unfoldable pub is_data_text : Text → Bool
unfolding is_hex_digit
is_data_text (a ∷ b ∷ s) = a == b'0' && b == b'x' && all is_hex_digit s && length s % 2 == 0
is_data_text _ = false

-- `_data`
unfoldable pub hex_data : Value → String → Checked Text
unfolding is_data_text
hex_data (str s) what = if is_data_text s then ok s else err (rpc_error what)
hex_data _ what = err (rpc_error what)

-- `_hash`
unfoldable pub hash : Value → String → Checked Text
hash (str s) what = if is_hex_of 64 s then ok s else err (rpc_error what)
hash _ what = err (rpc_error what)

-- `_address`
unfoldable pub address : Value → String → Checked Text
address (str s) what = if is_hex_of 40 s then ok s else err (rpc_error what)
address _ what = err (rpc_error what)

-- `_address(..., nullable=True)`
unfoldable pub nullable_address : Value → String → Checked (Option Text)
unfolding address
nullable_address null what = ok none
nullable_address v what = do s ← address v what; ok (some s)

-- The digits of `hex(n)`, written in front of `rest`; the first number counts the divisions left.
unfoldable pub hex_digits : ℕ → ℕ → Text → Text
unfolding hex_digit
hex_digits zero n rest = rest
hex_digits (suc fuel) n rest =
    let more = hex_digits fuel (n / 16) (hex_digit (n % 16) ∷ rest) in
    if ltb n 16 then hex_digit n ∷ rest else more

-- `hex(n)`, which has at most `n + 1` digits
unfoldable pub hex_of : ℕ → Text
unfolding hex_digits
hex_of n = codes "0x" ++ hex_digits (n + 1) n []

-- `block in _BLOCK_TAGS`
abbrev pub is_block_tag : Text → Bool
is_block_tag s =
    text_eq s (codes "earliest")
    || text_eq s (codes "latest")
    || text_eq s (codes "pending")
    || text_eq s (codes "safe")
    || text_eq s (codes "finalized")

-- `_block_param`
unfoldable pub block_param : Value → Checked Text
unfolding hex_of
block_param (int (pos n)) = ok (hex_of n)
block_param (str s) = if is_block_tag s then ok s else err (value_error "block")
block_param _ = err (value_error "block")
