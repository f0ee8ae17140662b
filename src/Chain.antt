-- ===== src/Chain.antt =====
-- src/psv/chain.py: ABI words, calldata and reads of the token. `SettlementTruth` of the same file
-- is in Divergence.antt.
pub mod Words
use psv.Text.Hex.{int16, is_hex_of}
use psv.Base.{
  ℕ, zero, suc, ◌+◌, ◌-◌, ◌*◌, ◌/◌, ◌%◌, Bool, true, false, not, ◌||◌, Option, none, some, [], ◌∷◌,
  ◌++◌, ltb, leb, if◌then◌else◌, drop, Result, ok, err, ◌>>=◌, ◌>>◌, raise_if,
}
use psv.Base.Int.{ℤ, pos, eqb_ℤ}
use psv.Text.{Text, codes, lower, zeros}
use psv.Value.{Value, str, bounded_int, uint256_max}

-- The ValueErrors of the encoders and the RpcErrors of the reads; `node_error` is the RpcError of a
-- node that does not answer.
pub data ChainError : Type 0 where
  bad_address bad_uint bad_bytes32 zero_party bad_value bad_valid_after : ChainError
  bad_valid_before bad_window bad_signature bad_mode bad_bps : ChainError
  bad_word not_boolean node_error : ChainError

-- `_word_to_int`
unfoldable pub word_to_int : Value → Result ChainError ℤ
word_to_int (str s) =
    if is_hex_of 64 s then elim (int16 s) [ none ↦ err bad_word | some z ↦ ok z ] else err bad_word
word_to_int _ = err bad_word

-- `_slot_addr`; `rjust` puts 24 zeros in front of the 40 digits.
unfoldable pub slot_addr : Text → Result ChainError Text
slot_addr addr = if is_hex_of 40 addr then ok (zeros 24 ++ lower (drop 2 addr)) else err bad_address

-- A hex digit of a number below 16, as `format` writes it.
unfoldable pub hex_digit : ℕ → ℕ
hex_digit d = if ltb d 10 then b'0' + d else b'a' + (d - 10)

-- The last `width` hex digits of a number, which for a number below `16 ^ width` are the text that
-- `format` pads with zeros to that width.
unfoldable pub hex_word : ℕ → ℕ → Text
unfolding hex_digit
hex_word zero n = []
hex_word (suc width) n = hex_word width (n / 16) ++ hex_digit (n % 16) ∷ []

-- `_slot_uint`
unfoldable pub slot_uint : Value → Result ChainError Text
slot_uint value = elim (bounded_int uint256_max value) [
  | none ↦ err bad_uint
  | some n ↦ ok (hex_word 64 n)
]

-- `_slot_bytes32`
unfoldable pub slot_bytes32 : Text → Result ChainError Text
slot_bytes32 value = if is_hex_of 64 value then ok (lower (drop 2 value)) else err bad_bytes32

-- What the node answers to `eth_call` with the given calldata, at the pinned block.
pub record TokenView : Type 0 where
  pub eth_call : Text → Result ChainError Value

abbrev pub sel_balance_of : Text
sel_balance_of = codes "70a08231"

abbrev pub sel_authorization_state : Text
sel_authorization_state = codes "e94a0102"

abbrev pub sel_transfer_with_authorization : Text
sel_transfer_with_authorization = codes "cf092995"

abbrev pub sel_set_event_mode : Text
sel_set_event_mode = codes "2a030f44"

abbrev pub sel_set_fee_bps : Text
sel_set_fee_bps = codes "023b1fc9"

abbrev pub sel_mint : Text
sel_mint = codes "40c10f19"

unfoldable pub balance_of : TokenView → Text → Result ChainError ℤ
balance_of token who = do
  slot ← slot_addr who
  answer ← token.eth_call (codes "0x" ++ sel_balance_of ++ slot)
  word_to_int answer

unfoldable pub authorization_used : TokenView → Text → Text → Result ChainError Bool
authorization_used token authorizer nonce = do
  slot ← slot_addr authorizer
  nonce_slot ← slot_bytes32 nonce
  answer ← token.eth_call (codes "0x" ++ sel_authorization_state ++ slot ++ nonce_slot)
  result ← word_to_int answer
  if eqb_ℤ result (pos 0)
      then ok false
      else if eqb_ℤ result (pos 1)
      then ok true
      else err not_boolean

-- `int(addr[2:], 16) == 0`, of an address that has been validated
abbrev pub is_zero_address : Text → Bool
is_zero_address addr = elim (int16 (drop 2 addr)) [ none ↦ false | some z ↦ eqb_ℤ z (pos 0) ]

-- The keyword arguments of `settle_calldata`.
pub record Authorization : Type 0 where
  pub from_addr : Text
  pub to_addr : Text
  pub value : Value
  pub valid_after : Value
  pub valid_before : Value
  pub nonce : Text
  pub signature : Text

-- `type(v) is int and low <= v <= _UINT256_MAX`
abbrev pub uint_from : ℕ → Value → Option ℕ
uint_from low v = elim (bounded_int uint256_max v) [
  | none ↦ none
  | some n ↦ if leb low n then some n else none
]

abbrev pub or_raise : ChainError → Option ℕ → Result ChainError ℕ
or_raise e none = err e
or_raise e (some n) = ok n

unfoldable pub settle_calldata : Authorization → Result ChainError Text
settle_calldata a = do
  from_slot ← slot_addr a.from_addr
  to_slot ← slot_addr a.to_addr
  raise_if (is_zero_address a.from_addr || is_zero_address a.to_addr) zero_party
  value ← or_raise bad_value (uint_from 1 a.value)
  valid_after ← or_raise bad_valid_after (uint_from 0 a.valid_after)
  valid_before ← or_raise bad_valid_before (uint_from 1 a.valid_before)
  raise_if (leb valid_before valid_after) bad_window
  nonce_slot ← slot_bytes32 a.nonce
  raise_if (not (is_hex_of 130 a.signature)) bad_signature
  ok (
      codes "0x"
      ++ sel_transfer_with_authorization
      ++ from_slot
      ++ to_slot
      ++ hex_word 64 value
      ++ hex_word 64 valid_after
      ++ hex_word 64 valid_before
      ++ nonce_slot
      ++ hex_word 64 (7 * 32)
      ++ hex_word 64 65
      ++ lower (drop 2 a.signature)
      ++ zeros 62)

-- `type(mode) is int and mode in {0, 1}`
unfoldable pub set_event_mode_calldata : Value → Result ChainError Text
set_event_mode_calldata mode = do
  n ← or_raise bad_mode (bounded_int 1 mode)
  ok (codes "0x" ++ sel_set_event_mode ++ hex_word 64 n)

unfoldable pub set_fee_bps_calldata : Value → Result ChainError Text
set_fee_bps_calldata bps = do
  n ← or_raise bad_bps (bounded_int 10000 bps)
  ok (codes "0x" ++ sel_set_fee_bps ++ hex_word 64 n)

unfoldable pub mint_calldata : Text → Value → Result ChainError Text
mint_calldata to_addr amount = do
  n ← or_raise bad_value (uint_from 1 amount)
  slot ← slot_addr to_addr
  ok (codes "0x" ++ sel_mint ++ slot ++ hex_word 64 n)
