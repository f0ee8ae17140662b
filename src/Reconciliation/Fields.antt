-- ===== src/Reconciliation/Fields.antt =====
-- The field validators of src/psv/reconciliation.py.
use psv.Base.{
  ℕ, ◌+◌, ◌*◌, String, Bool, false, not, ◌&&◌, ◌||◌, Option, none, some, ◌∷◌, ◌++◌, ltb, leb, ◌==◌,
  if◌then◌else◌, length, take, drop, Result, ok, err, ◌>>=◌, ◌>>◌, raise_if,
}
use psv.Base.Int.{ℤ, pos, negsuc}
use psv.Text.{Text, codes, text_eq, starts_with, lower, zeros}
use psv.Value.{Value, str, uint256_max}
use psv.Text.Hex.{int16, from_hex}

-- The messages of `ReconciliationError`, with the name of the field where the message has it.
-- `value_error` is the plain ValueError that `int(data, 16)` may raise, which is none of them.
pub data ReconciliationError : Type 0 where
  bad_hex bad_quantity quantity_range bad_padding : String → ReconciliationError
  bad_chain_id log_index_range block_number_range value_range : ReconciliationError
  bad_topics wrong_topic0 bad_removed : ReconciliationError
  cross_asset cross_recipient conflicting : ReconciliationError
  value_error : ReconciliationError

abbrev pub Checked : Type 0 → Type 0
Checked A = Result ReconciliationError A

-- `0 <= z <= _UINT256_MAX`
unfoldable pub as_uint256 : ℤ → Option ℕ
as_uint256 (pos n) = if leb n uint256_max then some n else none
as_uint256 (negsuc n) = none

abbrev pub or_raise {ℓ κ} : {E : Type ℓ} {A : Type κ} → E → Option A → Result E A
or_raise e none = err e
or_raise e (some a) = ok a

-- `_exact_hex`
unfoldable pub exact_hex : Value → ℕ → String → Checked Text
exact_hex (str s) size what =
    if not (starts_with s (codes "0x")) || not (length s == 2 + size * 2)
    then err (bad_hex what)
    else elim (from_hex (drop 2 s)) [ none ↦ err (bad_hex what) | some bytes ↦ ok (lower s) ]
exact_hex _ size what = err (bad_hex what)

-- `value[2] == "0"`
abbrev pub third_is_zero : Text → Bool
third_is_zero (a ∷ b ∷ c ∷ s) = c == b'0'
third_is_zero _ = false

-- `_quantity`
unfoldable pub quantity : Value → String → Checked ℕ
unfolding as_uint256
quantity (str s) what =
    if not (starts_with s (codes "0x"))
      || text_eq s (codes "0x")
      || ltb 3 (length s) && third_is_zero s
    then err (bad_quantity what)
    else (do
      z ← or_raise (bad_quantity what) (int16 (drop 2 s))
      or_raise (quantity_range what) (as_uint256 z))
quantity _ what = err (bad_quantity what)

-- `_address`
unfoldable pub address : Value → String → Checked Text
unfolding exact_hex
address v what = exact_hex v 20 what

-- `topic_addr`
unfoldable pub topic_addr : Text → Checked Text
unfolding address
topic_addr addr = do
  exact ← address (str addr) "address"
  ok (codes "0x" ++ zeros 24 ++ drop 2 exact)

-- `_addr_from_topic`: `exact[-40:]` of the 66 characters are those from position 26.
unfoldable pub addr_from_topic : Value → String → Checked Text
unfolding exact_hex
addr_from_topic topic what = do
  exact ← exact_hex topic 32 what
  raise_if (not (text_eq (take 24 (drop 2 exact)) (zeros 24))) (bad_padding what)
  ok (codes "0x" ++ drop 26 exact)
