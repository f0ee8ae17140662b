-- ===== src/TokenQuirks.antt =====
-- src/psv/token_quirks.py: token decimals and fee-on-transfer arithmetic. What `Decimal(str(human))`
-- makes of an amount is the input of `to_atomic`.
pub mod Amounts
mod Tests
use psv.Base.{
  ℕ, suc, ◌+◌, ◌-◌, ◌*◌, ◌/◌, ◌%◌, ◌^◌, String, Bool, not, ◌&&◌, none, some, List, [], ◌∷◌, ltb,
  leb, ◌==◌, if◌then◌else◌, length, Result, ok, err, ◌>>=◌, ◌>>◌,
}
use psv.Base.Int.{ℤ, pos, negsuc, ◌+ℤ◌}
use psv.Value.{Value, bounded_int, uint256_max}

-- The ValueErrors of the module.
pub data QuirkError : Type 0 where
  bad_decimals bad_fee : QuirkError
  not_uint256 : String → QuirkError
  bad_human too_long malformed not_finite not_representable : QuirkError

-- `_decimals`
unfoldable pub decimals_of : Value → Result QuirkError ℕ
decimals_of value = elim (bounded_int 255 value) [ none ↦ err bad_decimals | some n ↦ ok n ]

-- `_uint256`
unfoldable pub uint256_of : Value → String → Result QuirkError ℕ
uint256_of value what = elim (bounded_int uint256_max value) [
  | none ↦ err (not_uint256 what)
  | some n ↦ ok n
]

-- `net_after_fee` on validated arguments.
unfoldable pub net_of : ℕ → ℕ → ℕ
net_of gross fee_bps = gross - gross * fee_bps / 10000

unfoldable pub net_after_fee : Value → Value → Result QuirkError ℕ
net_after_fee gross fee_bps = do
  amount ← uint256_of gross "gross"
  elim (bounded_int 10000 fee_bps) [ none ↦ err bad_fee | some bps ↦ ok (net_of amount bps) ]

unfoldable pub received_is_sufficient : Value → Value → Result QuirkError Bool
received_is_sufficient received required = do
  actual ← uint256_of received "received"
  expected ← uint256_of required "required"
  ok (leb expected actual)

unfoldable pub underpayment : Value → Value → Result QuirkError ℕ
underpayment received required = do
  actual ← uint256_of received "received"
  expected ← uint256_of required "required"
  ok (expected - actual)

-- What the argument of `to_atomic` is: of another type, a text of more than 1024 characters, no
-- decimal, infinite, not a number or negative, or the decimal of its digits and its exponent. The
-- digits of a `Decimal` have no zero in front, so they are as many as those of the coefficient.
pub data HumanAmount : Type 0 where
  unsupported oversized unparsable unusable : HumanAmount
  decimal : List ℕ → ℤ → HumanAmount

-- `int("".join(str(digit) for digit in digits) or "0")`
unfoldable pub coefficient_of : ℕ → List ℕ → ℕ
coefficient_of acc [] = acc
coefficient_of acc (d ∷ ds) = coefficient_of (acc * 10 + d) ds

-- `_uint256(atomic, "atomic amount")` of a number that is not negative.
unfoldable pub atomic_uint256 : ℕ → Result QuirkError ℕ
atomic_uint256 n = if leb n uint256_max then ok n else err (not_uint256 "atomic amount")

-- `to_atomic` once the amount has been scaled: `coefficient * 10 ** places`, or
-- `coefficient / 10 ** (places + 1)` below zero.
unfoldable pub scaled_amount : ℕ → ℕ → ℤ → Result QuirkError ℕ
unfolding atomic_uint256
scaled_amount coefficient digits (pos places) =
    if not (coefficient == 0) && ltb 78 (digits + places)
    then err (not_uint256 "atomic amount")
    else atomic_uint256 (coefficient * 10 ^ places)
scaled_amount coefficient digits (negsuc places) =
    if not (coefficient == 0) && ltb digits (suc places)
    then err not_representable
    else if coefficient % 10 ^ suc places == 0
    then atomic_uint256 (coefficient / 10 ^ suc places)
    else err not_representable

unfoldable pub scale_human : ℕ → HumanAmount → Result QuirkError ℕ
unfolding scaled_amount
scale_human places unsupported = err bad_human
scale_human places oversized = err too_long
scale_human places unparsable = err malformed
scale_human places unusable = err not_finite
scale_human places (decimal digits exponent) =
    scaled_amount (coefficient_of 0 digits) (length digits) (exponent +ℤ pos places)

unfoldable pub to_atomic : HumanAmount → Value → Result QuirkError ℕ
unfolding scale_human
to_atomic human decimals = do places ← decimals_of decimals; scale_human places human
