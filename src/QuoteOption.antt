-- ===== src/QuoteOption.antt =====
-- src/psv/quote_option.py: a quote as a free option (G3). A `Decimal` is the fraction of its
-- `as_integer_ratio`; what `Decimal(str(value))` makes of the argument is the input here.
pub mod Simulation
mod Tests
use psv.Base.{
  ℕ, ◌+◌, ◌-◌, ◌*◌, String, Bool, ◌&&◌, Option, none, some, List, [], ◌∷◌, ltb, leb, ◌==◌,
  if◌then◌else◌, length, Result, ok, err, ◌>>=◌, ◌>>◌,
}
use psv.Base.Int.{ℤ, pos, negsuc}
use psv.Value.{Value, bool, bounded_int, uint256_max}

-- The ValueErrors of the module.
pub data QuoteError : Type 0 where
  bad_amount : String → QuoteError
  tolerance_type tolerance_syntax tolerance_range bad_reprice bad_round loss_overflow : QuoteError

-- `_amount`
unfoldable pub amount : Value → String → Result QuoteError ℕ
amount value what = elim (bounded_int uint256_max value) [
  | none ↦ err (bad_amount what)
  | some n ↦ ok n
]

-- What the argument of `_tolerance` is: of another type, no decimal, infinite or not a number, or a
-- fraction with a positive denominator.
pub data ToleranceInput : Type 0 where
  unsupported malformed not_finite : ToleranceInput
  fraction : ℤ → ℕ → ToleranceInput

pub record Slack : Type 0 where
  pub numerator : ℕ
  pub denominator : ℕ

-- `_tolerance`
unfoldable pub tolerance : ToleranceInput → Result QuoteError Slack
tolerance unsupported = err tolerance_type
tolerance malformed = err tolerance_syntax
tolerance not_finite = err tolerance_range
tolerance (fraction (negsuc n) d) = err tolerance_range
tolerance (fraction (pos n) d) =
    if leb n d then ok (record { numerator = n; denominator = d }) else err tolerance_range

-- `max(0, fair - locked)`
unfoldable pub gain_of : ℕ → ℕ → ℕ
gain_of locked fair = fair - locked

unfoldable pub option_value : Value → Value → Result QuoteError ℕ
option_value locked_price fair_value_now = do
  locked ← amount locked_price "locked_price"
  fair ← amount fair_value_now "fair_value_now"
  ok (gain_of locked fair)

-- The comparison of `quote_is_stale` on validated values.
unfoldable pub is_stale : ℕ → ℕ → Slack → Bool
is_stale locked fair slack =
    if locked == 0
    then ltb 0 fair
    else ltb (locked * (slack.denominator + slack.numerator)) (fair * slack.denominator)

unfoldable pub quote_is_stale : Value → Value → ToleranceInput → Result QuoteError Bool
quote_is_stale locked_price fair_value_now tolerance_value = do
  locked ← amount locked_price "locked_price"
  fair ← amount fair_value_now "fair_value_now"
  slack ← tolerance tolerance_value
  ok (is_stale locked fair slack)

pub record Round : Type 0 where
  pub locked_price : Value
  pub fair_value_at_exercise : Value

pub record ExploitResult : Type 0 where
  pub rounds : ℕ
  pub exercised : ℕ
  pub system_loss : ℕ

unfoldable pub is_exploitable : ExploitResult → Bool
is_exploitable r = ltb 0 r.system_loss

-- The counters of the loop of `simulate_attacker`.
pub record Tally : Type 0 where
  pub exercised : ℕ
  pub loss : ℕ

-- The rest of a round once its prices are validated. `quote_is_stale` validates the same prices
-- again, and `_tolerance` of a Decimal in range is that Decimal.
unfoldable pub exercise : Slack → Bool → ℕ → ℕ → Tally → Result QuoteError Tally
exercise slack reprice locked fair t =
    if leb (gain_of locked fair) 0
    then ok t
    else if reprice && is_stale locked fair slack
    then ok t
    else if ltb uint256_max (t.loss + gain_of locked fair)
    then err loss_overflow
    else ok (record { exercised = t.exercised + 1; loss = t.loss + gain_of locked fair })

-- The loop; an element that is no `Round` raises when it is reached.
unfoldable pub play : Slack → Bool → List (Option Round) → Tally → Result QuoteError Tally
play slack reprice [] t = ok t
play slack reprice (none ∷ rs) t = err bad_round
play slack reprice (some r ∷ rs) t = do
  locked ← amount r.locked_price "locked_price"
  fair ← amount r.fair_value_at_exercise "fair_value_now"
  t' ← exercise slack reprice locked fair t
  play slack reprice rs t'

-- `type(reprice) is bool`
abbrev pub literal_bool : Value → Option Bool
literal_bool (bool b) = some b
literal_bool _ = none

unfoldable pub simulate_attacker :
    List (Option Round) → ToleranceInput → Value → Result QuoteError ExploitResult
simulate_attacker rounds tolerance_value reprice_value = elim (literal_bool reprice_value) [
  | none ↦ err bad_reprice
  | some reprice ↦ do
    slack ← tolerance tolerance_value
    t ← play slack reprice rounds (record { exercised = 0; loss = 0 })
    ok (record { rounds = length rounds; exercised = t.exercised; system_loss = t.loss })
]
