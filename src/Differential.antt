-- ===== src/Differential.antt =====
-- src/psv/differential.py: one fact on the chain against the beliefs of several systems.
pub mod Findings
mod Tests
use psv.Base.{
  Bool, true, false, not, ◌&&◌, Option, none, some, List, [], ◌∷◌, ◌==◌, length, any, Result, ok,
  err, ◌>>=◌, ◌>>◌, raise_if,
}
use psv.Base.Int.{ℤ, pos}
use psv.Text.{Text}
use psv.Value.{Value, null, bool, bounded_int, uint256_max}
use psv.Divergence.{SettlementTruth, Divergence, detect_payment_divergence, is_failure}

-- The ValueErrors of `run_differential`.
pub data DifferentialError : Type 0 where
  no_beliefs empty_name not_a_belief bad_required_amount : DifferentialError

pub record DifferentialResult : Type 0 where
  pub verdicts : List (Text × Divergence)
  pub disagree : Bool
  pub failing : List (Text × Divergence)

-- `bool(self.failing)`
unfoldable pub has_finding : DifferentialResult → Bool
has_finding r = not (length r.failing == 0)

abbrev is_empty_name : Text × Value → Bool
is_empty_name (name, belief) = length name == 0

-- The beliefs, all literal booleans.
unfoldable pub literal_beliefs : List (Text × Value) → Result DifferentialError (List (Text × Bool))
literal_beliefs [] = ok []
literal_beliefs ((name, bool b) ∷ bs) = do rest ← literal_beliefs bs; ok ((name, b) ∷ rest)
literal_beliefs ((name, _) ∷ bs) = err not_a_belief

-- The check of `required_amount`, null included.
unfoldable pub required_amount_of : Value → Result DifferentialError (Option ℤ)
required_amount_of null = ok none
required_amount_of v = elim (bounded_int uint256_max v) [
  | none ↦ err bad_required_amount
  | some n ↦ ok (some (pos n))
]

-- The comprehension over the beliefs.
unfoldable pub verdicts_of :
    SettlementTruth → Option ℤ → List (Text × Bool) → List (Text × Divergence)
verdicts_of chain required [] = []
verdicts_of chain required ((name, b) ∷ bs) =
    (name, detect_payment_divergence chain b required) ∷ verdicts_of chain required bs

abbrev pub keep_if : Bool → Text × Divergence → List (Text × Divergence) → List (Text × Divergence)
keep_if true v rest = v ∷ rest
keep_if false v rest = rest

-- `{name: v for name, v in verdicts.items() if v.is_failure}`
unfoldable pub failing_of : List (Text × Divergence) → List (Text × Divergence)
failing_of [] = []
failing_of ((name, v) ∷ vs) = keep_if (is_failure v) (name, v) (failing_of vs)

abbrev pub believes : Text × Bool → Bool
believes (name, b) = b

abbrev pub doubts : Text × Bool → Bool
doubts (name, b) = not b

-- `len(set(beliefs.values())) > 1`
unfoldable pub disagrees : List (Text × Bool) → Bool
disagrees bs = any believes bs && any doubts bs

unfoldable pub grade : SettlementTruth → Option ℤ → List (Text × Bool) → DifferentialResult
grade chain required bs =
    let verdicts = verdicts_of chain required bs in
    record { verdicts = verdicts; disagree = disagrees bs; failing = failing_of verdicts }

unfoldable pub run_differential :
    SettlementTruth → List (Text × Value) → Value → Result DifferentialError DifferentialResult
run_differential chain beliefs required_amount = do
  raise_if (length beliefs == 0) no_beliefs
  raise_if (any is_empty_name beliefs) empty_name
  bs ← literal_beliefs beliefs
  required ← required_amount_of required_amount
  ok (grade chain required bs)
