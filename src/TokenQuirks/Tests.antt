-- ===== src/TokenQuirks/Tests.antt =====
-- 1.5 tokens of six decimals, and a fee of one percent.
use psv.TokenQuirks.Amounts.{to_atomic-IsExactly, IsExactly}
use psv.Base.{ℕ, ◌≤◌, ◌≡◌, refl, false, [], ◌∷◌, ok, ◌>>=◌}
use psv.Base.Int.{pos, negsuc, ◌+ℤ◌}
use psv.Value.{int, bounded_int, uint256_max}
use psv.TokenQuirks.{
  decimal, uint256_of, coefficient_of, received_is_sufficient, underpayment, decimals_of, to_atomic,
}

scaled : to_atomic (decimal (1 ∷ 5 ∷ []) (negsuc 0)) (int (pos 6)) ≡ ok 1500000
unfolding to_atomic psv.Base.◌>>=◌ decimals_of bounded_int coefficient_of psv.Base.Int.◌+ℤ◌
scaled = refl

to_atomic-IsExactly_example :
    (places : ℕ) × (decimals_of (int (pos 6)) ≡ ok places)
    × IsExactly (coefficient_of 0 (1 ∷ 5 ∷ [])) (negsuc 0 +ℤ pos places) 1500000
    × (1500000 ≤ uint256_max)
to_atomic-IsExactly_example =
    to_atomic-IsExactly (1 ∷ 5 ∷ []) (negsuc 0) (int (pos 6)) 1500000 scaled

short : underpayment (int (pos 9900)) (int (pos 10000)) ≡ ok 100
unfolding underpayment psv.Base.◌>>=◌ uint256_of bounded_int
short = refl

insufficient : received_is_sufficient (int (pos 9900)) (int (pos 10000)) ≡ ok false
unfolding received_is_sufficient psv.Base.◌>>=◌ uint256_of bounded_int
insufficient = refl
