-- ===== src/TokenQuirks/Amounts.antt =====
-- Token amounts are exact.
use psv.Base.{
  ℕ, suc, ◌+◌, ◌*◌, ◌/◌, ◌%◌, ◌^◌, ◌≤◌, String, ◌≡◌, ap, ◌∙◌, ◌↔◌, inl, inr, Bool, true, not, ◌&&◌,
  List, arith, ltb, ◌==◌, ==_iff, Bool-cases, if-both, length, ok, ◌>>=◌, >>=-eq-ok, Ensures,
  Ensures-eq_ok, Ensures-map,
}
use psv.Base.Int.{ℤ, pos, negsuc, ◌+ℤ◌}
use psv.Value.{Value, int, bounded_int, uint256_max}
use psv.TokenQuirks.{
  coefficient_of, decimals_of, decimal, scale_human, uint256_of, received_is_sufficient, net_of,
  underpayment, scaled_amount, atomic_uint256, to_atomic,
}
use native.Mathlib.Nat.{mod-add-div', mul-le-mul_left}

-- The atomic amount is the human amount, exactly: scaled up, or divided without a remainder.
abbrev pub IsExactly : ℕ → ℤ → ℕ → Type 0
IsExactly coefficient (pos places) n = n ≡ coefficient * 10 ^ places
IsExactly coefficient (negsuc places) n = n * 10 ^ suc places ≡ coefficient

atomic_uint256-Ensures : (n : ℕ) → Ensures (λ m. (m ≡ n) × (m ≤ uint256_max)) (atomic_uint256 n)
unfolding atomic_uint256
atomic_uint256-Ensures n = ground arith

divides : (c d : ℕ) → c % d ≡ 0 → c / d * d ≡ c
divides c d e = omega (arith, mod-add-div' c d)

scaled_amount-IsExactly :
    (c digits : ℕ) (scale : ℤ)
    → Ensures (λ n. IsExactly c scale n × (n ≤ uint256_max)) (scaled_amount c digits scale)
unfolding scaled_amount
scaled_amount-IsExactly c digits (pos places) =
    if-both (Ensures λ n. IsExactly c (pos places) n × (n ≤ uint256_max))
      (not (c == 0) && ltb 78 (digits + places)) (record { holds = tt })
      (atomic_uint256-Ensures (c * 10 ^ places))
scaled_amount-IsExactly c digits (negsuc places) =
    if-both (Ensures λ n. IsExactly c (negsuc places) n × (n ≤ uint256_max))
      (not (c == 0) && ltb digits (suc places)) (record { holds = tt })
      (elim (Bool-cases (c % 10 ^ suc places == 0)) [
        | inl t ↦ rw t (
            Ensures-map (atomic_uint256-Ensures (c / 10 ^ suc places)) λ n h. (
              ap (λ k. k * 10 ^ suc places) h.0
                  ∙ divides c (10 ^ suc places) ((==_iff (c % 10 ^ suc places) 0).0 t),
              h.1,
            ))
        | inr f ↦ rw f (record { holds = tt })
      ])

-- `to_atomic` is exact: what it returns is the coefficient scaled by the exponent and the decimals,
-- without rounding, and within uint256.
pub to_atomic-IsExactly :
    (digits : List ℕ) (exponent : ℤ) (decimals : Value) (n : ℕ)
    → to_atomic (decimal digits exponent) decimals ≡ ok n
    → (places : ℕ) × (decimals_of decimals ≡ ok places)
      × IsExactly (coefficient_of 0 digits) (exponent +ℤ pos places) n
      × (n ≤ uint256_max)
unfolding to_atomic scale_human
to_atomic-IsExactly digits exponent decimals n e =
    let (places, p, f) = >>=-eq-ok (decimals_of decimals) _ e in
    let h =
      Ensures-eq_ok
        (scaled_amount-IsExactly (coefficient_of 0 digits) (length digits) (exponent +ℤ pos places))
        f in
    (places, p, h.0, h.1)

uint256_of-is : (v : Value) (what : String) → Ensures (λ n. v ≡ int (pos n)) (uint256_of v what)
unfolding uint256_of bounded_int
uint256_of-is (int (pos n)) what = ground arith
uint256_of-is _ what = record { holds = tt }

-- The shortfall of a payment, when both amounts are valid: `underpayment` and
-- `received_is_sufficient` agree, and what was received covers the requirement with the shortfall.
pub underpayment_iff :
    (received required short : ℕ) (enough : Bool)
    → underpayment (int (pos received)) (int (pos required)) ≡ ok short
    → received_is_sufficient (int (pos received)) (int (pos required)) ≡ ok enough
    → ((short ≡ 0) ↔ (enough ≡ true)) × (required ≤ received + short)
unfolding underpayment received_is_sufficient ◌>>=◌ uint256_of bounded_int
underpayment_iff received required short enough h k = ground arith

-- A fee in basis points takes at most its share: what is left is no more than the gross amount, and at
-- least the gross amount less the exact fee.
pub net_of_bounds :
    (gross fee_bps : ℕ)
    → fee_bps ≤ 10000
    → (net_of gross fee_bps ≤ gross)
      × (gross * 10000 ≤ net_of gross fee_bps * 10000 + gross * fee_bps)
      × (net_of gross fee_bps * 10000 + gross * fee_bps ≤ gross * 10000 + 9999)
unfolding net_of
net_of_bounds gross fee_bps h = ground (arith, mul-le-mul_left gross h)
