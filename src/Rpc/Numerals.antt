-- ===== src/Rpc/Numerals.antt =====
-- `hex` and the canonical quantities of src/psv/anvil.py are inverse to each other.

use psv.Text.Hex.{hex_fold}
use psv.Chain.{hex_digit}
use psv.Chain.Words.{hex_value-hex_digit}
use psv.Rpc.{int, str, hex_digits, hex_of, is_quantity_text, quantity, block_param}
use psv.Base.{
  ℕ, zero, suc, ◌+◌, ◌/◌, ◌%◌, ◌<◌, String, ◌≡◌, refl, ap, ◌∙◌, ◌⊎◌, inl, inr, true, false, some,
  [], ◌∷◌, ◌++◌, arith, ltb, ◌==◌, if-cases, length, all, ok, Ensures,
}
use psv.Base.Int.{pos}
use psv.Text.{Text, codes, is_hex_digit}

-- The digits that are written for `n` are read back as `n`.
hex_fold-hex_digits :
    (fuel n : ℕ) (rest : Text) → n < fuel → hex_fold 0 (hex_digits fuel n rest) ≡ hex_fold n rest
unfolding hex_digits hex_fold
hex_fold-hex_digits zero n rest h = absurd (omega arith)
hex_fold-hex_digits (suc fuel) n rest h =
    if-cases (λ s. hex_fold 0 s ≡ hex_fold n rest) (ltb n 16)
      (λ t. ground (arith, hex_value-hex_digit n (ground arith)))
      (λ f.
        hex_fold-hex_digits fuel (n / 16) (hex_digit (n % 16) ∷ rest) (ground arith)
        ∙ ground (arith, hex_value-hex_digit (n % 16) (omega arith)))

-- A numeral of `n` in front of `rest` has no zero in front.
abbrev IsNumeral : ℕ → Text → Text → Type 0
IsNumeral n rest [] = ⊥
IsNumeral n rest (c ∷ s) =
    (is_hex_digit c ≡ true)
    × (all is_hex_digit s ≡ true)
    × (((c == b'0') ≡ false) ⊎ ((n ≡ 0) × (s ≡ rest)))

is_hex_digit-hex_digit : (d : ℕ) → d < 16 → is_hex_digit (hex_digit d) ≡ true
unfolding is_hex_digit hex_digit
is_hex_digit-hex_digit d h = ground arith

hex_digit-ne_zero : (d : ℕ) → d < 16 → 0 < d → (hex_digit d == b'0') ≡ false
unfolding hex_digit
hex_digit-ne_zero d h p = ground arith

longer-IsNumeral :
    (n m : ℕ) (rest rest' s : Text) → 0 < m → IsNumeral m rest' s → IsNumeral n rest s
longer-IsNumeral n m rest rest' [] p h = h
longer-IsNumeral n m rest rest' (c ∷ s) p (a, b, inl q) = (a, b, inl q)
longer-IsNumeral n m rest rest' (c ∷ s) p (a, b, inr (z, e)) = absurd (omega arith)

digit-IsNumeral :
    (n : ℕ) (rest : Text)
    → n < 16
    → all is_hex_digit rest ≡ true
    → IsNumeral n rest (hex_digit n ∷ rest)
digit-IsNumeral zero rest h a = (is_hex_digit-hex_digit 0 h, a, inr (refl, refl))
digit-IsNumeral (suc n) rest h a =
    (is_hex_digit-hex_digit (suc n) h, a, inl (hex_digit-ne_zero (suc n) h (omega arith)))

hex_digits-IsNumeral :
    (fuel n : ℕ) (rest : Text)
    → n < fuel
    → all is_hex_digit rest ≡ true
    → IsNumeral n rest (hex_digits fuel n rest)
unfolding hex_digits
hex_digits-IsNumeral zero n rest h a = absurd (omega arith)
hex_digits-IsNumeral (suc fuel) n rest h a =
    if-cases (IsNumeral n rest) (ltb n 16) (λ t. digit-IsNumeral n rest (ground arith) a)
      λ f.
        let d = hex_digit (n % 16) ∷ rest in
        let d_hex : all is_hex_digit d ≡ true =
          ground (arith, a, is_hex_digit-hex_digit (n % 16) (omega arith)) in
        longer-IsNumeral n (n / 16) rest d _ (ground arith)
          (hex_digits-IsNumeral fuel (n / 16) d (ground arith) d_hex)

IsNumeral-is_quantity_text :
    (n : ℕ) (s : Text) → IsNumeral n [] s → is_quantity_text (codes "0x" ++ s) ≡ true
unfolding is_quantity_text codes
IsNumeral-is_quantity_text n [] h = elim h [ ]
IsNumeral-is_quantity_text n (c ∷ s) (a, b, inl q) = ground (arith, a, b, q)
IsNumeral-is_quantity_text n (c ∷ s) (a, b, inr (z, e)) = ground (arith, a, b, ap length e)

-- `_quantity` reads what `hex` writes of a number back as that number: a block selector that
-- `_block_param` accepts as a number is the canonical quantity of it.
pub block_param-quantity :
    (n : ℕ) (what : String)
    → Ensures (λ s. quantity (str s) what ≡ ok n) (block_param (int (pos n)))
unfolding block_param hex_of quantity codes hex_fold
block_param-quantity n what =
    let h : n < n + 1 = omega arith in
    let text = IsNumeral-is_quantity_text n _ (hex_digits-IsNumeral (n + 1) n [] h refl) in
    let value : hex_fold 0 (hex_digits (n + 1) n []) ≡ some n =
      hex_fold-hex_digits (n + 1) n [] h in
    record { holds = ground (arith, text, value) }
