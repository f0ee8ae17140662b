-- ===== src/Chain/Words.antt =====
-- ABI words are read back as the numbers they were written from.
use psv.Text.Hex.{hex_fold}
use psv.Chain.{hex_word, hex_digit}
use psv.Base.{
  ℕ, zero, suc, ◌+◌, ◌*◌, ◌/◌, ◌%◌, ◌^◌, ◌<◌, ◌≡◌, refl, ap, ◌∙◌, inl, inr, some, [], ◌∷◌, ◌++◌,
  arith, Option-cases, length, length-append,
}
use psv.Text.{Text, hex_value}

pub hex_value-hex_digit : (d : ℕ) → d < 16 → hex_value (hex_digit d) ≡ some d
unfolding hex_value hex_digit
hex_value-hex_digit d h = ground arith

hex_fold-append_digit :
    (s : Text) (acc m d : ℕ)
    → d < 16
    → hex_fold acc s ≡ some m
    → hex_fold acc (s ++ hex_digit d ∷ []) ≡ some (m * 16 + d)
unfolding hex_fold
hex_fold-append_digit [] acc m d h e = ground (arith, hex_value-hex_digit d h)
hex_fold-append_digit (c ∷ s) acc m d h e = elim (Option-cases (hex_value c)) [
  | inl n ↦ absurd (ground (arith, n))
  | inr (v, q) ↦ ground (arith, q, hex_fold-append_digit s (acc * 16 + v) m d h)
]

-- The word that is written for a number below `16 ^ width` is read back as that number.
pub hex_fold-hex_word : (width n : ℕ) → n < 16 ^ width → hex_fold 0 (hex_word width n) ≡ some n
unfolding hex_word hex_fold
hex_fold-hex_word zero n h = ground arith
hex_fold-hex_word (suc width) n h =
    hex_fold-append_digit (hex_word width (n / 16)) 0 (n / 16) (n % 16) (omega arith)
      (hex_fold-hex_word width (n / 16) (omega arith))
    ∙ ap some (omega arith)

pub length-hex_word : (width n : ℕ) → length (hex_word width n) ≡ width
unfolding hex_word
length-hex_word zero n = refl
length-hex_word (suc width) n = omega (
  arith,
  length-append (hex_word width (n / 16)) (hex_digit (n % 16) ∷ []),
  length-hex_word width (n / 16),
)
