-- ===== src/Reconciliation/Hexes.antt =====
-- `_exact_hex` of src/psv/reconciliation.py against the exact hex that its message asks for.
use psv.Base.{
  ℕ, suc, ◌+◌, ◌*◌, String, ◌≡◌, refl, subst, inl, inr, true, false, some, List, [], ◌∷◌, ◌++◌,
  arith, Option-cases, length, all, length-append, ok,
}
use psv.Text.{Text, codes, starts_with, lower_char, lower, is_space, is_hex_digit, hex_value}
use psv.Value.{str}
use mathlib.Core.List.{append-nil}
use psv.Text.Hex.{is_hex_of, from_hex}
use psv.Reconciliation.Fields.{exact_hex}

-- Pairs of hex digits.
abbrev pub HexPairs : Text → Type 0
HexPairs [] = Unit
HexPairs (c ∷ []) = ⊥
HexPairs (c ∷ d ∷ s) = (is_hex_digit c ≡ true) × (is_hex_digit d ≡ true) × HexPairs s

digit_value :
    (c : ℕ) → is_hex_digit c ≡ true → (v : ℕ) × (hex_value c ≡ some v) × (is_space c ≡ false)
unfolding is_hex_digit hex_value is_space
digit_value c h = elim (Option-cases (hex_value c)) [
  | inl bad ↦ absurd (ground arith)
  | inr (v, e) ↦ (v, e, ground arith)
]

-- White space after the pairs is accepted.
from_hex_returns :
    (s rest : Text)
    → HexPairs s
    → (tail_bytes : List ℕ) × (from_hex rest ≡ some tail_bytes)
    → (bytes : List ℕ) × (from_hex (s ++ rest) ≡ some bytes)
unfolding from_hex
from_hex_returns [] rest h k = k
from_hex_returns (c ∷ []) rest h k = elim h [ ]
from_hex_returns (c ∷ d ∷ s) rest h k =
    let (v, ev, sv) = digit_value c h.0 in
    let (w, ew, sw) = digit_value d h.1 in
    let (bytes, e) = from_hex_returns s rest h.2 k in
    ((v * 16 + w) ∷ bytes, rw sv (rw ev (rw ew (rw e refl))))

HexPairs-length : (s : Text) → HexPairs s → (n : ℕ) × (length s ≡ n * 2)
HexPairs-length [] h = (0, refl)
HexPairs-length (c ∷ []) h = elim h [ ]
HexPairs-length (c ∷ d ∷ s) h = let (n, e) = HexPairs-length s h.2 in (suc n, omega arith)

-- A text of `0x` and exactly `size` pairs of hex digits is accepted and lower-cased.
pub exact_hex_of_pairs :
    (s : Text) (size : ℕ) (what : String)
    → HexPairs s
    → length s ≡ size * 2
    → exact_hex (str (codes "0x" ++ s)) size what ≡ ok (lower (codes "0x" ++ s))
unfolding exact_hex codes starts_with
exact_hex_of_pairs s size what h n =
    let (bytes, e) = from_hex_returns s [] h ([], unfold from_hex in refl) in
    let e' : from_hex s ≡ some bytes = subst (λ t. from_hex t ≡ some bytes) (append-nil s) e in
    ground (arith, e', n)

blanks_not_hex : (s : Text) → all is_hex_digit (lower (s ++ codes "  ")) ≡ false
unfolding lower codes is_hex_digit
blanks_not_hex [] = refl
blanks_not_hex (c ∷ s) = ground (arith, blanks_not_hex s)

-- `_exact_hex` accepts a text of hex pairs with two blanks in the place of its last pair, since
-- `bytes.fromhex` skips them: what comes back is not `size` bytes of hex.
pub exact_hex_accepts_blanks :
    (s : Text) (size : ℕ) (what : String)
    → HexPairs s
    → length s + 2 ≡ size * 2
    → exact_hex (str (codes "0x" ++ s ++ codes "  ")) size what
        ≡ ok (lower (codes "0x" ++ s ++ codes "  "))
      × (is_hex_of (size * 2) (lower (codes "0x" ++ s ++ codes "  ")) ≡ false)
unfolding exact_hex codes starts_with
exact_hex_accepts_blanks s size what h n =
    let (bytes, e) = from_hex_returns s (codes "  ") h ([], unfold from_hex is_space in refl) in
    (
      ground (arith, e, length-append s (codes "  "), n),
      unfold is_hex_of lower lower_char in ground (arith, blanks_not_hex s),
    )
