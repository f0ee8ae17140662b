-- ===== src/Text/Hex.antt =====
-- The three ways in which src/psv reads hex: a regular expression that is matched in full, Python's
-- `int(s, 16)`, and Python's `bytes.fromhex`. The last two accept more than hex digits.
use psv.Base.{
  ℕ, ◌+◌, ◌*◌, Bool, true, false, ◌&&◌, ◌||◌, Option, none, some, List, [], ◌∷◌, length, ◌==◌,
  if◌then◌else◌, all,
}
use psv.Base.Int.{ℤ, pos, ◌-ℤ◌}
use psv.Text.{Text, is_space, is_hex_digit, hex_value}
use mathlib.Core.List.{reverse}

-- `re.fullmatch(r"0x[0-9a-fA-F]{n}", s)`
unfoldable pub is_hex_of : ℕ → Text → Bool
unfolding is_hex_digit
is_hex_of n (a ∷ b ∷ s) = a == b'0' && b == b'x' && length s == n && all is_hex_digit s
is_hex_of n _ = false

-- The number that a text of hex digits stands for, from the left; `none` at any other character.
unfoldable pub hex_fold : ℕ → Text → Option ℕ
unfolding hex_value
hex_fold acc [] = some acc
hex_fold acc (c ∷ s) = elim (hex_value c) [ none ↦ none | some v ↦ hex_fold (acc * 16 + v) s ]

unfoldable pub strip_left : Text → Text
unfolding is_space
strip_left [] = []
strip_left (c ∷ s) = let rest = strip_left s in if is_space c then rest else c ∷ s

-- The white space that `int` skips at both ends.
unfoldable pub strip : Text → Text
unfolding strip_left
strip s = reverse (strip_left (reverse (strip_left s)))

-- The digits of `int(s, 16)`: one underscore may stand between two of them. `digit` says whether
-- the last character was a digit.
unfoldable pub int_digits : ℕ → Bool → Text → Option ℕ
unfolding hex_value
int_digits acc digit [] = if digit then some acc else none
int_digits acc digit (c ∷ s) =
    if c == b'_'
    then (let rest = int_digits acc false s in if digit then rest else none)
    else elim (hex_value c) [ none ↦ none | some v ↦ int_digits (acc * 16 + v) true s ]

-- `0x` and one underscore after it may stand before the digits.
unfoldable pub int_body : Text → Option ℕ
unfolding int_digits
int_body (z ∷ x ∷ u ∷ s) =
    if z == b'0' && (x == b'x' || x == b'X')
    then (if u == b'_' then int_digits 0 false s else int_digits 0 false (u ∷ s))
    else int_digits 0 false (z ∷ x ∷ u ∷ s)
int_body s = int_digits 0 false s

unfoldable pub int_signed : Text → Option ℤ
unfolding int_body
int_signed [] = none
int_signed (c ∷ s) =
    if c == b'-'
    then elim (int_body s) [ none ↦ none | some n ↦ some (pos 0 -ℤ pos n) ]
    else if c == b'+'
    then elim (int_body s) [ none ↦ none | some n ↦ some (pos n) ]
    else elim (int_body (c ∷ s)) [ none ↦ none | some n ↦ some (pos n) ]

-- `int(s, 16)`; `none` is its ValueError.
unfoldable pub int16 : Text → Option ℤ
unfolding strip int_signed
int16 s = int_signed (strip s)

-- `bytes.fromhex(s)`: white space is skipped before each pair of digits and at the end; `none` is
-- its ValueError.
unfoldable pub from_hex : Text → Option (List ℕ)
unfolding is_space hex_value
from_hex [] = some []
from_hex (c ∷ []) = if is_space c then some [] else none
from_hex (c ∷ d ∷ s) =
    let skip = from_hex (d ∷ s) in
    let rest = from_hex s in
    if is_space c then skip else elim (hex_value c) [
      | none ↦ none
      | some h ↦ elim (hex_value d) [
        | none ↦ none
        | some l ↦ elim rest [ none ↦ none | some bytes ↦ some ((h * 16 + l) ∷ bytes) ]
      ]
    ]
