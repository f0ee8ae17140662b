-- ===== src/Text/Spaces.antt =====
-- The white space of `str.strip` and the digits of `str.isdigit` and `int`, by Unicode 14.
use psv.Base.{
  ℕ, ◌+◌, ◌-◌, ◌*◌, Bool, ◌&&◌, ◌||◌, Option, none, some, List, [], ◌∷◌, leb, if◌then◌else◌,
  is_some, any,
}
use psv.Text.{Text}
use mathlib.Core.List.{reverse}

-- The ranges of `str.isspace`, first and last character.
abbrev pub space_ranges : List (ℕ × ℕ)
space_ranges =
    (9, 13)
    ∷ (28, 32)
    ∷ (133, 133)
    ∷ (160, 160)
    ∷ (5760, 5760)
    ∷ (8192, 8202)
    ∷ (8232, 8233)
    ∷ (8239, 8239)
    ∷ (8287, 8287)
    ∷ (12288, 12288)
    ∷ []

abbrev pub within : ℕ → ℕ × ℕ → Bool
within c r = leb r.0 c && leb c r.1

-- `c.isspace()`
unfoldable pub is_str_space : ℕ → Bool
is_str_space c = any (within c) space_ranges

unfoldable pub skip_spaces : Text → Text
skip_spaces [] = []
skip_spaces (c ∷ s) = let rest = skip_spaces s in if is_str_space c then rest else c ∷ s

-- `s.strip()`
unfoldable pub str_strip : Text → Text
str_strip s = reverse (skip_spaces (reverse (skip_spaces s)))

-- The zeros of the blocks of ten decimal digits.
abbrev pub decimal_zeros : List ℕ
decimal_zeros =
    48 ∷ 1632 ∷ 1776 ∷ 1984 ∷ 2406 ∷ 2534 ∷ 2662 ∷ 2790 ∷ 2918 ∷ 3046 ∷ 3174 ∷ 3302 ∷ 3430 ∷ 3558
    ∷ 3664 ∷ 3792 ∷ 3872 ∷ 4160 ∷ 4240 ∷ 6112 ∷ 6160 ∷ 6470 ∷ 6608 ∷ 6784 ∷ 6800 ∷ 6992 ∷ 7088
    ∷ 7232 ∷ 7248 ∷ 42528 ∷ 43216 ∷ 43264 ∷ 43472 ∷ 43504 ∷ 43600 ∷ 44016 ∷ 65296 ∷ 66720 ∷ 68912
    ∷ 69734 ∷ 69872 ∷ 69942 ∷ 70096 ∷ 70384 ∷ 70736 ∷ 70864 ∷ 71248 ∷ 71360 ∷ 71472 ∷ 71904 ∷ 72016
    ∷ 72784 ∷ 73040 ∷ 73120 ∷ 92768 ∷ 92864 ∷ 93008 ∷ 120782 ∷ 120792 ∷ 120802 ∷ 120812 ∷ 120822
    ∷ 123200 ∷ 123632 ∷ 125264 ∷ 130032 ∷ []

-- The ranges of digits that are no decimal digits, like superscripts.
abbrev pub other_digits : List (ℕ × ℕ)
other_digits =
    (178, 179)
    ∷ (185, 185)
    ∷ (4969, 4977)
    ∷ (6618, 6618)
    ∷ (8304, 8304)
    ∷ (8308, 8313)
    ∷ (8320, 8329)
    ∷ (9312, 9320)
    ∷ (9332, 9340)
    ∷ (9352, 9360)
    ∷ (9450, 9450)
    ∷ (9461, 9469)
    ∷ (9471, 9471)
    ∷ (10102, 10110)
    ∷ (10112, 10120)
    ∷ (10122, 10130)
    ∷ (68160, 68163)
    ∷ (69216, 69224)
    ∷ (69714, 69722)
    ∷ (127232, 127242)
    ∷ []

-- The value of a decimal digit.
unfoldable pub digit_of : ℕ → List ℕ → Option ℕ
digit_of c [] = none
digit_of c (z ∷ zs) =
    let rest = digit_of c zs in if leb z c && leb c (z + 9) then some (c - z) else rest

-- `c.isdecimal()`
unfoldable pub is_str_decimal : ℕ → Bool
is_str_decimal c = is_some (digit_of c decimal_zeros)

-- `c.isdigit()`
unfoldable pub is_str_digit : ℕ → Bool
is_str_digit c = is_str_decimal c || any (within c) other_digits

abbrev pub or_zero : Option ℕ → ℕ
or_zero none = 0
or_zero (some d) = d

-- `int(s)` of decimal digits.
unfoldable pub digits_value : ℕ → Text → ℕ
digits_value acc [] = acc
digits_value acc (c ∷ s) = digits_value (acc * 10 + or_zero (digit_of c decimal_zeros)) s
