-- ===== src/Text.antt =====
-- Python's `str` as the list of its code points, with the string operations that the validators of
-- src/psv use: prefixes, `lower`, equality, regular expressions over hex digits, `int(s, 16)` and
-- `bytes.fromhex`. The classes of characters are those of ASCII.
pub mod Hex
pub mod Laws
pub mod Spaces
use Prim.Native.Char.{code}
use psv.Base.{
  ℕ, zero, suc, ◌+◌, ◌-◌, ◌*◌, ◌≡◌, refl, Bool, true, false, ◌&&◌, ◌||◌, Option, none, some, List,
  [], ◌∷◌, String, ltb, leb, ◌==◌, if◌then◌else◌,
}

abbrev pub Text : Type 0
Text = List ℕ

-- The code points of a literal.
unfoldable pub codes : String → Text
codes String.[] = []
codes (String.◌∷◌ c s) = code c ∷ codes s

-- `s == t`
unfoldable pub text_eq : Text → Text → Bool
text_eq [] [] = true
text_eq [] (d ∷ t) = false
text_eq (c ∷ s) [] = false
text_eq (c ∷ s) (d ∷ t) = c == d && text_eq s t

-- `s.startswith(p)`
unfoldable pub starts_with : Text → Text → Bool
starts_with s [] = true
starts_with [] (d ∷ p) = false
starts_with (c ∷ s) (d ∷ p) = c == d && starts_with s p

-- `s.removeprefix("0x")`
unfoldable pub remove_prefix_0x : Text → Text
remove_prefix_0x [] = []
remove_prefix_0x (a ∷ []) = a ∷ []
remove_prefix_0x (a ∷ b ∷ s) = if a == b'0' && b == b'x' then s else a ∷ b ∷ s

-- `c.lower()` of one ASCII character
unfoldable pub lower_char : ℕ → ℕ
lower_char c = if leb b'A' c && leb c b'Z' then c + 32 else c

-- `s.lower()`
unfoldable pub lower : Text → Text
unfolding lower_char
lower [] = []
lower (c ∷ s) = lower_char c ∷ lower s

-- The characters that `str.strip`, `int` and `bytes.fromhex` skip: tab to carriage return, space.
unfoldable pub is_space : ℕ → Bool
is_space c = c == b' ' || leb 9 c && leb c 13

-- `[0-9a-fA-F]`
unfoldable pub is_hex_digit : ℕ → Bool
is_hex_digit c = leb b'0' c && leb c b'9' || leb b'a' c && leb c b'f' || leb b'A' c && leb c b'F'

-- The value of a hex digit.
unfoldable pub hex_value : ℕ → Option ℕ
hex_value c =
    if leb b'0' c && leb c b'9'
    then some (c - b'0')
    else if leb b'a' c && leb c b'f'
    then some (c - b'a' + 10)
    else if leb b'A' c && leb c b'F'
    then some (c - b'A' + 10)
    else none

-- `s.rjust(n, "0")`: `pad` zeros are put in front.
unfoldable pub zeros : ℕ → Text
zeros zero = []
zeros (suc n) = b'0' ∷ zeros n

codes_example : codes "0x1" ≡ b'0' ∷ b'x' ∷ b'1' ∷ []
unfolding codes
codes_example = refl
