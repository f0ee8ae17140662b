-- ===== src/Value.antt =====
-- The Python objects that cross the system's boundaries: decoded JSON, and arguments whose type the
-- code tests at run time. A float is kept only as far as the code looks at it: whether it is finite.
-- A list of a JSON object's members has each name once, since the decoders refuse duplicates.
use psv.Base.{
  ℕ, ◌-◌, ◌^◌, ◌≤◌, String, ◌≡◌, Bool, Option, none, some, List, [], ◌∷◌, arith, leb, str_eq,
  if◌then◌else◌,
}
use psv.Base.Int.{ℤ, pos}
use psv.Text.{Text}

mutual
  pub data Value : Type 0 where
    null : Value
    bool : Bool → Value
    int : ℤ → Value
    float : Bool → Value
    str : Text → Value
    list : Values → Value
    dict : Fields → Value

  pub data Values : Type 0 where
    nil : Values
    cons : Value → Values → Values

  pub data Fields : Type 0 where
    end : Fields
    field : String → Value → Fields → Fields

abbrev pub to_list : Values → List Value
to_list nil = []
to_list (cons x xs) = x ∷ to_list xs

-- `d.get(k)`, with `none` for a missing key.
unfoldable pub get : String → Fields → Option Value
get k end = none
get k (field j v fs) = if str_eq j k then some v else get k fs

abbrev pub or_null : Option Value → Value
or_null none = null
or_null (some v) = v

-- `d.get(k)`, with Python's None for a missing key.
abbrev pub get_or_null : String → Fields → Value
get_or_null k fs = or_null (get k fs)

-- `type(v) is int`, which no bool passes, within `0 <= v <= top`.
unfoldable pub bounded_int : ℕ → Value → Option ℕ
bounded_int top (int (pos n)) = if leb n top then some n else none
bounded_int top _ = none

-- `2**256 - 1`
abbrev pub uint256_max : ℕ
uint256_max = 2 ^ 256 - 1

-- A result of `bounded_int` is within its bound.
pub bounded_int-le : (top : ℕ) (v : Value) (n : ℕ) → bounded_int top v ≡ some n → n ≤ top
unfolding bounded_int
bounded_int-le top (int (pos m)) n h = ground arith
bounded_int-le top _ n h = cc

-- Every number within the bound is read back.
pub bounded_int-int : (top n : ℕ) → n ≤ top → bounded_int top (int (pos n)) ≡ some n
unfolding bounded_int
bounded_int-int top n h = ground arith
