-- ===== src/Rpc/Bounded.antt =====
-- What `_bounded_json` of src/psv/anvil.py accepts, described without a depth that is carried along.
use psv.Rpc.{
  max_list_items, max_object_fields, max_string_chars, max_depth, field_count, within_depth,
  bounded_value, bounded_items, bounded_fields, bounded_json,
}
use psv.Base.{
  ℕ, ◌+◌, ◌≤◌, ◌≡◌, refl, ◌↔◌, Bool, true, false, not, arith, ltb, leb, if◌then◌else◌, length, ok,
  raise_if-eq_ok, bind-ok, raise_if-ok, then-eq_ok,
}
use psv.Value.{
  Value, Values, Fields, null, bool, int, float, str, list, dict, nil, cons, end, field, to_list,
}

abbrev pub higher : ℕ → ℕ → ℕ
higher a b = if leb a b then b else a

-- The number of lists and objects that stand inside one another.
abbrev mutual
  pub height : Value → ℕ
  height (list vs) = height_items vs
  height (dict fs) = height_fields fs
  height _ = 0

  pub height_items : Values → ℕ
  height_items nil = 0
  height_items (cons v vs) = higher (1 + height v) (height_items vs)

  pub height_fields : Fields → ℕ
  height_fields end = 0
  height_fields (field k v fs) = higher (1 + height v) (height_fields fs)

-- Every text, list and object is within its limit, and every number is finite.
abbrev mutual
  pub IsSized : Value → Type 0
  IsSized (str s) = length s ≤ max_string_chars
  IsSized (float finite) = finite ≡ true
  IsSized (list vs) = (length (to_list vs) ≤ max_list_items) × AreSized vs
  IsSized (dict fs) = (field_count fs ≤ max_object_fields) × AreSizedFields fs
  IsSized _ = Unit

  pub AreSized : Values → Type 0
  AreSized nil = Unit
  AreSized (cons v vs) = IsSized v × AreSized vs

  pub AreSizedFields : Fields → Type 0
  AreSizedFields end = Unit
  AreSizedFields (field k v fs) = IsSized v × AreSizedFields fs

ltb-eq_false : (a b : ℕ) → ltb a b ≡ false → b ≤ a
ltb-eq_false a b h = ground arith

within : (a b : ℕ) → a ≤ b → ltb b a ≡ false
within a b h = ground arith

pub not-eq_false : (b : Bool) → not b ≡ false → b ≡ true
not-eq_false b h = ground arith

finite-not : (b : Bool) → b ≡ true → not b ≡ false
finite-not b h = ground arith

higher-le :
    (a b d : ℕ) → a + (d + 1) ≤ max_depth → b + d ≤ max_depth → higher (1 + a) b + d ≤ max_depth
higher-le a b d h k = ground arith

higher-le_left : (a b d : ℕ) → higher (1 + a) b + d ≤ max_depth → a + (d + 1) ≤ max_depth
higher-le_left a b d h = ground arith

higher-le_right : (a b d : ℕ) → higher a b + d ≤ max_depth → b + d ≤ max_depth
higher-le_right a b d h = ground arith

mutual
  unfolding bounded_value within_depth

  value_sound :
      (v : Value) (d : ℕ)
      → d ≤ max_depth
      → bounded_value v d ≡ ok tt
      → IsSized v × (height v + d ≤ max_depth)
  value_sound null d h e = (tt, omega arith)
  value_sound (bool b) d h e = (tt, omega arith)
  value_sound (int z) d h e = (tt, omega arith)
  value_sound (float b) d h e = (not-eq_false _ (raise_if-eq_ok _ _ e), omega arith)
  value_sound (str s) d h e = (ltb-eq_false _ _ (raise_if-eq_ok _ _ e), omega arith)
  value_sound (list vs) d h e =
      let (c, e') = then-eq_ok _ _ e in
      let (sized, deep) = items_sound vs d h e' in
      ((ltb-eq_false _ _ (raise_if-eq_ok _ _ c), sized), deep)
  value_sound (dict fs) d h e =
      let (c, e') = then-eq_ok _ _ e in
      let (sized, deep) = fields_sound fs d h e' in
      ((ltb-eq_false _ _ (raise_if-eq_ok _ _ c), sized), deep)

  items_sound :
      (vs : Values) (d : ℕ)
      → d ≤ max_depth
      → bounded_items vs (d + 1) ≡ ok tt
      → AreSized vs × (height_items vs + d ≤ max_depth)
  items_sound nil d h e = (tt, omega arith)
  items_sound (cons v vs) d h e =
      let (c, e') = then-eq_ok _ _ e in
      let (v_ok, e'') = then-eq_ok _ _ e' in
      let below = ltb-eq_false _ _ (raise_if-eq_ok _ _ c) in
      let (v_sized, v_deep) = value_sound v (d + 1) below v_ok in
      let (sized, deep) = items_sound vs d h e'' in
      ((v_sized, sized), higher-le (height v) (height_items vs) d v_deep deep)

  fields_sound :
      (fs : Fields) (d : ℕ)
      → d ≤ max_depth
      → bounded_fields fs (d + 1) ≡ ok tt
      → AreSizedFields fs × (height_fields fs + d ≤ max_depth)
  fields_sound end d h e = (tt, omega arith)
  fields_sound (field k v fs) d h e =
      let (c, e') = then-eq_ok _ _ e in
      let (v_ok, e'') = then-eq_ok _ _ e' in
      let below = ltb-eq_false _ _ (raise_if-eq_ok _ _ c) in
      let (v_sized, v_deep) = value_sound v (d + 1) below v_ok in
      let (sized, deep) = fields_sound fs d h e'' in
      ((v_sized, sized), higher-le (height v) (height_fields fs) d v_deep deep)

mutual
  unfolding bounded_value within_depth

  value_complete :
      (v : Value) (d : ℕ) → IsSized v → height v + d ≤ max_depth → bounded_value v d ≡ ok tt
  value_complete null d s h = refl
  value_complete (bool b) d s h = refl
  value_complete (int z) d s h = refl
  value_complete (float b) d s h = raise_if-ok _ _ (finite-not b s)
  value_complete (str t) d s h = raise_if-ok _ _ (within _ _ s)
  value_complete (list vs) d (s, t) h =
      bind-ok _ (raise_if-ok _ _ (within _ _ s)) (items_complete vs d t h)
  value_complete (dict fs) d (s, t) h =
      bind-ok _ (raise_if-ok _ _ (within _ _ s)) (fields_complete fs d t h)

  items_complete :
      (vs : Values) (d : ℕ)
      → AreSized vs
      → height_items vs + d ≤ max_depth
      → bounded_items vs (d + 1) ≡ ok tt
  items_complete nil d s h = refl
  items_complete (cons v vs) d (s, t) h =
      let deep = higher-le_left (height v) (height_items vs) d h in
      bind-ok _ (raise_if-ok _ _ (within (d + 1) max_depth (omega arith))) (
        bind-ok _ (value_complete v (d + 1) s deep)
          (items_complete vs d t (higher-le_right _ (height_items vs) d h)))

  fields_complete :
      (fs : Fields) (d : ℕ)
      → AreSizedFields fs
      → height_fields fs + d ≤ max_depth
      → bounded_fields fs (d + 1) ≡ ok tt
  fields_complete end d s h = refl
  fields_complete (field k v fs) d (s, t) h =
      let deep = higher-le_left (height v) (height_fields fs) d h in
      bind-ok _ (raise_if-ok _ _ (within (d + 1) max_depth (omega arith))) (
        bind-ok _ (value_complete v (d + 1) s deep)
          (fields_complete fs d t (higher-le_right _ (height_fields fs) d h)))

-- A decoded answer is accepted at a depth, if and only if each text, list and object in it is within
-- its limit, each number is finite, and with that depth it is nested at most 16 deep.
pub bounded_json_iff :
    (v : Value) (depth : ℕ)
    → (bounded_json v depth ≡ ok tt) ↔ (IsSized v × (height v + depth ≤ max_depth))
unfolding bounded_json within_depth
bounded_json_iff v depth = (
  λ e.
      let (c, e') = then-eq_ok _ _ e in
      value_sound v depth (ltb-eq_false _ _ (raise_if-eq_ok _ _ c)) e',
  λ (s, h).
      bind-ok _ (raise_if-ok _ _ (within depth max_depth (omega arith)))
        (value_complete v depth s h),
)
