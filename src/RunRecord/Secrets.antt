-- ===== src/RunRecord/Secrets.antt =====
-- No secret input reaches a record of src/psv/run_record.py.
use psv.Base.{
  ℕ, String, ◌≡◌, refl, sym, ap, ◌∙◌, ◌≢◌, ◌⊎◌, inl, inr, Bool, true, false, ◌||◌, none, some, [],
  ◌++◌, arith, str_eq, str_eq_iff, Bool-cases, if-cases,
}
use psv.Text.{Text, codes, lower}
use psv.Value.{Value, Fields, str, end, field, get}
use psv.RunRecord.{Url, port, Library, is_secret, is_null, clean_value, clean_inputs}

skip_other :
    (k j : String) (v : Value) (fs : Fields) → str_eq j k ≡ false → get k (field j v fs) ≡ get k fs
unfolding get
skip_other k j v fs h = rw h refl

find_first :
    (k j : String) (v : Value) (fs : Fields) → str_eq j k ≡ true → get k (field j v fs) ≡ some v
unfolding get
find_first k j v fs h = rw h refl

same_secret : (j k : String) → str_eq j k ≡ true → is_secret j ≡ is_secret k
same_secret j k h = ap is_secret ((str_eq_iff j k).0 h)

pub clean_inputs-secret :
    (lib : Library) (k : String) (fs : Fields)
    → is_secret k ≡ true
    → get k (clean_inputs lib fs) ≡ none
unfolding clean_inputs
clean_inputs-secret lib k end s = unfold get in refl
clean_inputs-secret lib k (field j v fs) s =
    let later = clean_inputs-secret lib k fs s in
    if-cases (λ r. get k r ≡ none) (is_null v || is_secret j) (λ t. later)
      λ f. skip_other k j _ _ (other (str_eq j k) (same_secret j k) f) ∙ later
  where
    other :
        (b : Bool)
        → (b ≡ true → is_secret j ≡ is_secret k)
        → (is_null v || is_secret j) ≡ false
        → b ≡ false
    other true same f = (let e = same refl in ground (arith, e, s, f))
    other false same f = refl

some_eq : (a b : Value) → some a ≡ some b → a ≡ b
some_eq a b h = cc

dropped : (a b : Bool) → (a || b) ≡ true → a ≡ false → b ≡ false → ⊥
dropped a b c p q = ground (arith, c, p, q)

pub clean_inputs-kept :
    (lib : Library) (k : String) (v : Value) (fs : Fields)
    → get k fs ≡ some v
    → is_null v ≡ false
    → is_secret k ≡ false
    → get k (clean_inputs lib fs) ≡ some (clean_value lib k v)
unfolding clean_inputs
clean_inputs-kept lib k v end g n s = unfold get in cc
clean_inputs-kept lib k v (field j w fs) g n s = elim (Bool-cases (str_eq j k)) [
  | inl t ↦
      (let same : w ≡ v = some_eq w v (sym (find_first k j w fs t) ∙ g) in
        let name : j ≡ k = (str_eq_iff j k).0 t in
        if-cases (λ r. get k r ≡ some (clean_value lib k v)) (is_null w || is_secret j)
          (λ c. absurd (dropped _ _ c (ap is_null same ∙ n) (ap is_secret name ∙ s)))
          λ c. find_first k j _ _ t ∙ cc (same, name))
  | inr f ↦
      (let later = clean_inputs-kept lib k v fs (sym (skip_other k j w fs f) ∙ g) n s in
        if-cases (λ r. get k r ≡ some (clean_value lib k v)) (is_null w || is_secret j) (λ c. later)
          λ c. skip_other k j _ _ f ∙ later)
]

-- One text stands in the other.
abbrev pub HasPart : Text → Text → Type 0
HasPart part s = (before : Text) × (after : Text) × (s ≡ before ++ (part ++ after))

-- In lower case, the name has one of the three words in it.
abbrev pub IsSecretName : String → Type 0
IsSecretName k =
    HasPart (codes "key") (lower (codes k))
    ⊎ (HasPart (codes "secret") (lower (codes k)) ⊎ HasPart (codes "password") (lower (codes k)))

-- What is kept of a URL: nothing of an empty one, a placeholder, or its scheme, host and port.
pub data IsRedaction (lib : Library) (url kept : Text) : Type 0 where
  of_empty : url ≡ [] → kept ≡ [] → IsRedaction lib url kept
  unparseable : kept ≡ codes "<unparseable>" → IsRedaction lib url kept
  redacted : kept ≡ codes "<redacted>" → IsRedaction lib url kept
  origin :
      (u : Url) (host : Text)
      → lib.urlsplit url ≡ some u
      → u.hostname ≡ some host
      → kept ≡ u.scheme ++ codes "://" ++ host
      → IsRedaction lib url kept
  origin_with_port :
      (u : Url) (host : Text) (n : ℕ)
      → lib.urlsplit url ≡ some u
      → u.hostname ≡ some host
      → u.at ≡ port n
      → kept ≡ u.scheme ++ codes "://" ++ host ++ codes ":" ++ lib.decimal n
      → IsRedaction lib url kept

-- What is kept of the value of an input: a URL of the node is redacted, and any other value kept whole.
abbrev pub IsCleaned : Library → String → Value → Value → Type 0
IsCleaned lib k v kept =
    (((k ≡ "rpc_url") ⊎ (k ≡ "rpcUrl"))
      × (url : Text) × (kept ≡ str url)
      × IsRedaction lib (lib.show v) url)
    ⊎ ((k ≢ "rpc_url") × (k ≢ "rpcUrl") × (kept ≡ v))
