-- ===== src/Rails/Known/Lookup.antt =====
-- KNOWN_RAILS and `get_rail` of src/psv/rails.py: every known rail passes the constructors' checks.
use psv.Base.{
  String, ◌≡◌, refl, sym, ap, subst, ◌∙◌, ◌⊎◌, inl, inr, Bool, true, false, Option, none, some,
  List, [], ◌∷◌, str_eq, str_eq_iff, if◌then◌else◌, All, ok, ◌>>=◌,
}
use psv.Text.{codes, text_eq, is_hex_digit}
use psv.Text.Hex.{is_hex_of}
use psv.Rails.{RailConfig, check_rail, is_pinned, is_sha256_text}
use psv.Rails.Known.First.{mock_anvil, usdc_base, usdc_polygon, jpyc_polygon, eurc_base}
use psv.Rails.Known.Second.{usdc_celo, usdc_celo_sepolia, usdc_base_sepolia, usdt0_flare}

-- The values of KNOWN_RAILS; each key is the key of its rail.
abbrev pub known_rails : List RailConfig
known_rails =
    mock_anvil ∷ usdc_base ∷ usdc_polygon ∷ jpyc_polygon ∷ eurc_base ∷ usdc_celo ∷ usdc_celo_sepolia
    ∷ usdc_base_sepolia ∷ usdt0_flare ∷ []

-- A lookup in a dict whose keys are those of its values.
unfoldable pub rail_in : List RailConfig → String → Option RailConfig
rail_in [] key = none
rail_in (r ∷ rails) key = if str_eq r.key key then some r else rail_in rails key

-- `get_rail`; `none` is its KeyError.
unfoldable pub get_rail : String → Option RailConfig
unfolding rail_in
get_rail key = rail_in known_rails key

mock_anvil_ok : check_rail mock_anvil ≡ ok tt
unfolding check_rail is_hex_of is_hex_digit codes is_sha256_text text_eq ◌>>=◌
mock_anvil_ok = refl

usdc_base_ok : check_rail usdc_base ≡ ok tt
unfolding check_rail is_hex_of is_hex_digit codes is_sha256_text text_eq ◌>>=◌
usdc_base_ok = refl

usdc_polygon_ok : check_rail usdc_polygon ≡ ok tt
unfolding check_rail is_hex_of is_hex_digit codes is_sha256_text text_eq ◌>>=◌
usdc_polygon_ok = refl

jpyc_polygon_ok : check_rail jpyc_polygon ≡ ok tt
unfolding check_rail is_hex_of is_hex_digit codes is_sha256_text text_eq ◌>>=◌
jpyc_polygon_ok = refl

eurc_base_ok : check_rail eurc_base ≡ ok tt
unfolding check_rail is_hex_of is_hex_digit codes is_sha256_text text_eq ◌>>=◌
eurc_base_ok = refl

usdc_celo_ok : check_rail usdc_celo ≡ ok tt
unfolding check_rail is_hex_of is_hex_digit codes is_sha256_text text_eq ◌>>=◌
usdc_celo_ok = refl

usdc_celo_sepolia_ok : check_rail usdc_celo_sepolia ≡ ok tt
unfolding check_rail is_hex_of is_hex_digit codes is_sha256_text text_eq ◌>>=◌
usdc_celo_sepolia_ok = refl

usdc_base_sepolia_ok : check_rail usdc_base_sepolia ≡ ok tt
unfolding check_rail is_hex_of is_hex_digit codes is_sha256_text text_eq ◌>>=◌
usdc_base_sepolia_ok = refl

usdt0_flare_ok : check_rail usdt0_flare ≡ ok tt
unfolding check_rail is_hex_of is_hex_digit codes is_sha256_text text_eq ◌>>=◌
usdt0_flare_ok = refl

-- What is known of a rail by its construction.
pub record IsKnown (r : RailConfig) : Type 0 where
  pub checked : check_rail r ≡ ok tt
  pub read_only : r.signing_enabled ≡ false
  pub identity :
      (r.attestation.calibrated ≡ false)
      ⊎ ((str_eq r.attestation.network_class "local" ≡ true) ⊎ (is_pinned r.attestation ≡ true))

all-IsKnown : All IsKnown known_rails
unfolding is_pinned
all-IsKnown = (
  record { checked = mock_anvil_ok; read_only = refl; identity = inr (inl refl) },
  (
    record { checked = usdc_base_ok; read_only = refl; identity = inr (inr refl) },
    (
      record { checked = usdc_polygon_ok; read_only = refl; identity = inr (inr refl) },
      (
        record { checked = jpyc_polygon_ok; read_only = refl; identity = inl refl },
        (
          record { checked = eurc_base_ok; read_only = refl; identity = inr (inr refl) },
          (
            record { checked = usdc_celo_ok; read_only = refl; identity = inr (inr refl) },
            (
              record {
                checked = usdc_celo_sepolia_ok;
                read_only = refl;
                identity = inr (inr refl);
              },
              (
                record {
                  checked = usdc_base_sepolia_ok;
                  read_only = refl;
                  identity = inr (inr refl);
                },
                (
                  record { checked = usdt0_flare_ok; read_only = refl; identity = inr (inr refl) },
                  tt,
                ),
              ),
            ),
          ),
        ),
      ),
    ),
  ),
)

found :
    (b : Bool) (s r : RailConfig) (rest : Option RailConfig)
    → (if b then some s else rest) ≡ some r
    → ((b ≡ true) × (s ≡ r)) ⊎ (rest ≡ some r)
found true s r rest h = inl (refl, cc)
found false s r rest h = inr h

rail_in-IsKnown :
    (rails : List RailConfig) (key : String) (r : RailConfig)
    → All IsKnown rails
    → rail_in rails key ≡ some r
    → (r.key ≡ key) × IsKnown r
unfolding rail_in
rail_in-IsKnown [] key r a h = cc
rail_in-IsKnown (s ∷ rails) key r (k, a) h = elim (found (str_eq s.key key) s r _ h) [
  | inl (t, e) ↦
      (ap (λ (q : RailConfig). q.key) (sym e) ∙ (str_eq_iff s.key key).0 t, subst IsKnown e k)
  | inr later ↦ rail_in-IsKnown rails key r a later
]

-- A rail that `get_rail` finds has the key that was asked for, passes every check of the
-- constructors, and never signs; and it is uncalibrated, or of a local chain, or its reviewed block,
-- its code and what is behind its proxy are pinned.
pub get_rail-IsKnown :
    (key : String) (r : RailConfig) → get_rail key ≡ some r → (r.key ≡ key) × IsKnown r
unfolding get_rail
get_rail-IsKnown key r h = rail_in-IsKnown known_rails key r all-IsKnown h
