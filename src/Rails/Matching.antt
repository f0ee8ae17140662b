-- ===== src/Rails/Matching.antt =====
-- What `check_rail_drift` of src/psv/rails.py says of a rail.
use psv.Rails.{RailAttestation}
use psv.Base.{◌≡◌, ◌⊎◌, true, some, str_eq}
use psv.Text.{Text}

-- A calibrated rail of a local chain, or one whose pinned code is the code that was seen.
abbrev pub IsMatching : RailAttestation → Text → Type 0
IsMatching a code_sha =
    (a.calibrated ≡ true)
    × ((str_eq a.network_class "local" ≡ true) ⊎ (a.expected_code_sha256 ≡ some code_sha))
