-- ===== src/SecurityChecks/Tests.antt =====
-- Order ids of src/psv/security_checks.py.
use psv.Base.{◌≤◌, ◌≡◌, refl, ◌↔◌, true, [], ◌∷◌, ◌++◌, length}
use psv.Text.{codes, starts_with}
use psv.SecurityChecks.{random_part, sufficient_id_entropy}
use psv.SecurityChecks.Entropy.{IsAccepted, sufficient_id_entropy_iff}

-- Eleven hex digits and a newline pass for twelve hex digits.
short_id : sufficient_id_entropy (codes "ord_0123456789a" ++ 10 ∷ []) (codes "ord_") 12 ≡ true
unfolding sufficient_id_entropy codes starts_with
short_id = refl

sufficient_id_entropy_iff_example :
    (sufficient_id_entropy (codes "ord_0123456789a" ++ 10 ∷ []) (codes "ord_") 12 ≡ true) ↔ (
      (12 ≤ length (random_part (codes "ord_") (codes "ord_0123456789a" ++ 10 ∷ [])))
      × IsAccepted (random_part (codes "ord_") (codes "ord_0123456789a" ++ 10 ∷ [])))
sufficient_id_entropy_iff_example =
    sufficient_id_entropy_iff (codes "ord_0123456789a" ++ 10 ∷ []) (codes "ord_") 12
