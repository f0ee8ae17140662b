-- ===== src/SecurityChecks/Entropy.antt =====
-- Which order ids `sufficient_id_entropy` of src/psv/security_checks.py accepts.
use psv.Base.{
  ℕ, ◌≤◌, ◌<◌, ◌≡◌, refl, ap, ◌↔◌, ◌⊎◌, inl, inr, true, [], ◌∷◌, ◌++◌, arith, Bool-cases, length,
  all,
}
use psv.Text.{Text, is_hex_digit}
use psv.SecurityChecks.{matches_hex, random_part, sufficient_id_entropy}

-- Hex digits, at least one.
abbrev pub IsHexRun : Text → Type 0
IsHexRun s = (0 < length s) × (all is_hex_digit s ≡ true)

abbrev pub newline : Text
newline = 10 ∷ []

matches_hex_run : (s : Text) → IsHexRun s → matches_hex s ≡ true
unfolding matches_hex
matches_hex_run [] (p, h) = absurd (omega arith)
matches_hex_run (c ∷ []) (p, h) = ground (arith, h)
matches_hex_run (c ∷ d ∷ s) (p, h) = ground (arith, h, matches_hex_run (d ∷ s))

matches_hex_line : (s : Text) → IsHexRun s → matches_hex (s ++ newline) ≡ true
unfolding matches_hex
matches_hex_line [] (p, h) = absurd (omega arith)
matches_hex_line (c ∷ []) (p, h) = ground (arith, h)
matches_hex_line (c ∷ d ∷ s) (p, h) = ground (arith, h, matches_hex_line (d ∷ s))

-- The random part is hex digits, but for one newline at the end.
abbrev pub IsAccepted : Text → Type 0
IsAccepted s = (run : Text) × IsHexRun run × ((s ≡ run) ⊎ (s ≡ run ++ newline))

extend-IsAccepted : (c : ℕ) (s : Text) → is_hex_digit c ≡ true → IsAccepted s → IsAccepted (c ∷ s)
extend-IsAccepted c s h (run, (p, r), inl e) =
    (c ∷ run, (omega arith, ground (arith, h, r)), inl (ap (λ t. c ∷ t) e))
extend-IsAccepted c s h (run, (p, r), inr e) =
    (c ∷ run, (omega arith, ground (arith, h, r)), inr (ap (λ t. c ∷ t) e))

last-IsAccepted :
    (c d : ℕ) (s : Text) → is_hex_digit c ≡ true → d ≡ 10 → length s ≡ 0 → IsAccepted (c ∷ d ∷ s)
last-IsAccepted c d [] h e n =
    (c ∷ [], (omega arith, ground (arith, h)), inr (ap (λ t. c ∷ t ∷ []) e))
last-IsAccepted c d (x ∷ s) h e n = absurd (omega arith)

matches_hex_sound : (s : Text) → matches_hex s ≡ true → IsAccepted s
unfolding matches_hex
matches_hex_sound [] h = cc
matches_hex_sound (c ∷ []) h = (c ∷ [], (omega arith, ground (arith, h)), inl refl)
matches_hex_sound (c ∷ d ∷ s) h =
    let first : is_hex_digit c ≡ true = ground (arith, h) in
    elim (Bool-cases (matches_hex (d ∷ s))) [
      | inl t ↦ extend-IsAccepted c (d ∷ s) first (matches_hex_sound (d ∷ s) t)
      | inr f ↦ last-IsAccepted c d s first (ground (arith, h, f)) (ground (arith, h, f))
    ]

matches_hex_complete : (s : Text) → IsAccepted s → matches_hex s ≡ true
matches_hex_complete s (run, h, inl e) = rw e (matches_hex_run run h)
matches_hex_complete s (run, h, inr e) = rw e (matches_hex_line run h)

-- An order id is accepted, if and only if what follows its prefix has the length that is asked for,
-- and is one or more hex digits, with or without a newline after them, which counts as a character.
pub sufficient_id_entropy_iff :
    (order_id prefix : Text) (min_random_hex : ℕ)
    → (sufficient_id_entropy order_id prefix min_random_hex ≡ true) ↔ (
        (min_random_hex ≤ length (random_part prefix order_id))
        × IsAccepted (random_part prefix order_id))
unfolding sufficient_id_entropy
sufficient_id_entropy_iff order_id prefix min_random_hex =
    let s = random_part prefix order_id in
    (
      λ h. (ground (arith, h), matches_hex_sound s (ground (arith, h))),
      λ (n, a). ground (arith, n, matches_hex_complete s a),
    )
