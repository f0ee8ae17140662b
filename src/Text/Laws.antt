-- ===== src/Text/Laws.antt =====
-- Equality of texts, and the cases of `lower`.
use psv.Base.{
  ℕ, ◌≡◌, refl, ◌↔◌, Bool, true, false, ◌&&◌, [], ◌∷◌, arith, length, ◌==◌, if◌then◌else◌,
}
use psv.Text.{Text, text_eq, lower_char, lower}

pub text_eq_sound : (s t : Text) → text_eq s t ≡ true → s ≡ t
unfolding text_eq
text_eq_sound [] [] h = refl
text_eq_sound [] (d ∷ t) h = cc
text_eq_sound (c ∷ s) [] h = cc
text_eq_sound (c ∷ s) (d ∷ t) h = ground (arith, text_eq_sound s t)

pub text_eq_refl : (s : Text) → text_eq s s ≡ true
unfolding text_eq
text_eq_refl [] = refl
text_eq_refl (c ∷ s) = ground (arith, text_eq_refl s)

pub text_eq_complete : (s t : Text) → s ≡ t → text_eq s t ≡ true
text_eq_complete s t e = psv.Base.subst (λ r. text_eq s r ≡ true) e (text_eq_refl s)

pub text_eq_iff : (s t : Text) → (text_eq s t ≡ true) ↔ (s ≡ t)
text_eq_iff s t = (text_eq_sound s t, text_eq_complete s t)

pub lower_char_idem : (c : ℕ) → lower_char (lower_char c) ≡ lower_char c
unfolding lower_char
lower_char_idem c = ground arith

pub lower_idem : (s : Text) → lower (lower s) ≡ lower s
unfolding lower
lower_idem [] = refl
lower_idem (c ∷ s) = cc (lower_char_idem c, lower_idem s)

pub length-lower : (s : Text) → length (lower s) ≡ length s
unfolding lower
length-lower [] = refl
length-lower (c ∷ s) = ground (arith, length-lower s)
