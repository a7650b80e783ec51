-- ===== src/Text/Laws.antt =====
-- Equality of strings, trimming and lower case.
use clock.Base.{[], arith, refl, true, ℕ, ◌↔◌, ◌∷◌, ◌≡◌, ◌≤◌}
use clock.Text.Defs.{Text, lower_wide, text_eq}

pub text_eq_refl : (s : Text) → text_eq s s ≡ true
unfolding text_eq
text_eq_refl [] = refl
text_eq_refl (c ∷ s) = ground (arith, text_eq_refl s)

pub eq_of_text_eq : (s t : Text) → text_eq s t ≡ true → s ≡ t
unfolding text_eq
eq_of_text_eq [] [] h = refl
eq_of_text_eq [] (d ∷ t) h = cc
eq_of_text_eq (c ∷ s) [] h = cc
eq_of_text_eq (c ∷ s) (d ∷ t) h = ground (arith, eq_of_text_eq s t)

pub text_eq_iff : (s t : Text) → (text_eq s t ≡ true) ↔ (s ≡ t)
text_eq_iff s t = (eq_of_text_eq s t, λ e. rw e (text_eq_refl t))

pub text_eq_comm : (s t : Text) → text_eq s t ≡ text_eq t s
text_eq_comm s t = ground (arith, text_eq_iff s t, text_eq_iff t s)

-- A letter beyond ASCII stays beyond it.
pub lower_wide-le : (c : ℕ) → c ≤ lower_wide c
unfolding lower_wide
lower_wide-le c = ground arith
