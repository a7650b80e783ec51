-- ===== src/Phone/Ownership.antt =====
-- `sameContact` decides an equivalence on the contacts that are not blank.
use clock.Base.{
  Option, [], all, ap, arith, drop, false, is_empty, length, ltb, none, refl, some, suc, sym, true,
  zero, ℕ, ◌==◌, ◌↔◌, ◌∙◌, ◌∷◌, ◌≡◌,
}
use clock.Phone.{
  is_digit, is_mobile_digit, is_separator, is_vn_mobile, localize, mobile_of, normalize_vn_phone,
  same_contact, same_normalized, strip_separators,
}
use clock.Phone.Laws.{
  all-digits-lower, is_vn_mobile-digits, normalize-eq-mobile_of, normalize_separators, strip-trim,
}
use clock.Text.{
  Text, codes, is_space, lower, lower_wide, lower_wide-le, starts_with, text_eq_iff, to_lower_case,
  trim,
}

is_separator-lower : (c : ℕ) → is_separator (lower c) ≡ is_separator c
unfolding lower lower_wide is_space
is_separator-lower c = ground arith

strip-lower : (s : Text) → strip_separators (to_lower_case s) ≡ to_lower_case (strip_separators s)
unfolding strip_separators to_lower_case
strip-lower [] = refl
strip-lower (c ∷ s) = ground (arith, is_separator-lower c, strip-lower s)

==-lower : (c d : ℕ) → ltb c b'A' ≡ true → (c == lower d) ≡ (c == d)
unfolding lower
==-lower c d h = ground (arith, h, lower_wide-le d)

is_digit-lower : (c : ℕ) → is_digit (lower c) ≡ is_digit c
unfolding lower
is_digit-lower c = ground (arith, lower_wide-le c)

all-is_digit-lower : (s : Text) → all is_digit (to_lower_case s) ≡ all is_digit s
unfolding to_lower_case
all-is_digit-lower [] = refl
all-is_digit-lower (c ∷ s) = cc (is_digit-lower c, all-is_digit-lower s)

length-to_lower_case : (s : Text) → length (to_lower_case s) ≡ length s
unfolding to_lower_case
length-to_lower_case [] = refl
length-to_lower_case (c ∷ s) = ap suc (length-to_lower_case s)

drop-to_lower_case : (n : ℕ) (s : Text) → drop n (to_lower_case s) ≡ to_lower_case (drop n s)
unfolding to_lower_case
drop-to_lower_case zero s = refl
drop-to_lower_case (suc n) [] = refl
drop-to_lower_case (suc n) (c ∷ s) = drop-to_lower_case n s

starts_with-lower :
    (p s : Text)
    → all (λ c. ltb c b'A') p ≡ true
    → starts_with p (to_lower_case s) ≡ starts_with p s
unfolding starts_with to_lower_case
starts_with-lower [] s h = refl
starts_with-lower (c ∷ p) [] h = refl
starts_with-lower (c ∷ p) (d ∷ s) h = ground (arith, ==-lower c d, starts_with-lower p s)

to_lower_case-cons_zero : (s : Text) → to_lower_case (b'0' ∷ s) ≡ b'0' ∷ to_lower_case s
unfolding to_lower_case lower
to_lower_case-cons_zero s = refl

localize-lower : (s : Text) → localize (to_lower_case s) ≡ to_lower_case (localize s)
unfolding localize
localize-lower s =
    rw
      (
        starts_with-lower (codes "+84") s refl,
        starts_with-lower (codes "0084") s refl,
        starts_with-lower (codes "84") s refl,
        length-to_lower_case s,
        drop-to_lower_case 3 s,
        drop-to_lower_case 4 s,
        drop-to_lower_case 2 s,
        ← to_lower_case-cons_zero (drop 3 s),
        ← to_lower_case-cons_zero (drop 4 s),
        ← to_lower_case-cons_zero (drop 2 s),
      )
      (ground arith)

is_mobile_digit-lower : (c : ℕ) → is_mobile_digit (lower c) ≡ is_mobile_digit c
unfolding lower
is_mobile_digit-lower c = ground (arith, lower_wide-le c)

is_vn_mobile-lower : (s : Text) → is_vn_mobile (to_lower_case s) ≡ is_vn_mobile s
unfolding is_vn_mobile to_lower_case
is_vn_mobile-lower [] = refl
is_vn_mobile-lower (z ∷ []) = refl
is_vn_mobile-lower (z ∷ c ∷ rest) =
    ground (arith, ==-lower b'0' z refl, is_mobile_digit-lower c, rest_length, rest_digits)
  where
    rest_length : length (to_lower_case rest) ≡ length rest
    rest_length = length-to_lower_case rest

    rest_digits : all is_digit (to_lower_case rest) ≡ all is_digit rest
    rest_digits = all-is_digit-lower rest

to_lower_case-mobile : (p : Text) → is_vn_mobile p ≡ true → to_lower_case p ≡ p
to_lower_case-mobile p h = digits p (is_vn_mobile-digits p h)
  where
    digits : (s : Text) → all is_digit s ≡ true → to_lower_case s ≡ s
    digits s d = all-digits-lower s d

mobile_of-lower : (s : Text) → mobile_of (to_lower_case s) ≡ mobile_of s
unfolding mobile_of
mobile_of-lower s =
    rw (localize-lower s, is_vn_mobile-lower (localize s))
      (ground (arith, to_lower_case-mobile (localize s)))

normalize-lower : (s : Text) → normalize_vn_phone (to_lower_case s) ≡ normalize_vn_phone s
normalize-lower s = rw (
  normalize-eq-mobile_of (to_lower_case s),
  normalize-eq-mobile_of s,
  strip-lower s,
  mobile_of-lower (strip_separators s),
)

normalize-trim : (s : Text) → normalize_vn_phone (trim s) ≡ normalize_vn_phone s
normalize-trim s = normalize_separators (trim s) s (strip-trim s)

-- What `sameContact` compares: the phone number, or the text in lower case where there is none.
pub data Contact : Type 0 where
  phone_number : Text → Contact
  plain_text : Text → Contact

abbrev pub contact_of : Option Text → Text → Contact
contact_of (some p) x = phone_number p
contact_of none x = plain_text (to_lower_case x)

-- The contact that a text stands for.
unfoldable pub contact_key : Text → Contact
contact_key a = contact_of (normalize_vn_phone a) (trim a)

lower-normalize :
    (x y : Text) → to_lower_case x ≡ to_lower_case y → normalize_vn_phone x ≡ normalize_vn_phone y
lower-normalize x y e = sym (normalize-lower x) ∙ ap normalize_vn_phone e ∙ normalize-lower y

-- On normal forms that agree where the texts agree up to case, the test compares the contacts.
same_normalized_iff :
    (px py : Option Text) (x y : Text)
    → (to_lower_case x ≡ to_lower_case y → px ≡ py)
    → (same_normalized px py x y ≡ true) ↔ (contact_of px x ≡ contact_of py y)
same_normalized_iff (some p) (some q) x y h = ground (arith, text_eq_iff p q)
same_normalized_iff (some p) none x y h =
    ground (arith, text_eq_iff (to_lower_case x) (to_lower_case y))
same_normalized_iff none (some q) x y h =
    ground (arith, text_eq_iff (to_lower_case x) (to_lower_case y))
same_normalized_iff none none x y h =
    ground (arith, text_eq_iff (to_lower_case x) (to_lower_case y))

pub same_contact_iff :
    (a b : Text)
    → (same_contact a b ≡ true) ↔ (
        (is_empty (trim a) ≡ false) × (is_empty (trim b) ≡ false) × (contact_key a ≡ contact_key b))
unfolding same_contact contact_key
same_contact_iff a b =
    rw (normalize-trim a, normalize-trim b)
      (ground (
        arith,
        same_normalized_iff (normalize_vn_phone a) (normalize_vn_phone b) (trim a) (trim b) agree,
      ))
  where
    agree :
        to_lower_case (trim a) ≡ to_lower_case (trim b)
        → normalize_vn_phone a ≡ normalize_vn_phone b
    agree e = sym (normalize-trim a) ∙ lower-normalize (trim a) (trim b) e ∙ normalize-trim b

-- Ownership of an order does not depend on how the contact was written: if a text matches a second one and that a third, the first matches the third and the third the first.
pub same_contact_trans :
    (a b c : Text)
    → same_contact a b ≡ true
    → same_contact b c ≡ true
    → (same_contact a c ≡ true) × (same_contact c a ≡ true)
same_contact_trans a b c ab bc =
    ground (
      arith,
      same_contact_iff a b,
      same_contact_iff b c,
      same_contact_iff a c,
      same_contact_iff c a,
    )
