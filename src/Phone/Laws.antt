-- ===== src/Phone/Laws.antt =====
-- The normal form of a phone number: it forgets separators and the way the country code is written.
use clock.Base.{
  [], all, ap, arith, if◌then◌else◌, is_empty, none, refl, some, sym, true, ℕ, ◌&&◌, ◌++◌, ◌∙◌, ◌∷◌,
  ◌≡◌,
}
use clock.Phone.{is_digit, is_vn_mobile, localize, mobile_of, normalize_vn_phone, strip_separators}
use clock.Text.{
  Text, codes, is_space, lower, starts_with, to_lower_case, trim, trim_end, trim_start,
}

strip-trim_start : (s : Text) → strip_separators (trim_start s) ≡ strip_separators s
unfolding strip_separators trim_start
strip-trim_start [] = refl
strip-trim_start (c ∷ s) = ground (arith, strip-trim_start s)

strip-cons_end :
    (c : ℕ) (s t : Text)
    → strip_separators t ≡ strip_separators s
    → strip_separators (if is_space c && is_empty t then [] else c ∷ t) ≡ strip_separators (c ∷ s)
unfolding strip_separators
strip-cons_end c s [] e = ground arith
strip-cons_end c s (d ∷ t) e = ground arith

strip-trim_end : (s : Text) → strip_separators (trim_end s) ≡ strip_separators s
unfolding trim_end
strip-trim_end [] = refl
strip-trim_end (c ∷ s) = strip-cons_end c s (trim_end s) (strip-trim_end s)

pub strip-trim : (s : Text) → strip_separators (trim s) ≡ strip_separators s
unfolding trim
strip-trim s = strip-trim_end (trim_start s) ∙ strip-trim_start s

mobile_of-nil : mobile_of [] ≡ none
unfolding mobile_of localize is_vn_mobile starts_with
mobile_of-nil = refl

-- The blank text needs no test of its own: it holds no number.
pub normalize-eq-mobile_of :
    (raw : Text) → normalize_vn_phone raw ≡ mobile_of (strip_separators raw)
unfolding normalize_vn_phone strip_separators
normalize-eq-mobile_of raw = rw (← strip-trim raw) (go (trim raw))
  where
    go :
        (t : Text)
        → (if is_empty t then none else mobile_of (strip_separators t))
          ≡ mobile_of (strip_separators t)
    go [] = sym mobile_of-nil
    go (c ∷ t) = refl

all-digits-strip : (p : Text) → all is_digit p ≡ true → strip_separators p ≡ p
unfolding strip_separators is_space
all-digits-strip [] h = refl
all-digits-strip (c ∷ p) h = ground (arith, all-digits-strip p)

pub is_vn_mobile-digits : (p : Text) → is_vn_mobile p ≡ true → all is_digit p ≡ true
unfolding is_vn_mobile
is_vn_mobile-digits [] h = cc
is_vn_mobile-digits (z ∷ []) h = cc
is_vn_mobile-digits (z ∷ c ∷ rest) h = ground arith

localize-mobile : (p : Text) → is_vn_mobile p ≡ true → localize p ≡ p
unfolding is_vn_mobile localize starts_with
localize-mobile [] h = cc
localize-mobile (z ∷ []) h = cc
localize-mobile (z ∷ c ∷ rest) h = ground arith

mobile_of-some : (t p : Text) → mobile_of t ≡ some p → is_vn_mobile p ≡ true
unfolding mobile_of
mobile_of-some t p h = ground arith

mobile_of-mobile : (p : Text) → is_vn_mobile p ≡ true → mobile_of p ≡ some p
unfolding mobile_of
mobile_of-mobile p h = ground (arith, localize-mobile p h)

-- A number in normal form is its own normal form.
pub normalize-mobile : (p : Text) → is_vn_mobile p ≡ true → normalize_vn_phone p ≡ some p
normalize-mobile p h =
    rw (normalize-eq-mobile_of p, all-digits-strip p (is_vn_mobile-digits p h))
      (mobile_of-mobile p h)

-- Two texts that differ in separators alone have one normal form.
pub normalize_separators :
    (s t : Text)
    → strip_separators s ≡ strip_separators t
    → normalize_vn_phone s ≡ normalize_vn_phone t
normalize_separators s t e = rw (normalize-eq-mobile_of s, normalize-eq-mobile_of t, e)

-- A text that has a normal form: the form is a mobile number of ten digits, and bringing it to normal form again changes nothing.
pub normalize_idem :
    (raw p : Text)
    → normalize_vn_phone raw ≡ some p
    → (is_vn_mobile p ≡ true) × (normalize_vn_phone p ≡ some p)
normalize_idem raw p h =
    let m = mobile_of-some (strip_separators raw) p (sym (normalize-eq-mobile_of raw) ∙ h) in
    (m, normalize-mobile p m)

mobile_of_prefix :
    (rest : Text)
    → is_vn_mobile (b'0' ∷ rest) ≡ true
    → (mobile_of (codes "+84" ++ rest) ≡ some (b'0' ∷ rest))
      × (mobile_of (codes "0084" ++ rest) ≡ some (b'0' ∷ rest))
      × (mobile_of (codes "84" ++ rest) ≡ some (b'0' ∷ rest))
unfolding mobile_of localize is_vn_mobile starts_with
mobile_of_prefix [] h = cc
mobile_of_prefix (c ∷ rest) h = (ground arith, ground arith, ground arith)

digits-rest : (rest : Text) → is_vn_mobile (b'0' ∷ rest) ≡ true → all is_digit rest ≡ true
digits-rest rest h = ground (arith, is_vn_mobile-digits (b'0' ∷ rest) h)

strip_prefix :
    (rest : Text)
    → all is_digit rest ≡ true
    → (strip_separators (codes "+84" ++ rest) ≡ codes "+84" ++ rest)
      × (strip_separators (codes "0084" ++ rest) ≡ codes "0084" ++ rest)
      × (strip_separators (codes "84" ++ rest) ≡ codes "84" ++ rest)
unfolding strip_separators is_space
strip_prefix rest h = rw (all-digits-strip rest h) (refl, refl, refl)

-- A mobile number 0xxxxxxxxx has one normal form, itself, however the country code is written: +84, 0084 or 84 in place of the 0.
pub normalize_prefix :
    (rest : Text)
    → is_vn_mobile (b'0' ∷ rest) ≡ true
    → (normalize_vn_phone (codes "+84" ++ rest) ≡ some (b'0' ∷ rest))
      × (normalize_vn_phone (codes "0084" ++ rest) ≡ some (b'0' ∷ rest))
      × (normalize_vn_phone (codes "84" ++ rest) ≡ some (b'0' ∷ rest))
      × (normalize_vn_phone (b'0' ∷ rest) ≡ some (b'0' ∷ rest))
normalize_prefix rest h =
    let s = strip_prefix rest (digits-rest rest h) in
    let m = mobile_of_prefix rest h in
    (
      normalize-eq-mobile_of _ ∙ ap mobile_of s.0 ∙ m.0,
      normalize-eq-mobile_of _ ∙ ap mobile_of s.1 ∙ m.1,
      normalize-eq-mobile_of _ ∙ ap mobile_of s.2 ∙ m.2,
      normalize-mobile (b'0' ∷ rest) h,
    )

pub all-digits-lower : (s : Text) → all is_digit s ≡ true → to_lower_case s ≡ s
unfolding to_lower_case lower
all-digits-lower [] h = refl
all-digits-lower (c ∷ s) h = ground (arith, all-digits-lower s)
