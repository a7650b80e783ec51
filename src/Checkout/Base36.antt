-- ===== src/Checkout/Base36.antt =====
-- A fingerprint says which hash it was made of.
use clock.Base.{
  Bool-cases, List, [], ap, arith, drop, if◌then◌else◌, inl, inr, ltb, map, suc, true, zero, ℕ, ◌%◌,
  ◌*◌, ◌+◌, ◌-◌, ◌/◌, ◌<◌, ◌^◌, ◌∙◌, ◌∷◌, ◌≡◌,
}
use clock.Checkout.{
  CartLine, checkout_fingerprint, digit36, hash_text, join_bars, line_part, sort_texts, to_base36,
}
use clock.Text.{Text}
use native.Mathlib.Nat.{pow-suc}

-- Reads digits of base 36 back
abbrev pub from_base36 : ℕ → Text → ℕ
from_base36 m [] = m
from_base36 m (c ∷ s) = from_base36 (m * 36 + (if ltb c b'a' then c - b'0' else c - b'a' + 10)) s

from_base36-cons :
    (m d : ℕ) (s : Text) → d < 36 → from_base36 m (digit36 d ∷ s) ≡ from_base36 (m * 36 + d) s
from_base36-cons m d s small = ground arith

-- `fuel` digits are enough for a number below the power.
from_base36-to_base36 :
    (fuel n : ℕ) (s : Text)
    → n < 36 ^ fuel
    → 0 < fuel
    → from_base36 0 (to_base36 fuel n s) ≡ from_base36 n s
unfolding to_base36
from_base36-to_base36 zero n s h some_fuel = absurd (omega arith)
from_base36-to_base36 (suc zero) n s h some_fuel =
    let short : ltb n 36 ≡ true = ground (arith, h) in
    let whole : 0 * 36 + n ≡ n = omega arith in
    rw short (from_base36-cons 0 n s (ground arith) ∙ ap (λ k. from_base36 k s) whole)
from_base36-to_base36 (suc (suc fuel)) n s h some_fuel = elim (Bool-cases (ltb n 36)) [
  | inl short ↦
      let whole : 0 * 36 + n ≡ n = omega arith in
      rw short (from_base36-cons 0 n s (ground arith) ∙ ap (λ k. from_base36 k s) whole)
  | inr long ↦
      let whole : n / 36 * 36 + n % 36 ≡ n = omega arith in
      rw long (
        from_base36-to_base36 (suc fuel) (n / 36) (digit36 (n % 36) ∷ s)
          (omega (arith, h, pow-suc 36 (suc fuel))) (omega arith)
        ∙ from_base36-cons (n / 36) (n % 36) s (omega arith)
        ∙ ap (λ k. from_base36 k s) whole)
]

hash_text-bound : (h : ℕ) (s : Text) → h < 2 ^ 32 → hash_text h s < 2 ^ 32
unfolding hash_text
hash_text-bound h [] small = small
hash_text-bound h (c ∷ s) small = hash_text-bound ((h * 31 + c) % 2 ^ 32) s (omega arith)

-- The digits of a fingerprint, read back, are the hash of the cart's text, which fits 32 bits.
pub checkout_fingerprint-hash :
    (items : List CartLine)
    → let h = hash_text 0 (join_bars (sort_texts (map line_part items))) in
      (from_base36 0 (drop 2 (checkout_fingerprint items)) ≡ h) × (h < 2 ^ 32)
unfolding checkout_fingerprint
checkout_fingerprint-hash items =
    let t = join_bars (sort_texts (map line_part items)) in
    let small = hash_text-bound 0 t (omega arith) in
    (from_base36-to_base36 7 (hash_text 0 t) [] (omega (arith, small)) (omega arith), small)
