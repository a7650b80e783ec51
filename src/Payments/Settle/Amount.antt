-- ===== src/Payments/Settle/Amount.antt =====
-- The amount of a payment link, written by `buildPayUrl` and read back by `settlePayment`.
use clock.Base.{
  Bool-cases, [], ap, arith, inl, inr, ltb, some, suc, true, zero, ℕ, ◌%◌, ◌*◌, ◌+◌, ◌/◌, ◌<◌, ◌↔◌,
  ◌∙◌, ◌∷◌, ◌≡◌,
}
use clock.Payments.Settle.{amount_ok, parse_digits}
use clock.Text.{Text}
use clock.Vnpay.{digits_from, to_digits}

parse_digits-cons :
    (m d : ℕ) (s : Text) → d < 10 → parse_digits m ((b'0' + d) ∷ s) ≡ parse_digits (m * 10 + d) s
unfolding parse_digits
parse_digits-cons m d s small = ground arith

parse_digits-digits_from :
    (fuel n : ℕ) (s : Text) → n < fuel → parse_digits 0 (digits_from fuel n s) ≡ parse_digits n s
unfolding digits_from
parse_digits-digits_from zero n s h = absurd (omega arith)
parse_digits-digits_from (suc fuel) n s h = elim (Bool-cases (ltb n 10)) [
  | inl short ↦
      let whole : 0 * 10 + n ≡ n = omega arith in
      rw short (parse_digits-cons 0 n s (ground arith) ∙ ap (λ k. parse_digits k s) whole)
  | inr long ↦
      let whole : n / 10 * 10 + n % 10 ≡ n = omega arith in
      rw long (
        parse_digits-digits_from fuel (n / 10) ((b'0' + n % 10) ∷ s) (ground arith)
        ∙ parse_digits-cons (n / 10) (n % 10) s (omega arith)
        ∙ ap (λ k. parse_digits k s) whole)
]

-- A number that is written in decimal digits is read back as itself.
pub parse_digits-to_digits : (n : ℕ) → parse_digits 0 (to_digits n) ≡ some n
unfolding to_digits parse_digits
parse_digits-to_digits n = parse_digits-digits_from (n + 1) n [] (omega arith)

-- The amount that a link carries, in hundredths of a dong, is accepted for the payment of that amount, and for no other.
pub amount_ok-to_digits :
    (paid expected : ℕ) → (amount_ok (to_digits (paid * 100)) expected ≡ true) ↔ (paid ≡ expected)
unfolding amount_ok
amount_ok-to_digits paid expected =
    rw (amount_ok, parse_digits-to_digits (paid * 100)) (ground arith)
