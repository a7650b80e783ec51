-- ===== src/Orders/Create/Amount.antt =====
-- The numbers of an order under construction. A request may hold text where a number belongs, or a
-- number beyond JavaScript's range, so an amount may be NaN or infinite until it is stored.
use clock.Base.{
  Bool, Number, Option, clamp, false, finite, if◌then◌else◌, infinity, ltb, nan, neg_infinity, none,
  pos, pos_part, some, true, ℕ, ◌*◌, ◌+◌, ◌/◌, ◌==◌,
}
use clock.Pricing.{line_price}
use clock.Text.{Text}

pub data Amount : Type 0 where
  num : ℕ → Amount
  infinite not_a_number : Amount

infixl 65 ◌+ₐ◌
abbrev pub ◌+ₐ◌ : Amount → Amount → Amount
num a +ₐ num b = num (a + b)
not_a_number +ₐ b = not_a_number
num a +ₐ b = b
infinite +ₐ not_a_number = not_a_number
infinite +ₐ _ = infinite

-- `0 * Infinity` is NaN.
abbrev pub times : Amount → Amount → Amount
times (num a) (num b) = num (a * b)
times (num a) infinite = if a == 0 then not_a_number else infinite
times infinite (num b) = if b == 0 then not_a_number else infinite
times infinite infinite = infinite
times _ _ = not_a_number

-- `amount <= 0`
abbrev pub is_zero : Amount → Bool
is_zero (num n) = n == 0
is_zero _ = false

-- `n < amount`, which NaN never is
abbrev pub below : ℕ → Amount → Bool
below n (num m) = ltb n m
below n infinite = true
below n not_a_number = false

-- `Math.min(99, Math.max(1, Math.floor(Number(qty ?? 1))))`, which keeps NaN
abbrev pub order_qty : Option Number → Amount
order_qty none = num 1
order_qty (some nan) = not_a_number
order_qty (some infinity) = num 99
order_qty (some neg_infinity) = num 1
order_qty (some (finite z)) = num (clamp 1 99 z)

-- `Math.max(0, Math.floor(Number(price) || 0))`; a missing price is NaN
abbrev pub custom_price : Number → Amount
custom_price nan = num 0
custom_price infinity = infinite
custom_price neg_infinity = num 0
custom_price (finite z) = num (pos_part z)

-- `linePrice` of an amount: the price in dollars and in dong
abbrev pub price_of_amount : Amount → Text → Amount × Amount
price_of_amount (num n) strap =
    let p = line_price (pos n) (some strap) in (num p.price_usd, num p.price_vnd)
price_of_amount infinite strap = (infinite, infinite)
price_of_amount not_a_number strap = (not_a_number, not_a_number)

-- `Math.round(amount * 0.2)`: a fifth of a whole number is never halfway between two
abbrev pub fifth : Amount → Amount
fifth (num n) = num ((n + 2) / 5)
fifth a = a
