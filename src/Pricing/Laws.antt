-- ===== src/Pricing/Laws.antt =====
-- What `linePrice` promises to the cart and to the orders.
use clock.Base.{
  All, List, Option, [], arith, none, pos_part, refl, some, ℕ, ℤ, ◌*◌, ◌+◌, ◌∷◌, ◌≡◌, ◌≤◌,
}
use clock.Pricing.{StrapOption, line_price, strap_delta, strap_options, usd_to_vnd}
use clock.Text.{Text}

strap_delta-le :
    (options : List StrapOption) (strap : Option Text) (top : ℕ)
    → All (λ o. o.price_delta_usd ≤ top) options
    → strap_delta options strap ≤ top
unfolding strap_delta
strap_delta-le [] strap top h = omega arith
strap_delta-le (o ∷ options) none top h = omega arith
strap_delta-le (o ∷ options) (some s) top h = ground (arith, strap_delta-le options (some s) top)

-- A line costs its base price, never below 0, plus at most 4500 dollars for the strap, and its price
-- in dong is the price in dollars times the fixed rate.
pub line_price_bounds :
    (usd : ℤ) (strap : Option Text)
    → let p = line_price usd strap in
      (pos_part usd ≤ p.price_usd)
      × (p.price_usd ≤ pos_part usd + 4500)
      × (p.price_vnd ≡ p.price_usd * usd_to_vnd)
unfolding line_price
line_price_bounds usd strap =
    let h = strap_delta-le strap_options strap 4500 (omega arith) in
    (omega arith, omega arith, refl)
