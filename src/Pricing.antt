-- ===== src/Pricing.antt =====
-- backend/src/common/strap-options.ts and backend/src/common/pricing.ts: the price of one line of
-- an order or a cart.
pub mod Laws
use clock.Base.{List, Option, [], if◌then◌else◌, none, pos_part, some, ℕ, ℤ, ◌*◌, ◌+◌, ◌∷◌}
use clock.Text.{Text, codes, text_eq}

pub record StrapOption : Type 0 where
  pub label : Text
  pub price_delta_usd : ℕ

abbrev pub crocodile_black : Text
crocodile_black = codes "Dây da cá sấu đen"

abbrev pub crocodile_cognac : Text
crocodile_cognac = codes "Dây da cá sấu nâu Cognac"

abbrev pub metal_bracelet : Text
metal_bracelet = codes "Dây kim loại tích hợp"

abbrev pub technical_rubber : Text
technical_rubber = codes "Dây cao su kỹ thuật cao cấp"

unfoldable pub strap_options : List StrapOption
strap_options =
    record { label = crocodile_black; price_delta_usd = 0 }
    ∷ record { label = crocodile_cognac; price_delta_usd = 0 }
    ∷ record { label = metal_bracelet; price_delta_usd = 4500 }
    ∷ record { label = technical_rubber; price_delta_usd = 1200 }
    ∷ []

abbrev pub usd_to_vnd : ℕ
usd_to_vnd = 25_200

pub record LinePrice : Type 0 where
  pub price_usd : ℕ
  pub price_vnd : ℕ

-- `strapOptions.find((s) => s.label === strap)?.priceDeltaUsd ?? 0`
unfoldable pub strap_delta : List StrapOption → Option Text → ℕ
strap_delta [] strap = 0
strap_delta (o ∷ options) none = 0
strap_delta (o ∷ options) (some strap) =
    if text_eq o.label strap then o.price_delta_usd else strap_delta options (some strap)

-- Prices are whole dollars, so the product with the rate needs no rounding.
unfoldable pub line_price : ℤ → Option Text → LinePrice
unfolding strap_options
line_price usd strap =
    let price_usd = pos_part usd + strap_delta strap_options strap in
    record { price_usd = price_usd; price_vnd = price_usd * usd_to_vnd }
