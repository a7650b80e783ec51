-- ===== src/Promotions.antt =====
-- Promotions: backend/src/admin/admin-promotions.service.ts and promotion-expire.service.ts, on the
-- tables Promotion, Product (its prices) and ProductEvent, and what is sent to the search index.
pub mod Close
pub mod Restore
pub mod Laws
pub mod RoundTrip
pub mod Expire
pub mod Apart
use clock.Base.{
  Bool, List, Option, [], any, false, filter, if◌then◌else◌, is_empty, is_some, leb, ltb, negsuc,
  none, not, pos, some, take, true, ℕ, ℤ, ◌&&◌, ◌*◌, ◌++◌, ◌+◌, ◌||◌, ◌∷◌,
}
use clock.Db.Rows.{find_where}
use clock.Text.{Text, includes, trim}

-- A finite discount is a fraction, its denominator one more than what is written.
pub data Discount : Type 0 where
  no_number : Discount
  fraction : ℤ → ℕ → Discount

pub record Promotion : Type 0 where
  pub id : ℕ
  pub name : Text
  pub listing_slugs : List Text
  pub discount_pct : Discount
  pub starts_at : ℕ
  pub ends_at : ℕ
  pub active : Bool
  -- the price in dollars of each product, when the promotion was made
  pub price_snapshot : List (Text × ℤ)
  pub created_by : Option ℕ

pub record Listing : Type 0 where
  pub slug : Text
  pub price_usd : ℤ
  pub price_vnd : ℕ

pub record ProductEvent : Type 0 where
  pub slug : Text
  pub by_promotion : ℕ
  pub reason : Text
  pub price_usd : ℤ

pub record Shelf : Type 0 where
  pub listings : List Listing
  pub promotions : List Promotion
  pub product_events : List ProductEvent
  -- the products that the search index was told of
  pub indexed : List Text
  pub next_promotion : ℕ

pub data PromotionError : Type 0 where
  no_name_or_products bad_discount bad_dates clashing no_promotion : PromotionError

pub data Outcome (A : Type 0) : Type 0 where
  carried : A → Outcome A
  stopped : PromotionError → Outcome A

-- A request's body: dates are `none` if they are none, and a missing list is empty.
pub record PromotionInput : Type 0 where
  pub name : Text
  pub listing_slugs : List Text
  pub discount_pct : Discount
  pub starts_at : Option ℕ
  pub ends_at : Option ℕ

abbrev pub magnitude : ℤ → ℕ
magnitude (pos n) = n
magnitude (negsuc n) = n + 1

-- finite, not 0, and at most 90 either way
unfoldable pub fit_discount : Discount → Bool
fit_discount no_number = false
fit_discount (fraction n d) = leb 1 (magnitude n) && leb (magnitude n) (90 * (d + 1))

-- the two dates, if they are dates and in order
unfoldable pub fit_dates : Option ℕ → Option ℕ → Option (ℕ × ℕ)
fit_dates (some a) (some b) = if ltb a b then some (a, b) else none
fit_dates _ _ = none

abbrev pub non_blank : Text → Bool
non_blank s = not (is_empty s)

-- active, and not over
abbrev pub is_running : ℕ → Promotion → Bool
is_running now p = p.active && ltb now p.ends_at

abbrev pub shares_slug : List Text → Promotion → Bool
shares_slug slugs p = any (λ s. includes slugs s) p.listing_slugs

unfoldable pub find_clash : List Text → ℕ → Shelf → Option Promotion
unfolding includes
find_clash slugs now db = find_where (shares_slug slugs) (filter (is_running now) db.promotions)

unfoldable pub snapshot_of : List Text → List Listing → List (Text × ℤ)
unfolding includes
snapshot_of slugs [] = []
snapshot_of slugs (l ∷ ls) =
    let rest = snapshot_of slugs ls in
    if includes slugs l.slug then (l.slug, l.price_usd) ∷ rest else rest

abbrev pub cut_name : Text → Text
cut_name name = take 80 (trim name)

abbrev pub new_promotion : PromotionInput → ℕ × ℕ → Option ℕ → Shelf → Promotion
new_promotion body dates by db =
    let slugs = filter non_blank body.listing_slugs in
    record {
      id = db.next_promotion;
      name = cut_name body.name;
      listing_slugs = slugs;
      discount_pct = body.discount_pct;
      starts_at = dates.0;
      ends_at = dates.1;
      active = true;
      price_snapshot = snapshot_of slugs db.listings;
      created_by = by;
    }

abbrev pub add_promotion : Promotion → Shelf → Shelf
add_promotion p db = record db {
  promotions = db.promotions ++ (p ∷ []);
  next_promotion = db.next_promotion + 1;
}

-- The warning of the copy check changes nothing, and is left out.
unfoldable pub create_promotion : PromotionInput → Option ℕ → ℕ → Shelf → Outcome Promotion × Shelf
unfolding trim fit_discount fit_dates find_clash snapshot_of
create_promotion body by now db =
    let slugs = filter non_blank body.listing_slugs in
    if is_empty (cut_name body.name) || is_empty slugs
    then (stopped no_name_or_products, db)
    else if not (fit_discount body.discount_pct)
    then (stopped bad_discount, db)
    else elim (fit_dates body.starts_at body.ends_at) [
      | none ↦ (stopped bad_dates, db)
      | some dates ↦ if is_some (find_clash slugs now db) then (stopped clashing, db) else (
        carried (new_promotion body dates by db),
        add_promotion (new_promotion body dates by db) db,
      )
    ]
