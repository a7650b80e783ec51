-- ===== src/Promotions/Close.antt =====
-- `closePromotion`, `setPromotionActive` and `expireDue`.
use clock.Base.{
  Bool, List, Option, [], false, filter, if◌then◌else◌, is_some, length, ltb, negsuc, none, not,
  pos, some, take, true, ℕ, ℤ, ◌&&◌, ◌++◌, ◌+◌, ◌==◌, ◌∷◌,
}
use clock.Db.Rows.{find_where, update_where}
use clock.Pricing.{line_price}
use clock.Promotions.{
  Listing, Outcome, ProductEvent, Promotion, Shelf, carried, no_promotion, stopped,
}
use clock.Text.{Text, codes, text_eq}

abbrev pub is_promotion : ℕ → Promotion → Bool
is_promotion id p = p.id == id

abbrev pub find_promotion : ℕ → Shelf → Option Promotion
find_promotion id db = find_where (is_promotion id) db.promotions

abbrev pub is_listing : Text → Listing → Bool
is_listing slug l = text_eq l.slug slug

abbrev pub find_listing : Text → Shelf → Option Listing
find_listing slug db = find_where (is_listing slug) db.listings

abbrev pub same_price : ℤ → ℤ → Bool
same_price (pos a) (pos b) = a == b
same_price (negsuc a) (negsuc b) = a == b
same_price _ _ = false

-- The price in dollars, and the one in dong that goes with it
abbrev pub set_price : ℤ → Listing → Listing
set_price usd l = record l { price_usd = usd; price_vnd = (line_price usd none).price_vnd }

abbrev pub end_event : Promotion → Text → Text → ℤ → ProductEvent
end_event p reason slug usd = record {
  slug = slug;
  by_promotion = p.id;
  reason = reason;
  price_usd = usd;
}

-- One entry of the snapshot: a product that is gone, or that has this price, is left alone.
abbrev pub restore_price : Promotion → Text → Text → ℤ → List Text × Shelf → List Text × Shelf
restore_price p reason slug usd (restored, db) = elim (find_listing slug db) [
  | none ↦ (restored, db)
  | some l ↦ if same_price l.price_usd usd then (restored, db) else (
    restored ++ (slug ∷ []),
    record db {
      listings = update_where (is_listing slug) (set_price usd) db.listings;
      product_events = db.product_events ++ (end_event p reason slug usd ∷ []);
    },
  )
]

unfoldable pub restore_prices :
    Promotion → Text → List (Text × ℤ) → List Text × Shelf → List Text × Shelf
restore_prices p reason [] acc = acc
restore_prices p reason ((slug, usd) ∷ snap) acc =
    restore_prices p reason snap (restore_price p reason slug usd acc)

abbrev pub set_active : Bool → Promotion → Promotion
set_active b p = record p { active = b }

abbrev pub update_promotion : ℕ → (Promotion → Promotion) → Shelf → Shelf
update_promotion id f db = record db { promotions = update_where (is_promotion id) f db.promotions }

-- `upsertProduct` of each product that is still there
abbrev pub index_products : List Text → Shelf → Shelf
index_products slugs db = record db {
  indexed = db.indexed ++ filter (λ s. is_some (find_listing s db)) slugs;
}

-- The answer is how many prices were restored.
unfoldable pub close_promotion : ℕ → Text → Shelf → Outcome ℕ × Shelf
unfolding restore_prices
close_promotion id reason db = elim (find_promotion id db) [
  | none ↦ (stopped no_promotion, db)
  | some p ↦
      if not p.active
      then (carried 0, db)
      else let ended = restore_prices p reason p.price_snapshot ([], db) in
        (
          carried (length ended.0),
          index_products ended.0 (update_promotion id (set_active false) ended.1),
        )
]

unfoldable pub set_promotion_active : ℕ → Bool → Shelf → Outcome ℕ × Shelf
unfolding close_promotion
set_promotion_active id b db =
    if not b
    then close_promotion id (codes "Tắt thủ công") db
    else if is_some (find_promotion id db)
    then (carried 0, update_promotion id (set_active true) db)
    else (stopped no_promotion, db)

-- active, and over
abbrev pub is_due : ℕ → Promotion → Bool
is_due now p = p.active && ltb p.ends_at now

abbrev pub one_if_made : Outcome ℕ → ℕ
one_if_made (carried n) = 1
one_if_made (stopped e) = 0

abbrev pub expiry_reason : Text
expiry_reason = codes "Hết hạn khuyến mãi (tự động)"

-- A promotion that cannot be closed is left for the next round.
unfoldable pub close_each : List Promotion → ℕ → Shelf → ℕ × Shelf
unfolding close_promotion
close_each [] closed db = (closed, db)
close_each (p ∷ ps) closed db =
    let (r, db') = close_promotion p.id expiry_reason db in
    close_each ps (closed + one_if_made r) db'

-- At most 50 promotions in one round
unfoldable pub expire_due : ℕ → Shelf → ℕ × Shelf
unfolding close_each
expire_due now db = close_each (take 50 (filter (is_due now) db.promotions)) 0 db
