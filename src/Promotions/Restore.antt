-- ===== src/Promotions/Restore.antt =====
-- What the closing of a promotion does to the prices.
use clock.Base.{
  Bool-cases, List, [], arith, false, if◌then◌else◌, inl, inr, refl, some, sym, ℤ, ◌∙◌, ◌∷◌, ◌≡◌,
}
use clock.Db.RowLaws.{find_where-true, find_where-update_where}
use clock.Promotions.{Listing, Promotion, Shelf}
use clock.Promotions.Close.{
  find_listing, is_listing, restore_price, restore_prices, same_price, set_price,
}
use clock.Text.{Text, eq_of_text_eq, text_eq}

-- The price of one entry, put back
abbrev pub settle : ℤ → Listing → Listing
settle usd l = if same_price l.price_usd usd then l else set_price usd l

-- What the entries of a snapshot do to one product
unfoldable pub put_back : List (Text × ℤ) → Listing → Listing
put_back [] l = l
put_back ((slug, usd) ∷ snap) l = put_back snap (if text_eq l.slug slug then settle usd l else l)

restore_price-own :
    (p : Promotion) (reason : Text) (usd : ℤ) (slugs : List Text) (db : Shelf) (s : Text)
    (l : Listing)
    → find_listing s db ≡ some l
    → find_listing s (restore_price p reason s usd (slugs, db)).1 ≡ some (settle usd l)
restore_price-own p reason usd slugs db s l h = ground (
  arith,
  h,
  find_where-true (is_listing s) db.listings l h,
  find_where-update_where (is_listing s) (is_listing s) (set_price usd) db.listings (λ l. refl),
)

restore_price-other :
    (p : Promotion) (reason slug : Text) (usd : ℤ) (slugs : List Text) (db : Shelf) (s : Text)
    (l : Listing)
    → find_listing s db ≡ some l
    → text_eq l.slug slug ≡ false
    → find_listing s (restore_price p reason slug usd (slugs, db)).1 ≡ some l
restore_price-other p reason slug usd slugs db s l h other = ground (
  arith,
  h,
  other,
  find_where-update_where (is_listing slug) (is_listing s) (set_price usd) db.listings (λ l. refl),
)

-- One entry, seen at one product
find_listing-restore_price :
    (p : Promotion) (reason slug : Text) (usd : ℤ) (acc : List Text × Shelf) (s : Text)
    (l : Listing)
    → find_listing s acc.1 ≡ some l
    → find_listing s (restore_price p reason slug usd acc).1
      ≡ some (if text_eq l.slug slug then settle usd l else l)
find_listing-restore_price p reason slug usd (slugs, db) s l h =
    elim (Bool-cases (text_eq l.slug slug)) [
      | inl e ↦
          let own = eq_of_text_eq _ _ (find_where-true (is_listing s) db.listings l h) in
          let same : slug ≡ s = sym (eq_of_text_eq _ _ e) ∙ own in
          rw (e, same) (restore_price-own p reason usd slugs db s l h)
      | inr other ↦ rw other (restore_price-other p reason slug usd slugs db s l h other)
    ]

pub find_listing-restore_prices :
    (p : Promotion) (reason : Text) (snap : List (Text × ℤ)) (acc : List Text × Shelf) (s : Text)
    (l : Listing)
    → find_listing s acc.1 ≡ some l
    → find_listing s (restore_prices p reason snap acc).1 ≡ some (put_back snap l)
unfolding restore_prices put_back
find_listing-restore_prices p reason [] acc s l h = h
find_listing-restore_prices p reason ((slug, usd) ∷ snap) acc s l h =
    find_listing-restore_prices p reason snap (restore_price p reason slug usd acc) s _
      (find_listing-restore_price p reason slug usd acc s l h)
