-- ===== src/Listings/Edits.antt =====
-- Any number of new products and changes, one after the other.
use clock.Base.{
  Bool-cases, List, Number, Option, Option-cases, [], any, arith, false, get_or, inl, inr,
  length-take, nan, none, refl, some, ℕ, ◌*◌, ◌<◌, ◌==◌, ◌||◌, ◌∷◌, ◌≡◌, ◌≤◌,
}
use clock.Db.Rows.{count_where, find_where, update_where}
use clock.Listings.{
  Listed, ListingDb, ProductBody, ProductListing, Stock, create_product, first_stock,
  has_listing_slug, insert_new, is_duplicate, is_free_of_charge, lacks_field, listed_as,
  new_listing, no_stock_number, price_of, too_many, unlisted_for, whole_pieces,
}
use clock.Listings.Laws.{
  IsCatalogue, IsPriced, cons-IsCatalogue, count_reference-new, count_reference-same,
  count_slug-update, has_reference, line_price-vnd, update-IsPriced,
}
use clock.Listings.Update.{
  DateChange, changed_row, date_change, is_no_date, is_taken, is_zero_price, new_count,
  new_price_vnd, next_count, update_found, update_product, write_row,
}
use clock.Text.{Text, trim}
use mathlib.Core.Path.{subst}

pub data Edit : Type 0 where
  made_new : ProductBody → Edit
  made_change : Text → ProductBody → Edit

abbrev after : Listed → ListingDb → ListingDb
after (listed_as slug out) db = out
after (unlisted_for e) db = db

-- One request of the user; one that is refused leaves the tables as they are.
unfoldable pub edit : (Text → Option ℕ) → Option ℕ → Edit → ListingDb → ListingDb
unfolding create_product update_product
edit dates user (made_new body) db = after (create_product body user db) db
edit dates user (made_change slug body) db = after (update_product dates slug body user db) db

unfoldable pub edits : (Text → Option ℕ) → Option ℕ → List Edit → ListingDb → ListingDb
unfolding edit
edits dates user [] db = db
edits dates user (e ∷ es) db = edits dates user es (edit dates user e db)

new_listing-IsPriced :
    (body : ProductBody) (price stock : ℕ)
    → (price == 0) ≡ false
    → IsPriced (new_listing body price stock)
new_listing-IsPriced body price stock positive =
    let (usd, vnd) = line_price-vnd price in
    (
      ground (arith, usd, positive),
      omega (arith, usd, vnd),
      length-take 200 (trim (get_or body.name [])),
    )

insert_new-IsCatalogue :
    (body : ProductBody) (user price : Option ℕ) (stock : Stock) (db : ListingDb)
    → is_free_of_charge price ≡ false
    → any (is_duplicate (trim (get_or body.slug [])) (trim (get_or body.reference []))) db.listings
      ≡ false
    → IsCatalogue db.listings
    → IsCatalogue (after (insert_new body user price stock db) db).listings
unfolding insert_new
insert_new-IsCatalogue body user (some price) (whole_pieces n) db paid new h =
    cons-IsCatalogue (new_listing body price n) db.listings (new_listing-IsPriced body price n paid)
      new h
insert_new-IsCatalogue body user (some price) no_stock_number db paid new h = h
insert_new-IsCatalogue body user (some price) too_many db paid new h = h
insert_new-IsCatalogue body user none stock db paid new h = h

create_product-IsCatalogue :
    (body : ProductBody) (user : Option ℕ) (db : ListingDb)
    → IsCatalogue db.listings
    → IsCatalogue (after (create_product body user db) db).listings
unfolding create_product
create_product-IsCatalogue body user db h =
    let slug = trim (get_or body.slug []) in
    let reference = trim (get_or body.reference []) in
    let price = price_of (get_or body.price_usd nan) in
    elim (Bool-cases (lacks_field body || is_free_of_charge price)) [
      | inl no_field ↦ rw no_field h
      | inr filled ↦ elim (Bool-cases (any (is_duplicate slug reference) db.listings)) [
        | inl there ↦ rw (filled, there) h
        | inr new ↦
            rw (filled, new)
              (insert_new-IsCatalogue body user price (first_stock body.stock) db
                (ground (arith, filled)) new h)
      ]
    ]

new_price-IsPriced :
    (n : Option Number) (price usd vnd : ℕ)
    → is_zero_price n (some price) ≡ false
    → 0 < usd
    → vnd ≡ usd * 25_200
    → (0 < new_count n price usd) × (new_price_vnd n price vnd ≡ new_count n price usd * 25_200)
new_price-IsPriced none price usd vnd paid dollars dong = (dollars, dong)
new_price-IsPriced (some n) price usd vnd paid dollars dong =
    (ground (arith, paid), (line_price-vnd price).1)

changed_row-IsPriced :
    (body : ProductBody) (price stock count : ℕ) (date : DateChange) (p : ProductListing)
    → is_zero_price body.price_usd (some price) ≡ false
    → IsPriced p
    → IsPriced (changed_row body price stock count date p)
unfolding changed_row
changed_row-IsPriced body price stock count date p paid (dollars, dong, short) =
    let (usd, vnd) =
      new_price-IsPriced body.price_usd price p.price_usd p.price_vnd paid dollars dong in
    (
      usd,
      vnd,
      elim (Option-cases body.name) [
        | inl as_it_was ↦ rw as_it_was short
        | inr (t, new) ↦ rw new (length-take 200 t)
      ],
    )

changed_row-slug :
    (body : ProductBody) (price stock count : ℕ) (date : DateChange) (p : ProductListing)
    → (changed_row body price stock count date p).slug ≡ p.slug
unfolding changed_row
changed_row-slug body price stock count date p = refl

-- The references after a change of one row
references-update :
    (body : ProductBody) (price stock count : ℕ) (date : DateChange) (p : ProductListing)
    (rows : List ProductListing) (r : Text)
    → any (is_taken p.slug (get_or body.reference p.reference)) rows ≡ false
    → IsCatalogue rows
    → count_where
        (has_reference r)
        (update_where (has_listing_slug p.slug) (changed_row body price stock count date) rows)
      ≤ 1
unfolding changed_row
references-update body price stock count date p rows r free h =
    let f = changed_row body price stock count date in
    elim (Option-cases body.reference) [
      | inl same ↦ omega (
        arith,
        h.references r,
        count_reference-same p.slug f (λ x. refl) r rows (λ x. rw same refl),
      )
      | inr (r', new) ↦
          let bound =
            count_reference-new p.slug f (λ x. refl) r r' rows (λ x. rw new refl)
              (subst
                (λ (o : Option Text). any (is_taken p.slug (get_or o p.reference)) rows ≡ false) new
                free) in
          ground (arith, h.references r, h.slugs p.slug, bound)
    ]

write_row-IsCatalogue :
    (body : ProductBody) (user price stock count : Option ℕ) (date : DateChange)
    (p : ProductListing) (db : ListingDb)
    → is_zero_price body.price_usd price ≡ false
    → IsCatalogue db.listings
    → IsCatalogue (after (write_row body user price stock count date p db) db).listings
unfolding write_row
write_row-IsCatalogue body user (some price) (some stock) (some count) date p db paid h =
    let f = changed_row body price stock count date in
    elim (Bool-cases (any (is_taken p.slug (get_or body.reference p.reference)) db.listings)) [
      | inl there ↦ rw there h
      | inr free ↦ rw free (record {
        priced =
            update-IsPriced p.slug f (λ x. changed_row-slug body price stock count date x)
              db.listings (λ x. changed_row-IsPriced body price stock count date x paid) h.priced;
        slugs = λ s. omega (
          arith,
          h.slugs s,
          count_slug-update p.slug f (λ x. changed_row-slug body price stock count date x) s
              db.listings,
        );
        references = λ r. references-update body price stock count date p db.listings r free h;
      })
    ]
write_row-IsCatalogue body user (some price) (some stock) none date p db paid h = h
write_row-IsCatalogue body user (some price) none count date p db paid h = h
write_row-IsCatalogue body user none stock count date p db paid h = h

update_found-IsCatalogue :
    (dates : Text → Option ℕ) (body : ProductBody) (user : Option ℕ) (o : Option ProductListing)
    (db : ListingDb)
    → IsCatalogue db.listings
    → IsCatalogue (after (update_found dates body user o db) db).listings
unfolding update_found
update_found-IsCatalogue dates body user none db h = h
update_found-IsCatalogue dates body user (some p) db h =
    elim (Bool-cases (is_zero_price body.price_usd (next_count body.price_usd))) [
      | inl no_price ↦ rw no_price h
      | inr paid ↦ elim (Bool-cases (is_no_date (date_change dates body.certified_at))) [
        | inl no_day ↦ rw (paid, no_day) h
        | inr day ↦
            rw (paid, day)
              (write_row-IsCatalogue body user (next_count body.price_usd) (next_count body.stock)
                (next_count body.rating_count) (date_change dates body.certified_at) p db paid h)
      ]
    ]

update_product-IsCatalogue :
    (dates : Text → Option ℕ) (slug : Text) (body : ProductBody) (user : Option ℕ) (db : ListingDb)
    → IsCatalogue db.listings
    → IsCatalogue (after (update_product dates slug body user db) db).listings
unfolding update_product
update_product-IsCatalogue dates slug body user db h =
    update_found-IsCatalogue dates body user (find_where (has_listing_slug slug) db.listings) db h

-- Whatever products the back office makes and changes, and whatever of it is refused: each product
-- has a price above 0 with its price in dong at the rate, and a name of at most 200 letters, and no
-- two products share a slug or a reference, if this was so before.
pub edits-IsCatalogue :
    (dates : Text → Option ℕ) (user : Option ℕ) (es : List Edit) (db : ListingDb)
    → IsCatalogue db.listings
    → IsCatalogue (edits dates user es db).listings
unfolding edits edit
edits-IsCatalogue dates user [] db h = h
edits-IsCatalogue dates user (made_new body ∷ es) db h =
    edits-IsCatalogue dates user es (edit dates user (made_new body) db)
      (create_product-IsCatalogue body user db h)
edits-IsCatalogue dates user (made_change slug body ∷ es) db h =
    edits-IsCatalogue dates user es (edit dates user (made_change slug body) db)
      (update_product-IsCatalogue dates slug body user db h)
