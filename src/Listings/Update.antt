-- ===== src/Listings/Update.antt =====
-- `updateProduct` of backend/src/admin/admin-listings.service.ts, over the fields of the model.
use clock.Admin.Orders.{reference}
use clock.Base.{
  Bool, List, Number, Option, [], any, false, filter, get_or, if◌then◌else◌, is_empty, leb, map,
  none, not, pos, some, suc, take, true, zero, ℕ, ◌&&◌, ◌++◌, ◌-◌, ◌==◌, ◌∷◌,
}
use clock.Db.Rows.{find_where, update_where}
use clock.Listings.{
  Listed, ListingDb, ProductBody, ProductListing, ServiceEntry, audit, bad_date, bad_price,
  has_listing_slug, listed_as, not_found, price_of, refused_row, unlisted_for, update_action,
}
use clock.Pricing.{line_price}
use clock.Text.{Text, codes, text_eq, trim}

abbrev pub cut_entry : ServiceEntry → ServiceEntry
cut_entry h = record { day = take 24 h.day; label = take 120 h.label; detail = take 300 h.detail }

abbrev pub is_full_entry : ServiceEntry → Bool
is_full_entry h = not (is_empty h.day) && not (is_empty h.label)

unfoldable pub clean_history : List ServiceEntry → List ServiceEntry
clean_history hs = filter is_full_entry (map cut_entry (take 24 hs))

-- `Math.max(0, Math.floor(Number(x) || 0))` of a field that is there; `none` is infinity, which the
-- database refuses.
unfoldable pub next_count : Option Number → Option ℕ
unfolding price_of
next_count none = some 0
next_count (some n) = price_of n

-- A field that is absent stays as it is.
abbrev pub new_count : Option Number → ℕ → ℕ → ℕ
new_count none next old = old
new_count (some n) next old = next

-- `rc > 0 ? rc : null`
abbrev pub some_positive : ℕ → Option ℕ
some_positive zero = none
some_positive (suc n) = some (suc n)

unfoldable pub upper_unit : ℕ → ℕ
upper_unit c = if leb b'a' c && leb c b'z' then c - 32 else c

abbrev pub is_pre_owned : Text → Bool
is_pre_owned c = text_eq (map upper_unit (trim c)) (codes "PRE_OWNED")

abbrev pub or_null : Text → Option Text
or_null [] = none
or_null (c ∷ s) = some (c ∷ s)

-- The date of a certificate: absent, taken away, a time, or no date
pub data DateChange : Type 0 where
  as_before removed : DateChange
  dated : ℕ → DateChange
  no_date : DateChange

unfoldable pub date_change : (Text → Option ℕ) → Option Text → DateChange
unfolding trim
date_change dates none = as_before
date_change dates (some raw) =
    if is_empty (trim raw)
    then removed
    else elim (dates (trim raw)) [ none ↦ no_date | some t ↦ dated t ]

abbrev pub new_date : DateChange → Option ℕ → Option ℕ
new_date as_before old = old
new_date removed old = none
new_date (dated t) old = some t
new_date no_date old = old

abbrev pub name_if : {A : Type 0} → Option A → List Text → List Text
name_if none names = []
name_if (some a) names = names

-- `Object.keys(data)`
unfoldable pub changed_fields : ProductBody → List Text
changed_fields body =
    name_if body.name (codes "name" ∷ [])
    ++ name_if body.reference (codes "reference" ∷ [])
    ++ name_if body.collection (codes "collection" ∷ [])
    ++ name_if body.price_usd (codes "priceUsd" ∷ codes "priceVnd" ∷ [])
    ++ name_if body.short_description (codes "shortDescription" ∷ [])
    ++ name_if body.strap_label (codes "strapLabel" ∷ [])
    ++ name_if body.calibre (codes "calibre" ∷ [])
    ++ name_if body.case_material (codes "caseMaterial" ∷ [])
    ++ name_if body.narrative (codes "narrative" ∷ [])
    ++ name_if body.condition (codes "condition" ∷ [])
    ++ name_if body.certified_by (codes "certifiedBy" ∷ [])
    ++ name_if body.certified_at (codes "certifiedAt" ∷ [])
    ++ name_if body.service_history (codes "serviceHistory" ∷ [])
    ++ name_if body.rating_count (codes "ratingCount" ∷ [])
    ++ name_if body.stock (codes "stock" ∷ [])
    ++ name_if body.in_boutique (codes "inBoutique" ∷ [])

abbrev pub new_price_vnd : Option Number → ℕ → ℕ → ℕ
new_price_vnd none price old = old
new_price_vnd (some n) price old = (line_price (pos price) none).price_vnd

-- The row afterwards
unfoldable pub changed_row : ProductBody → ℕ → ℕ → ℕ → DateChange → ProductListing → ProductListing
unfolding line_price clean_history upper_unit text_eq trim
changed_row body price stock count date p = record {
  slug = p.slug;
  name = elim body.name [ none ↦ p.name | some t ↦ take 200 t ];
  reference = get_or body.reference p.reference;
  collection = elim body.collection [ none ↦ p.collection | some t ↦ take 100 t ];
  price_usd = new_count body.price_usd price p.price_usd;
  price_vnd = new_price_vnd body.price_usd price p.price_vnd;
  stock = new_count body.stock stock p.stock;
  short_description = get_or body.short_description p.short_description;
  strap_label = get_or body.strap_label p.strap_label;
  calibre = get_or body.calibre p.calibre;
  case_material = get_or body.case_material p.case_material;
  narrative = get_or body.narrative p.narrative;
  in_boutique = get_or body.in_boutique p.in_boutique;
  pre_owned = elim body.condition [ none ↦ p.pre_owned | some c ↦ is_pre_owned c ];
  certified_by = elim body.certified_by [
    | none ↦ p.certified_by
    | some t ↦ or_null (take 160 (trim t))
  ];
  certified_at = new_date date p.certified_at;
  service_history = elim body.service_history [
    | none ↦ p.service_history
    | some hs ↦ clean_history hs
  ];
  rating_count = elim body.rating_count [ none ↦ p.rating_count | some n ↦ some_positive count ];
}

-- Another row with the reference: the database's unique key
abbrev pub is_taken : Text → Text → ProductListing → Bool
is_taken slug reference p = not (text_eq p.slug slug) && text_eq p.reference reference

-- `none` as a number is one that the database does not hold.
unfoldable pub write_row :
    ProductBody
    → Option ℕ
    → Option ℕ
    → Option ℕ
    → Option ℕ
    → DateChange
    → ProductListing
    → ListingDb
    → Listed
unfolding changed_row changed_fields
write_row body user (some price) (some stock) (some count) date p db =
    if any (is_taken p.slug (get_or body.reference p.reference)) db.listings
    then unlisted_for refused_row
    else listed_as p.slug (
        audit p.slug update_action user (changed_fields body) (record db {
          listings =
              update_where (has_listing_slug p.slug) (changed_row body price stock count date)
                db.listings;
        }))
write_row body user price stock count date p db = unlisted_for refused_row

abbrev pub is_no_date : DateChange → Bool
is_no_date no_date = true
is_no_date _ = false

abbrev pub is_zero_price : Option Number → Option ℕ → Bool
is_zero_price none price = false
is_zero_price (some n) none = false
is_zero_price (some n) (some price) = price == 0

-- For the product that was found
unfoldable pub update_found :
    (Text → Option ℕ) → ProductBody → Option ℕ → Option ProductListing → ListingDb → Listed
unfolding next_count date_change write_row
update_found dates body user none db = unlisted_for not_found
update_found dates body user (some p) db =
    let price = next_count body.price_usd in
    let date = date_change dates body.certified_at in
    if is_zero_price body.price_usd price
    then unlisted_for bad_price
    else if is_no_date date
    then unlisted_for bad_date
    else write_row body user price (next_count body.stock) (next_count body.rating_count) date p db

unfoldable pub update_product :
    (Text → Option ℕ) → Text → ProductBody → Option ℕ → ListingDb → Listed
unfolding update_found text_eq
update_product dates slug body user db =
    update_found dates body user (find_where (has_listing_slug slug) db.listings) db
