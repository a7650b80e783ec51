-- ===== src/Listings.antt =====
-- backend/src/admin/admin-listings.service.ts: the back office makes and changes products.
-- A request's field is `none` if it is absent; a value that is no text is given as the text that
-- `String` makes of it, and one that is no number as NaN. What `new Date` makes of a text is a
-- parameter. The fields that are copied as they come (specs, images and the like) are left out, as is
-- the search index, which is told of the row afterwards.
pub mod Update
pub mod Laws
pub mod Edits
use clock.Base.{
  Bool, List, Number, Option, [], any, false, finite, get_or, if◌then◌else◌, infinity, is_empty,
  nan, neg_infinity, none, pos, pos_part, some, take, true, ℕ, ◌==◌, ◌||◌, ◌∷◌,
}
use clock.Pricing.{line_price}
use clock.Text.{Text, codes, text_eq, trim}
use clock.Vnpay.{non_empty_or}

pub data Stock : Type 0 where
  whole_pieces : ℕ → Stock
  -- `Math.max(0, Math.floor(Number(x)))` of what is no number, and of an infinity
  no_stock_number too_many : Stock

pub record ServiceEntry : Type 0 where
  pub day : Text
  pub label : Text
  pub detail : Text

pub record ProductListing : Type 0 where
  pub slug : Text
  pub name : Text
  pub reference : Text
  pub collection : Text
  pub price_usd : ℕ
  pub price_vnd : ℕ
  pub stock : ℕ
  pub short_description : Text
  pub strap_label : Text
  pub calibre : Text
  pub case_material : Text
  pub narrative : Text
  pub in_boutique : Bool
  -- PRE_OWNED; otherwise null
  pub pre_owned : Bool
  pub certified_by : Option Text
  pub certified_at : Option ℕ
  pub service_history : List ServiceEntry
  pub rating_count : Option ℕ

pub data Action : Type 0 where
  create_action update_action : Action

pub record ListingEvent : Type 0 where
  pub slug : Text
  pub action : Action
  pub by_user_id : Option ℕ
  -- the names of the fields that the change names; the summary of a new product is left out
  pub fields : List Text

pub record ListingDb : Type 0 where
  pub listings : List ProductListing
  pub events : List ListingEvent

pub data ListingError : Type 0 where
  missing_fields duplicate bad_price bad_date not_found : ListingError
  -- the database refuses the row
  refused_row : ListingError

pub data Listed : Type 0 where
  listed_as : Text → ListingDb → Listed
  unlisted_for : ListingError → Listed

pub record ProductBody : Type 0 where
  pub slug : Option Text
  pub name : Option Text
  pub reference : Option Text
  pub collection : Option Text
  pub price_usd : Option Number
  pub stock : Option Number
  pub short_description : Option Text
  pub strap_label : Option Text
  pub calibre : Option Text
  pub case_material : Option Text
  pub narrative : Option Text
  -- is it the value `false`?
  pub in_boutique : Option Bool
  pub condition : Option Text
  pub certified_by : Option Text
  pub certified_at : Option Text
  -- an element's date, label and detail as texts; `none` in the list is what has none of them
  pub service_history : Option (List ServiceEntry)
  pub rating_count : Option Number

-- `Math.max(0, Math.floor(Number(x) || 0))`; `none` is infinity.
unfoldable pub price_of : Number → Option ℕ
price_of (finite z) = some (pos_part z)
price_of infinity = none
price_of neg_infinity = some 0
price_of nan = some 0

-- `Math.max(0, Math.floor(Number(body.stock ?? 1)))`
unfoldable pub first_stock : Option Number → Stock
first_stock none = whole_pieces 1
first_stock (some (finite z)) = whole_pieces (pos_part z)
first_stock (some neg_infinity) = whole_pieces 0
first_stock (some infinity) = too_many
first_stock (some nan) = no_stock_number

-- `String(v ?? '').slice(0, max)`
abbrev pub cut : ℕ → Option Text → Text
cut n v = take n (get_or v [])

abbrev pub has_listing_slug : Text → ProductListing → Bool
has_listing_slug s p = text_eq p.slug s

abbrev pub is_duplicate : Text → Text → ProductListing → Bool
is_duplicate slug reference p = text_eq p.slug slug || text_eq p.reference reference

abbrev pub audit : Text → Action → Option ℕ → List Text → ListingDb → ListingDb
audit slug action user fields db = record db {
  events = record { slug = slug; action = action; by_user_id = user; fields = fields } ∷ db.events;
}

-- The row of a new product
abbrev pub new_listing : ProductBody → ℕ → ℕ → ProductListing
new_listing body price stock = record {
  slug = trim (get_or body.slug []);
  name = take 200 (trim (get_or body.name []));
  reference = trim (get_or body.reference []);
  collection = non_empty_or (cut 100 body.collection) (codes "classic");
  price_usd = (line_price (pos price) none).price_usd;
  price_vnd = (line_price (pos price) none).price_vnd;
  stock = stock;
  short_description = cut 2000 body.short_description;
  strap_label = cut 200 body.strap_label;
  calibre = cut 200 body.calibre;
  case_material = cut 200 body.case_material;
  narrative = cut 5000 body.narrative;
  in_boutique = get_or body.in_boutique true;
  pre_owned = false;
  certified_by = none;
  certified_at = none;
  service_history = [];
  rating_count = none;
}

-- The database takes no row whose number is not one of its integers.
unfoldable pub insert_new : ProductBody → Option ℕ → Option ℕ → Stock → ListingDb → Listed
unfolding line_price trim
insert_new body user (some price) (whole_pieces n) db =
    let row = new_listing body price n in
    listed_as row.slug
      (audit row.slug create_action user [] (record db { listings = row ∷ db.listings }))
insert_new body user (some price) no_stock_number db = unlisted_for refused_row
insert_new body user (some price) too_many db = unlisted_for refused_row
insert_new body user none stock db = unlisted_for refused_row

abbrev pub lacks_field : ProductBody → Bool
lacks_field body =
    is_empty (trim (get_or body.slug []))
    || is_empty (trim (get_or body.name []))
    || is_empty (trim (get_or body.reference []))

abbrev pub is_free_of_charge : Option ℕ → Bool
is_free_of_charge none = false
is_free_of_charge (some price) = price == 0

unfoldable pub create_product : ProductBody → Option ℕ → ListingDb → Listed
unfolding price_of first_stock insert_new text_eq trim
create_product body user db =
    let slug = trim (get_or body.slug []) in
    let reference = trim (get_or body.reference []) in
    let price = price_of (get_or body.price_usd nan) in
    if lacks_field body || is_free_of_charge price
    then unlisted_for missing_fields
    else if any (is_duplicate slug reference) db.listings
    then unlisted_for duplicate
    else insert_new body user price (first_stock body.stock) db
