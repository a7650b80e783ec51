-- ===== src/Catalogue/Listing.antt =====
-- `list`, `listBySlugs` and `bySlug`.
use clock.Accounts.{and_then}
use clock.Base.{
  Bool, List, Number, Option, [], clamp, drop, false, filter, finite, if◌then◌else◌, infinity,
  is_empty, leb, length, max, nan, neg_infinity, none, not, pos, pos_part, some, take, true, zero,
  ℕ, ◌&&◌, ◌*◌, ◌-◌, ◌||◌, ◌∷◌,
}
use clock.Catalogue.{Engine, ProductPage, ProductQuery, Sort, Watch, featured}
use clock.Catalogue.Filters.{catalogue_where, contains, has_filters, name_or_reference}
use clock.Db.Rows.{find_where}
use clock.Text.{Text, includes, text_eq, to_lower_case, trim}

-- `Math.min(50, Math.max(1, Math.floor(Number(limit) || 12)))`
unfoldable pub list_limit : Number → ℕ
list_limit (finite (pos zero)) = 12
list_limit (finite z) = clamp 1 50 z
list_limit nan = 12
list_limit infinity = 50
list_limit neg_infinity = 1

-- `Math.max(1, Math.floor(Number(page) || 1))`; an infinite page is left out.
unfoldable pub list_page : Number → Option ℕ
list_page (finite z) = some (max 1 (pos_part z))
list_page infinity = none
list_page _ = some 1

abbrev pub page_of : {A : Type 0} → ℕ → ℕ → List A → List A
page_of page limit xs = take limit (drop ((page - 1) * limit) xs)

abbrev pub has_watch_slug : Text → Watch → Bool
has_watch_slug s w = text_eq w.slug s

unfoldable pub pick : List Watch → List Text → List Watch
pick rows [] = []
pick rows (s ∷ ss) =
    let rest = pick rows ss in
    elim (find_where (has_watch_slug s) rows) [ none ↦ rest | some w ↦ w ∷ rest ]

-- The order is that of the search.
unfoldable pub list_by_slugs : Bool → List Text → ℕ → ℕ → List Watch → ProductPage
unfolding pick
list_by_slugs include_hidden slugs page limit rows = record {
  items = pick (filter (λ w. include_hidden || w.in_boutique) rows) (page_of page limit slugs);
  total = length slugs;
  page = page;
  limit = limit;
  hint = none;
}

-- `searchHint` is asked for a search of two letters or more.
abbrev pub hint_for : Engine → Text → Option Text
hint_for e q = if leb 2 (length q) then e.search_hint q else none

abbrev pub is_featured : Sort → Bool
is_featured featured = true
is_featured _ = false

-- The rows of a condition, in order, a page of them
unfoldable pub find_page : Engine → Text → Sort → (Watch → Bool) → ℕ → ℕ → List Watch → ProductPage
find_page e q sort test page limit rows =
    let found = filter test rows in
    record {
      items = page_of page limit (e.order_by sort found);
      total = length found;
      page = page;
      limit = limit;
      hint = if is_empty found then hint_for e q else none;
    }

-- What the search engine finds, if it is there and answers
abbrev pub searched : Engine → Text → Bool → Option (List Text)
searched e q include_hidden = if e.enabled then e.search_slugs q 200 include_hidden else none

-- A page of what the search found; without a search engine, of what has the text in its name or
-- reference
unfoldable pub found_page :
    Engine → Bool → ProductQuery → ℕ → ℕ → List Watch → Option (List Text) → ProductPage
unfolding catalogue_where has_filters find_page list_by_slugs includes contains to_lower_case
found_page e include_hidden query page limit rows none =
    let q = trim query.q in
    find_page e q query.sort (λ w. catalogue_where include_hidden query w && name_or_reference q w)
      page limit rows
found_page e include_hidden query page limit rows (some slugs) =
    let q = trim query.q in
    if is_empty slugs
    then record { items = []; total = 0; page = page; limit = limit; hint = hint_for e q }
    else if is_featured query.sort && is_empty (trim query.collection) && not (has_filters query)
    then list_by_slugs include_hidden slugs page limit rows
    else find_page e q query.sort
        (λ w. catalogue_where include_hidden query w && includes slugs w.slug) page limit rows

unfoldable pub list_page_of : Engine → Bool → ProductQuery → ℕ → ℕ → List Watch → ProductPage
unfolding catalogue_where find_page found_page
list_page_of e include_hidden query page limit rows =
    let q = trim query.q in
    if is_empty q
    then find_page e q query.sort (catalogue_where include_hidden query) page limit rows
    else found_page e include_hidden query page limit rows (searched e q include_hidden)

unfoldable pub list : Engine → Bool → ProductQuery → List Watch → Option ProductPage
unfolding list_limit list_page list_page_of
list e include_hidden query rows =
    and_then (list_page query.page)
      (λ page. some (list_page_of e include_hidden query page (list_limit query.limit) rows))

-- A product that is not in the boutique is not found.
unfoldable pub by_slug : Text → List Watch → Option Watch
by_slug slug rows =
    and_then (find_where (has_watch_slug slug) rows) (λ w. if w.in_boutique then some w else none)
