-- ===== src/Catalogue/Laws.antt =====
-- What the public catalogue shows.
use clock.Base.{
  Bool, List, Number, Option, Option-cases, [], all, arith, drop, false, filter, if◌then◌else◌, inl,
  inr, is_empty, length, length-take, none, refl, some, suc, take, true, zero, ℕ, ◌&&◌, ◌*◌, ◌-◌,
  ◌∷◌, ◌≡◌, ◌≤◌,
}
use clock.Catalogue.{Engine, ProductPage, ProductQuery, Sort, Watch}
use clock.Catalogue.Filters.{catalogue_where}
use clock.Catalogue.Listing.{
  find_page, found_page, has_watch_slug, list, list_by_slugs, list_limit, list_page, list_page_of,
  page_of, pick,
}
use clock.Db.Rows.{find_where}
use clock.Text.{Text, trim}
use mathlib.Core.Path.{subst}

abbrev shown : Watch → Bool
shown w = w.in_boutique

all-take : (p : Watch → Bool) (n : ℕ) (ws : List Watch) → all p ws ≡ true → all p (take n ws) ≡ true
all-take p zero ws h = ground arith
all-take p (suc n) [] h = refl
all-take p (suc n) (w ∷ ws) h = ground (arith, h, all-take p n ws)

all-drop : (p : Watch → Bool) (n : ℕ) (ws : List Watch) → all p ws ≡ true → all p (drop n ws) ≡ true
all-drop p zero ws h = h
all-drop p (suc n) [] h = refl
all-drop p (suc n) (w ∷ ws) h = all-drop p n ws (ground (arith, h))

all-filter :
    (p q : Watch → Bool) (ws : List Watch)
    → ((w : Watch) → q w ≡ true → p w ≡ true)
    → all p (filter q ws) ≡ true
all-filter p q [] f = refl
all-filter p q (w ∷ ws) f = ground (arith, f w, all-filter p q ws f)

all-find_where :
    (p q : Watch → Bool) (ws : List Watch) (w : Watch)
    → all p ws ≡ true
    → find_where q ws ≡ some w
    → p w ≡ true
all-find_where p q [] w h e = cc
all-find_where p q (x ∷ ws) w h e = ground (arith, h, e, all-find_where p q ws w)

all-pick :
    (p : Watch → Bool) (rows : List Watch) (slugs : List Text)
    → all p rows ≡ true
    → all p (pick rows slugs) ≡ true
unfolding pick
all-pick p rows [] h = refl
all-pick p rows (s ∷ ss) h = elim (Option-cases (find_where (has_watch_slug s) rows)) [
  | inl n ↦ ground (arith, n, all-pick p rows ss h)
  | inr (w, e) ↦
      ground (arith, e, all-pick p rows ss h, all-find_where p (has_watch_slug s) rows w h e)
]

length-pick : (rows : List Watch) (slugs : List Text) → length (pick rows slugs) ≤ length slugs
unfolding pick
length-pick rows [] = omega arith
length-pick rows (s ∷ ss) = ground (arith, length-pick rows ss)

-- The database's order loses no condition and makes no rows.
pub record IsOrder (e : Engine) : Type 0 where
  pub keeps :
      (s : Sort) (p : Watch → Bool) (ws : List Watch)
      → all p ws ≡ true
      → all p (e.order_by s ws) ≡ true

-- Nothing but what is in the boutique, and no more than a page
abbrev IsPublic : ℕ → ProductPage → Type 0
IsPublic limit p = (all shown p.items ≡ true) × (length p.items ≤ limit) × (p.limit ≡ limit)

find_page-IsPublic :
    (e : Engine) (q : Text) (s : Sort) (test : Watch → Bool) (page limit : ℕ) (rows : List Watch)
    → IsOrder e
    → ((w : Watch) → test w ≡ true → w.in_boutique ≡ true)
    → IsPublic limit (find_page e q s test page limit rows)
unfolding find_page
find_page-IsPublic e q s test page limit rows o h =
    let found = o.keeps s shown (filter test rows) (all-filter shown test rows h) in
    (
      all-take shown limit _ (all-drop shown ((page - 1) * limit) _ found),
      length-take limit (drop ((page - 1) * limit) (e.order_by s (filter test rows))),
      refl,
    )

list_by_slugs-IsPublic :
    (slugs : List Text) (page limit : ℕ) (rows : List Watch)
    → IsPublic limit (list_by_slugs false slugs page limit rows)
unfolding list_by_slugs
list_by_slugs-IsPublic slugs page limit rows =
    let paged = page_of page limit slugs in
    let few = length-take limit (drop ((page - 1) * limit) slugs) in
    let picked = length-pick (filter shown rows) paged in
    (
      all-pick shown (filter shown rows) paged (all-filter shown shown rows (λ w e. e)),
      omega arith,
      refl,
    )

catalogue_where-shown :
    (query : ProductQuery) (w : Watch) → catalogue_where false query w ≡ true → w.in_boutique ≡ true
unfolding catalogue_where
catalogue_where-shown query w h = ground arith

and_left : (a b : Bool) → (a && b) ≡ true → a ≡ true
and_left a b h = ground arith

if-IsPublic :
    (b : Bool) (limit : ℕ) (p q : ProductPage)
    → IsPublic limit p
    → IsPublic limit q
    → IsPublic limit (if b then p else q)
if-IsPublic true limit p q h k = h
if-IsPublic false limit p q h k = k

found_page-IsPublic :
    (e : Engine) (query : ProductQuery) (page limit : ℕ) (rows : List Watch)
    (found : Option (List Text))
    → IsOrder e
    → IsPublic limit (found_page e false query page limit rows found)
unfolding found_page
found_page-IsPublic e query page limit rows none o =
    find_page-IsPublic e (trim query.q) query.sort _ page limit rows o
      (λ w h. catalogue_where-shown query w (and_left _ _ h))
found_page-IsPublic e query page limit rows (some slugs) o =
    if-IsPublic (is_empty slugs) limit _ _ (refl, omega arith, refl)
      (if-IsPublic _ limit _ _ (list_by_slugs-IsPublic slugs page limit rows) (
        find_page-IsPublic e (trim query.q) query.sort _ page limit rows o
          (λ w h. catalogue_where-shown query w (and_left _ _ h))))

list_page_of-IsPublic :
    (e : Engine) (query : ProductQuery) (page limit : ℕ) (rows : List Watch)
    → IsOrder e
    → IsPublic limit (list_page_of e false query page limit rows)
unfolding list_page_of
list_page_of-IsPublic e query page limit rows o =
    if-IsPublic (is_empty (trim query.q)) limit _ _
      (find_page-IsPublic e (trim query.q) query.sort _ page limit rows o
        (catalogue_where-shown query))
      (found_page-IsPublic e query page limit rows _ o)

list_limit-bounds : (n : Number) → (1 ≤ list_limit n) × (list_limit n ≤ 50)
unfolding list_limit
list_limit-bounds n = (ground arith, ground arith)

-- The public list shows products of the boutique alone, whatever the query, the search engine's
-- answer and the branch taken, and at most a page of them, which is of 1 to 50 products.
pub list-public :
    (e : Engine) (query : ProductQuery) (rows : List Watch) (p : ProductPage)
    → IsOrder e
    → list e false query rows ≡ some p
    → (all (λ (w : Watch). w.in_boutique) p.items ≡ true)
      × (length p.items ≤ p.limit)
      × (1 ≤ p.limit)
      × (p.limit ≤ 50)
unfolding list
list-public e query rows p o h = elim (Option-cases (list_page query.page)) [
  | inl n ↦ absurd (ground (arith, h, n))
  | inr (page, k) ↦
      let limit = list_limit query.limit in
      let (visible, few, same) = list_page_of-IsPublic e query page limit rows o in
      let (low, high) = list_limit-bounds query.limit in
      let is_it : list_page_of e false query page limit rows ≡ p = ground (arith, h, k) in
      subst
        (λ (p : ProductPage).
          (all (λ (w : Watch). w.in_boutique) p.items ≡ true)
          × (length p.items ≤ p.limit)
          × (1 ≤ p.limit)
          × (p.limit ≤ 50))
        is_it (visible, omega arith, omega arith, omega arith)
]
