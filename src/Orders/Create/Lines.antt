-- ===== src/Orders/Create/Lines.antt =====
-- The lines of `OrdersService.create`: prices from the database, quantities, totals.
pub mod Laws
use clock.Base.{
  Bool, List, Option, [], false, filter, get_or, if◌then◌else◌, is_empty, is_some, none, not,
  pos_part, some, take, ◌&&◌, ◌||◌, ◌∷◌,
}
use clock.Db.{OrderItem, Product}
use clock.Db.Monad.{Error, Result, err, ok}
use clock.Db.Rows.{find_where}
use clock.Inventory.{has_slug, real_slug}
use clock.Orders.Create.Amount.{
  Amount, below, custom_price, num, order_qty, price_of_amount, times, ◌+ₐ◌,
}
use clock.Orders.Create.Input.{ItemInput}
use clock.Text.{Text, codes, includes}

-- A line that is not stored yet.
pub record DraftLine : Type 0 where
  pub product_slug : Option Text
  pub name : Text
  pub price_usd : Amount
  pub price_vnd : Amount
  pub image : Text
  pub strap : Text
  pub engraving : Option Text
  pub qty : Amount

-- `String(i.slug ?? '')`
abbrev pub item_slug : ItemInput → Text
item_slug i = get_or i.slug []

-- The slugs that are not empty. The code makes them distinct, which no test below can tell.
unfoldable pub slugs_of : List ItemInput → List Text
slugs_of [] = []
slugs_of (i ∷ items) =
    if is_empty (item_slug i) then slugs_of items else item_slug i ∷ slugs_of items

-- `product.findMany({ where: { slug: { in: slugs } } })`
unfoldable pub rows_for : List Text → List Product → List Product
rows_for slugs products = filter (λ (p : Product). includes slugs p.slug) products

-- `priceOf.get(slug)`
abbrev pub find_product : Text → List Product → Option Product
find_product slug rows = find_where (has_slug slug) rows

abbrev pub standard_strap : Text
standard_strap = codes "Tiêu chuẩn Atelier"

-- `i.engraving ? String(i.engraving).slice(0, 120) : null`
abbrev pub engraving_of : Option Text → Option Text
engraving_of none = none
engraving_of (some []) = none
engraving_of (some (c ∷ s)) = some (take 120 (c ∷ s))

abbrev pub draft : ItemInput → Option Text → Amount × Amount → DraftLine
draft i slug price = record {
  product_slug = slug;
  name = take 200 (get_or i.name []);
  price_usd = price.0;
  price_vnd = price.1;
  image = get_or i.image [];
  strap = get_or i.strap standard_strap;
  engraving = engraving_of i.engraving;
  qty = order_qty i.qty;
}

-- A whole price of the database, below 0 as 0
abbrev pub db_price : Product → Amount
db_price p = num (pos_part p.price_usd)

-- One item: a product that is shown and has stock, or a custom line at the client's price.
abbrev pub draft_line : ItemInput → Option Product → Result DraftLine
draft_line i none =
    ok (draft i none (price_of_amount (custom_price i.price_usd) (get_or i.strap standard_strap)))
draft_line i (some p) =
    if not p.in_boutique
    then err Error.not_displayed
    else if below p.stock (order_qty i.qty)
    then err Error.short_stock
    else ok (
        draft i (some (item_slug i)) (price_of_amount (db_price p) (get_or i.strap standard_strap)))

unfoldable pub draft_lines : List Product → List ItemInput → Result (List DraftLine)
draft_lines rows [] = ok []
draft_lines rows (i ∷ items) =
    let rest = draft_lines rows items in
    elim (draft_line i (find_product (item_slug i) rows)) [
      | err e ↦ err e
      | ok l ↦ elim rest [ err e ↦ err e | ok ls ↦ ok (l ∷ ls) ]
    ]

-- `hasCustom`: some item has a slug that the database does not know.
unfoldable pub has_custom : List Product → List ItemInput → Bool
has_custom rows [] = false
has_custom rows (i ∷ items) =
    (not (is_empty (item_slug i)) && not (is_some (find_product (item_slug i) rows)))
    || has_custom rows items

unfoldable pub total_usd_of : List DraftLine → Amount
total_usd_of [] = num 0
total_usd_of (l ∷ ls) = times l.price_usd l.qty +ₐ total_usd_of ls

unfoldable pub total_vnd_of : List DraftLine → Amount
total_vnd_of [] = num 0
total_vnd_of (l ∷ ls) = times l.price_vnd l.qty +ₐ total_vnd_of ls

-- `lines.filter((l) => l.productSlug)`
abbrev pub is_product_line : DraftLine → Bool
is_product_line l = is_some (real_slug l.product_slug)

-- The row that the database can store, if all its numbers are whole.
unfoldable pub store_line : DraftLine → Option OrderItem
store_line l = elim l.qty [
  | num qty ↦ elim l.price_usd [
    | num usd ↦ elim l.price_vnd [
      | num vnd ↦ some (record {
        product_slug = l.product_slug;
        name = l.name;
        price_usd = usd;
        price_vnd = vnd;
        image = l.image;
        strap = l.strap;
        engraving = l.engraving;
        qty = qty;
      })
      | _ ↦ none
    ]
    | _ ↦ none
  ]
  | _ ↦ none
]

unfoldable pub store_lines : List DraftLine → Option (List OrderItem)
unfolding store_line
store_lines [] = some []
store_lines (l ∷ ls) =
    let rest = store_lines ls in
    elim (store_line l) [
      | none ↦ none
      | some i ↦ elim rest [ none ↦ none | some is ↦ some (i ∷ is) ]
    ]
