-- ===== src/Inventory.antt =====
-- The two loops over an order's lines that move stock: the restock in `OrdersService.cancel`,
-- `OrderExpireService.expirePending` and `AdminOrdersService.updateStatus`, which is the same text in
-- all three, and the conditional decrement in `OrdersService.create`.
pub mod Measures
pub mod Laws
pub mod Conservation
pub mod Commits
pub mod Reserve
use clock.Base.{
  Bool, List, Option, [], if◌then◌else◌, leb, none, some, ℕ, ◌&&◌, ◌+◌, ◌-◌, ◌==◌, ◌∷◌,
}
use clock.Db.{OrderItem, Product}
use clock.Db.Rows.{count_where, update_where}
use clock.Text.{Text, text_eq}

-- `l.productSlug`, where it is neither null nor empty
abbrev pub real_slug : Option Text → Option Text
real_slug none = none
real_slug (some []) = none
real_slug (some (c ∷ s)) = some (c ∷ s)

abbrev pub has_slug : Text → Product → Bool
has_slug s p = text_eq p.slug s

abbrev pub add_stock : ℕ → Product → Product
add_stock n p = record p { stock = p.stock + n }

abbrev pub take_stock : ℕ → Product → Product
take_stock n p = record p { stock = p.stock - n }

abbrev pub restock_slug : Option Text → ℕ → List Product → List Product
restock_slug none n products = products
restock_slug (some s) n products = update_where (has_slug s) (add_stock n) products

unfoldable pub restock : List OrderItem → List Product → List Product
restock [] products = products
restock (l ∷ lines) products =
    restock lines (restock_slug (real_slug l.product_slug) l.qty products)

-- `where: { slug, stock: { gte: qty } }`
abbrev pub in_stock : Text → ℕ → Product → Bool
in_stock s n p = text_eq p.slug s && leb n p.stock

-- `none`: the count of the updated rows is 0, and the code throws.
abbrev pub reserve_slug : Option Text → ℕ → List Product → Option (List Product)
reserve_slug none n products = some products
reserve_slug (some s) n products =
    if count_where (in_stock s n) products == 0
    then none
    else some (update_where (in_stock s n) (take_stock n) products)

unfoldable pub reserve : List OrderItem → List Product → Option (List Product)
reserve [] products = some products
reserve (l ∷ lines) products = elim (reserve_slug (real_slug l.product_slug) l.qty products) [
  | none ↦ none
  | some left ↦ reserve lines left
]
