-- ===== src/Inventory/Measures.antt =====
-- What is counted: the pieces of one product on the shelf and in orders.
use clock.Base.{Bool, List, Option, [], false, if◌then◌else◌, none, some, true, ℕ, ◌+◌, ◌∷◌}
use clock.Db.{Db, Order, OrderItem, OrderStatus, Product}
use clock.Db.Rows.{count_where, sum_by}
use clock.Inventory.{has_slug, real_slug}
use clock.Text.{Text, text_eq}

abbrev pub stock_in : Text → Product → ℕ
stock_in s p = if text_eq p.slug s then p.stock else 0

-- The pieces of `s` on the shelf.
unfoldable pub stock_of : Text → List Product → ℕ
stock_of s products = sum_by (stock_in s) products

-- How many rows have the slug `s`: 1, where the product exists, since the slug is the table's key.
unfoldable pub rows_of : Text → List Product → ℕ
rows_of s products = count_where (has_slug s) products

abbrev pub slug_is : Text → Option Text → Bool
slug_is s none = false
slug_is s (some t) = text_eq t s

-- The pieces of `s` in some lines.
unfoldable pub qty_of : Text → List OrderItem → ℕ
qty_of s [] = 0
qty_of s (l ∷ lines) = (if slug_is s (real_slug l.product_slug) then l.qty else 0) + qty_of s lines

-- An order keeps its pieces until it is cancelled or refunded.
abbrev pub holds : OrderStatus → Bool
holds OrderStatus.cancelled = false
holds OrderStatus.refunded = false
holds _ = true

abbrev pub held_in : Text → Order → ℕ
held_in s o = if holds o.status then qty_of s o.items else 0

-- The pieces of `s` that orders hold.
unfoldable pub held_of : Text → List Order → ℕ
held_of s orders = sum_by (held_in s) orders

-- All pieces of `s`.
abbrev pub pieces : Text → Db → ℕ
pieces s db = stock_of s db.products + held_of s db.orders
