-- ===== src/Db/Tables.antt =====
-- The queries of the services on the state: conditional updates that return the count of the rows
-- they changed, lookups by key, and new rows.
use clock.Base.{Bool, List, Option, false, some, ℕ, ◌&&◌, ◌+◌, ◌==◌, ◌∷◌}
use clock.Db.{CartItem, Db, Notice, Order, OrderEvent, OrderItem, OrderStatus, Payment, status_eq}
use clock.Db.Monad.{M, modify, ok}
use clock.Db.Rows.{count_where, delete_where, find_where, update_where}
use clock.Inventory.{restock}
use clock.Text.{Text, text_eq}

abbrev pub is_order : ℕ → Order → Bool
is_order id o = o.id == id

-- `where: { id, status }`
abbrev pub is_order_in : ℕ → OrderStatus → Order → Bool
is_order_in id status o = o.id == id && status_eq o.status status

abbrev pub set_status : OrderStatus → Order → Order
set_status status o = record o { status = status }

-- `tx.order.updateMany({ where: { id, status: from }, data: { status: to } })`
abbrev pub move_order : ℕ → OrderStatus → OrderStatus → M ℕ
move_order id from to db = (
  ok (count_where (is_order_in id from) db.orders),
  record db { orders = update_where (is_order_in id from) (set_status to) db.orders },
)

abbrev pub find_order : ℕ → Db → Option Order
find_order id db = find_where (is_order id) db.orders

abbrev pub has_code : Text → Order → Bool
has_code code o = text_eq o.code code

abbrev pub find_by_code : Text → Db → Option Order
find_by_code code db = find_where (has_code code) db.orders

abbrev pub create_event : OrderEvent → M (Unit {0})
create_event e = modify (λ db. record db { events = e ∷ db.events })

abbrev pub restock_lines : List OrderItem → M (Unit {0})
restock_lines lines = modify (λ db. record db { products = restock lines db.products })

abbrev pub add_notice : Notice → M (Unit {0})
add_notice n = modify (λ db. record db { outbox = n ∷ db.outbox })

-- `tx.cartItem.deleteMany({ where: { userId } })`
abbrev pub clear_cart_rows : ℕ → Db → Db
clear_cart_rows user db = record db {
  cart_items = delete_where (λ (r : CartItem). r.user_id == user) db.cart_items;
}

-- A session's user against the order's; `none` is null.
abbrev pub user_matches : Option ℕ → Option ℕ → Bool
user_matches (some a) (some b) = a == b
user_matches _ _ = false

-- `payment.create`
abbrev pub create_payment : (ℕ → Payment) → M (Unit {0})
create_payment row =
    modify (λ db. record db { payments = row db.next_id ∷ db.payments; next_id = db.next_id + 1 })
