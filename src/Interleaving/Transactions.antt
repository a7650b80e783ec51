-- ===== src/Interleaving/Transactions.antt =====
-- Each transaction keeps the keys of the orders, their lines and the rows of the products.
use clock.Admin.Orders.{UpdateOpts, is_manual_paid, paid_in_full, returns_stock, update_tx}
use clock.Base.{
  Bool, Bool-cases, List, Option, arith, false, inl, inr, none, refl, some, true, ℕ, ◌+◌, ◌==◌, ◌≡◌,
  ◌≤◌,
}
use clock.Db.{Db, Order, OrderStatus, Product}
use clock.Db.Monad.{transaction}
use clock.Db.Rows.{count_where, update_where}
use clock.Db.Tables.{is_order, is_order_in, set_status}
use clock.Interleaving.Orders.{
  Keys, SameOrders, SameOrders-refl, SameOrders-trans, WasRead, update_where-SameOrders,
}
use clock.Inventory.{restock}
use clock.Inventory.Conservation.{IsCurrent}
use clock.Inventory.Laws.{rows_of-restock}
use clock.Inventory.Measures.{rows_of}
use clock.Orders.Cancel.{cancel_tx}
use clock.Orders.Expire.{expire_tx}
use clock.Payments.Settle.{is_pending_id, settle_atomically}
use clock.Text.{Text}

pub IsCurrent-of : (o : Order) (db : Db) → Keys db → WasRead o db → IsCurrent o db
IsCurrent-of o db k (now, found, same) = record {
  one_row = k.once o.id;
  now = now;
  found = found;
  same_items = same;
}

-- What a transaction may do to the tables: no order comes or goes, and no row of a product.
pub record IsMild (db : Db) (products : List Product) (orders : List Order) (next_id : ℕ)
    : Type 0 where
  pub same : SameOrders db.orders orders
  pub ids : db.next_id ≤ next_id
  pub rows : (s : Text) → rows_of s products ≡ rows_of s db.products

abbrev pub IsMildTo : Db → Db → Type 0
IsMildTo db after = IsMild db after.products after.orders after.next_id

pub IsMild-refl : (db : Db) → IsMildTo db db
IsMild-refl db = record { same = SameOrders-refl db.orders; ids = omega arith; rows = λ s. refl }

set_status-same :
    (from to : OrderStatus) (id : ℕ) (orders : List Order)
    → SameOrders orders (update_where (is_order_in id from) (set_status to) orders)
set_status-same from to id orders =
    update_where-SameOrders (is_order_in id from) (set_status to) (λ o. (refl, refl)) orders

moved-IsMild :
    (from to : OrderStatus) (id : ℕ) (db : Db)
    → IsMild db db.products
        (update_where (is_order_in id from) (set_status to) db.orders)
        db.next_id
moved-IsMild from to id db = record {
  same = set_status-same from to id db.orders;
  ids = omega arith;
  rows = λ s. refl;
}

restocked-IsMild :
    (from to : OrderStatus) (o : Order) (db : Db)
    → IsMild db
        (restock o.items db.products)
        (update_where (is_order_in o.id from) (set_status to) db.orders)
        db.next_id
restocked-IsMild from to o db = record {
  same = set_status-same from to o.id db.orders;
  ids = omega arith;
  rows = λ s. rows_of-restock s o.items db.products;
}

pub cancel_tx-IsMild :
    (o : Order) (user : Option ℕ) (db : Db) → IsMildTo db (transaction (cancel_tx o user) db).1
unfolding cancel_tx
cancel_tx-IsMild o user db =
    elim (Bool-cases (count_where (is_order_in o.id OrderStatus.pending) db.orders == 0)) [
      | inl lost ↦ rw lost (IsMild-refl db)
      | inr won ↦ rw won (restocked-IsMild OrderStatus.pending OrderStatus.cancelled o db)
    ]

pub expire_tx-IsMild : (o : Order) (db : Db) → IsMildTo db (transaction (expire_tx o) db).1
unfolding expire_tx
expire_tx-IsMild o db =
    elim (Bool-cases (count_where (is_order_in o.id OrderStatus.pending) db.orders == 0)) [
      | inl lost ↦ rw lost (moved-IsMild OrderStatus.pending OrderStatus.cancelled o.id db)
      | inr won ↦ rw won (restocked-IsMild OrderStatus.pending OrderStatus.cancelled o db)
    ]

pub settle_atomically-IsMild :
    (payment order_id : ℕ) (user : Option ℕ) (came_in : Bool) (db : Db)
    → IsMildTo db (transaction (settle_atomically payment order_id user came_in) db).1
unfolding settle_atomically
settle_atomically-IsMild payment order_id user false db =
    elim (Bool-cases (count_where (is_pending_id payment) db.payments == 0)) [
      | inl lost ↦ rw lost (IsMild-refl db)
      | inr won ↦ rw won (IsMild-refl db)
    ]
settle_atomically-IsMild payment order_id none true db =
    elim (Bool-cases (count_where (is_pending_id payment) db.payments == 0)) [
      | inl lost ↦ rw lost (IsMild-refl db)
      | inr won ↦ rw won (moved-IsMild OrderStatus.pending OrderStatus.paid order_id db)
    ]
settle_atomically-IsMild payment order_id (some user) true db =
    elim (Bool-cases (count_where (is_pending_id payment) db.payments == 0)) [
      | inl lost ↦ rw lost (IsMild-refl db)
      | inr won ↦ rw won (moved-IsMild OrderStatus.pending OrderStatus.paid order_id db)
    ]

paid-IsMild :
    (db : Db) (o : Order) (products : List Product) (orders : List Order)
    → IsMild db products orders db.next_id
    → IsMild db products (update_where (is_order o.id) (paid_in_full o) orders) (db.next_id + 1)
paid-IsMild db o products orders m = record {
  same =
      SameOrders-trans db.orders orders (update_where (is_order o.id) (paid_in_full o) orders)
        m.same
        (update_where-SameOrders (is_order o.id) (paid_in_full o) (λ x. (refl, refl)) orders);
  ids = omega arith;
  rows = m.rows;
}

pub update_tx-IsMild :
    (o : Order) (to : OrderStatus) (by : Option ℕ) (opts : UpdateOpts) (db : Db)
    → IsMildTo db (transaction (update_tx o to by opts) db).1
unfolding update_tx
update_tx-IsMild o to by opts db =
    elim (Bool-cases (count_where (is_order_in o.id o.status) db.orders == 0)) [
      | inl lost ↦ rw lost (IsMild-refl db)
      | inr won ↦ elim (Bool-cases (returns_stock o.status to)) [
        | inl back ↦ elim (Bool-cases (is_manual_paid o.status to)) [
          | inl hand ↦
              rw (won, back, hand) (paid-IsMild db o _ _ (restocked-IsMild o.status to o db))
          | inr gate ↦ rw (won, back, gate) (restocked-IsMild o.status to o db)
        ]
        | inr keep ↦ elim (Bool-cases (is_manual_paid o.status to)) [
          | inl hand ↦
              rw (won, keep, hand) (paid-IsMild db o _ _ (moved-IsMild o.status to o.id db))
          | inr gate ↦ rw (won, keep, gate) (moved-IsMild o.status to o.id db)
        ]
      ]
    ]
