-- ===== src/Inventory/Commits.antt =====
-- The transactions that change orders or stock keep the number of pieces of every product, on every
-- branch, whatever other requests did between the read of the order and the transaction.
use clock.Admin.Orders.{UpdateOpts, allowed, returns_stock, update_tx}
use clock.Base.{
  Bool, List, Option, [], arith, false, if◌then◌else◌, refl, true, ℕ, ◌+◌, ◌∷◌, ◌≡◌, ◌≢◌,
}
use clock.Db.{Db, Order, OrderStatus, Product}
use clock.Db.Monad.{Result, transaction}
use clock.Db.RowLaws.{update_where_nil}
use clock.Db.Rows.{count_where, update_where}
use clock.Db.Tables.{is_order, is_order_in, set_status}
use clock.Inventory.Conservation.{IsCurrent, held_of-move, status_eq-eq}
use clock.Inventory.Laws.{stock_of-reserve, stock_of-restock}
use clock.Inventory.Measures.{held_in, held_of, holds, pieces, qty_of, rows_of}
use clock.Orders.Cancel.{cancel_tx}
use clock.Orders.Create.Place.{NewOrder, StoredTotals, order_row}
use clock.Orders.Create.Place.Laws.{
  Placement, place_result, place_tx-Placement, placed, refused, reserve_drafts-reserve,
  stored_totals-lines, written,
}
use clock.Orders.Expire.{expire_tx}
use clock.Payments.Settle.{settle_atomically}
use clock.Text.{Text}

held_of-same :
    (s : Text) (p : Order → Bool) (g : Order → Order) (orders : List Order)
    → ((o : Order) → p o ≡ true → held_in s (g o) ≡ held_in s o)
    → held_of s (update_where p g orders) ≡ held_of s orders
unfolding held_of
held_of-same s p g [] h = refl
held_of-same s p g (o ∷ orders) h = ground (arith, h o, held_of-same s p g orders h)

-- A move between two statuses that both hold, or both do not.
held_of-move_same :
    (s : Text) (id : ℕ) (from to : OrderStatus) (orders : List Order)
    → holds from ≡ holds to
    → held_of s (update_where (is_order_in id from) (set_status to) orders) ≡ held_of s orders
held_of-move_same s id from to orders h =
    held_of-same s (is_order_in id from) (set_status to) orders
      λ o hit. ground (arith, status_eq-eq o.status from)

module _ (s : Text) (o : Order) (db : Db) (c : IsCurrent o db)
    (one : rows_of s db.products ≡ 1) where
  -- A cancellation by the customer.
  pub cancel_tx-pieces :
      (user : Option ℕ) → pieces s (transaction (cancel_tx o user) db).1 ≡ pieces s db
  unfolding cancel_tx
  cancel_tx-pieces user = ground (
    arith,
    held_of-move s o db OrderStatus.pending OrderStatus.cancelled c,
    stock_of-restock s o.items db.products one,
  )

  -- A cancellation by the hourly job.
  pub expire_tx-pieces : pieces s (transaction (expire_tx o) db).1 ≡ pieces s db
  unfolding expire_tx
  expire_tx-pieces = ground (
    arith,
    held_of-move s o db OrderStatus.pending OrderStatus.cancelled c,
    stock_of-restock s o.items db.products one,
    update_where_nil (is_order_in o.id OrderStatus.pending) (set_status OrderStatus.cancelled)
        db.orders,
  )

allowed-holds :
    (from to : OrderStatus)
    → allowed from to ≡ true
    → (returns_stock from to ≡ true → (holds from ≡ true) × (holds to ≡ false))
      × (returns_stock from to ≡ false → (holds from ≡ true) × (holds to ≡ true))
unfolding allowed returns_stock
allowed-holds from to h = ground arith

module _ (s : Text) (id : ℕ) (usd vnd : ℕ) where
  abbrev paid_rows : Order → Order
  paid_rows o = record o { paid_usd = usd; paid_vnd = vnd }

  held_of-paid :
      (orders : List Order)
      → held_of s (update_where (is_order id) paid_rows orders) ≡ held_of s orders
  held_of-paid orders = held_of-same s (is_order id) paid_rows orders λ o hit. refl

held_of-update_move :
    (s : Text) (o : Order) (db : Db) (from to : OrderStatus)
    → IsCurrent o db
    → allowed from to ≡ true
    → count_where (is_order_in o.id from) db.orders ≢ 0
    → held_of s (update_where (is_order_in o.id from) (set_status to) db.orders)
        + (if returns_stock from to then qty_of s o.items else 0)
      ≡ held_of s db.orders
held_of-update_move s o db from to c ok_move won =
    ground (arith, held_of-move s o db from to c won, allowed-holds from to ok_move)

module _ (s : Text) (o : Order) (db : Db) (c : IsCurrent o db)
    (one : rows_of s db.products ≡ 1) where
  -- A change by the back office that the table allows.
  pub update_tx-pieces :
      (to : OrderStatus) (by : Option ℕ) (opts : UpdateOpts)
      → allowed o.status to ≡ true
      → pieces s (transaction (update_tx o to by opts) db).1 ≡ pieces s db
  unfolding update_tx
  update_tx-pieces to by opts h =
      let moved = update_where (is_order_in o.id o.status) (set_status to) db.orders in
      ground (
        arith,
        held_of-update_move s o db o.status to c h,
        stock_of-restock s o.items db.products one,
        held_of-paid s o.id o.total_usd o.total_vnd moved,
      )

pub placed-parts :
    (n : NewOrder) (t : StoredTotals) (left : List Product) (code : Text) (now : ℕ) (db : Db)
    → let after = placed n t left code now db in
      (after.products ≡ left)
      × (after.orders ≡ order_row n t code now db.next_id ∷ db.orders)
      × (after.next_id ≡ db.next_id + 2)
placed-parts n t left code now db = ground arith

held_of-cons :
    (s : Text) (o : Order) (orders : List Order)
    → held_of s (o ∷ orders) ≡ held_in s o + held_of s orders
unfolding held_of
held_of-cons s o orders = refl

-- The placing of an order: what it takes from the shelf, it holds.
pub place_tx-pieces :
    (s : Text) (n : NewOrder) (code : Text) (now : ℕ) (db : Db)
    → rows_of s db.products ≡ 1
    → pieces s (place_result n code now db).1 ≡ pieces s db
place_tx-pieces s n code now db one =
    go (place_result n code now db) (place_tx-Placement n code now db)
  where
    go : (r : Result Order × Db) → Placement n code now db r → pieces s r.1 ≡ pieces s db
    go r (refused e same) = rw same refl
    go r (written t left totals taken fresh same) =
        let parts = placed-parts n t left code now db in
        let row = order_row n t code now db.next_id in
        let stock =
          stock_of-reserve s t.items db.products left
            (reserve_drafts-reserve n.lines t.items db.products left
              (stored_totals-lines n t totals) taken)
            (omega arith) in
        rw (same, parts.0, parts.1, held_of-cons s row db.orders) (ground arith)

-- The settlement of a payment, whatever the gateway says.
pub settle_atomically-pieces :
    (s : Text) (payment order_id : ℕ) (user : Option ℕ) (came_in : Bool) (db : Db)
    → pieces s (transaction (settle_atomically payment order_id user came_in) db).1 ≡ pieces s db
unfolding settle_atomically
settle_atomically-pieces s payment order_id user came_in db =
    ground (arith, held_of-move_same s order_id OrderStatus.pending OrderStatus.paid db.orders)
