-- ===== src/Inventory/Conservation.antt =====
-- No piece is lost or made: a transaction that cancels or refunds an order puts on the shelf exactly
-- what the order held, whatever happened to the database since the order was read.
use clock.Base.{
  Bool-cases, [], ap, arith, filter, if◌then◌else◌, inl, inr, length, refl, some, true, ◌+◌, ◌∙◌,
  ◌∷◌, ◌≡◌, ◌≢◌, ◌≤◌,
}
use clock.Db.{Db, Order, OrderStatus, status_eq}
use clock.Db.RowLaws.{count_where-eq-length, filter-find_where, sum_by-update_where}
use clock.Db.Rows.{count_where, update_where}
use clock.Db.Tables.{find_order, is_order, is_order_in, set_status}
use clock.Inventory.Measures.{held_in, held_of, holds, qty_of}
use clock.Text.{Text}

-- The order's id is the table's key, and the row with it has the lines that were read before.
pub record IsCurrent (o : Order) (db : Db) : Type 0 where
  pub one_row : count_where (is_order o.id) db.orders ≤ 1
  pub now : Order
  pub found : find_order o.id db ≡ some now
  pub same_items : now.items ≡ o.items

held-set_status :
    (s : Text) (o : Order) (from to : OrderStatus) (o' : Order)
    → held_in s (set_status to o') ≡ (if holds to then qty_of s o'.items else 0)
held-set_status s o from to o' = refl

matching :
    (o : Order) (db : Db) (from : OrderStatus) (c : IsCurrent o db)
    → filter (is_order_in o.id from) db.orders
      ≡ (if is_order_in o.id from c.now then c.now ∷ [] else [])
matching o db from c =
    filter-find_where (is_order_in o.id from) (is_order o.id) db.orders c.now (λ y h. ground arith)
      c.one_row c.found

pub status_eq-eq : (a b : OrderStatus) → status_eq a b ≡ true → a ≡ b
status_eq-eq a b h = ground arith

-- What orders hold of `s`, when the status of one order moves and when no row is met.
pub held_of-move :
    (s : Text) (o : Order) (db : Db) (from to : OrderStatus)
    → IsCurrent o db
    → count_where (is_order_in o.id from) db.orders ≢ 0
    → held_of s (update_where (is_order_in o.id from) (set_status to) db.orders)
        + (if holds from then qty_of s o.items else 0)
      ≡ held_of s db.orders + (if holds to then qty_of s o.items else 0)
unfolding held_of
held_of-move s o db from to c won =
    let p = is_order_in o.id from in
    let one = matching o db from c in
    let moved = sum_by-update_where (held_in s) p (set_status to) db.orders in
    let count = count_where-eq-length p db.orders in
    elim (Bool-cases (p c.now)) [
      | inl hit ↦
          let row : filter p db.orders ≡ c.now ∷ [] =
            one ∙ ap (λ b. if b then c.now ∷ [] else []) hit in
          ground
            (arith, rw row at moved, status_eq-eq c.now.status from, ap (qty_of s) c.same_items)
      | inr miss ↦
          let row : filter p db.orders ≡ [] = one ∙ ap (λ b. if b then c.now ∷ [] else []) miss in
          absurd (won (count ∙ ap length row))
    ]
