-- ===== src/Interleaving/Cancelled.antt =====
-- An order that was cancelled stays so, whatever concurrent requests do.
use clock.Admin.Orders.{UpdateOpts, allowed, is_manual_paid, paid_in_full, returns_stock, update_tx}
use clock.Base.{
  Bool, Bool-cases, List, Option, [], ap, arith, false, inl, inr, none, refl, some, true, ℕ, ◌==◌,
  ◌∙◌, ◌∷◌, ◌≡◌,
}
use clock.Db.{Db, Order, OrderStatus, status_eq}
use clock.Db.Monad.{Error, Result, err, ok, transaction}
use clock.Db.RowLaws.{find_where-update_where, update_row}
use clock.Db.Rows.{count_where, find_where, update_where}
use clock.Db.Tables.{is_order, is_order_in, set_status}
use clock.Interleaving.Orders.{Keys}
use clock.Interleaving.Steps.{
  Reach, Reach-Keeps, Step, by_cancel, by_expire, by_place, by_settle, by_update, elsewhere,
  reach_start, reach_step,
}
use clock.Inventory.Commits.{placed-parts}
use clock.Orders.Cancel.{cancel, cancel_tx}
use clock.Orders.Cancel.Laws.{cancel-cancelled, cancel_lem}
use clock.Orders.Create.Place.{NewOrder, order_row}
use clock.Orders.Create.Place.Laws.{Placement, place_result, place_tx-Placement, refused, written}
use clock.Orders.Expire.{expire_tx}
use clock.Payments.Settle.{is_pending_id, settle_atomically}
use clock.Text.{Text}

-- The order is there, and CANCELLED.
abbrev IsGone : ℕ → List Order → Type 0
IsGone id orders =
    (o : Order) × (find_where (is_order id) orders ≡ some o) × (o.status ≡ OrderStatus.cancelled)

moved-IsGone :
    (id other : ℕ) (from to : OrderStatus) (orders : List Order)
    → status_eq OrderStatus.cancelled from ≡ false
    → IsGone id orders
    → IsGone id (update_where (is_order_in other from) (set_status to) orders)
moved-IsGone id other from to orders apart (o, found, gone) =
    let row =
      find_where-update_where (is_order_in other from) (is_order id) (set_status to) orders
        (λ x. refl) in
    (o, row ∙ rw found (ground (arith, gone, apart)), gone)

paid-IsGone :
    (id : ℕ) (o : Order) (orders : List Order)
    → IsGone id orders
    → IsGone id (update_where (is_order o.id) (paid_in_full o) orders)
paid-IsGone id paid orders (o, found, gone) =
    let row =
      find_where-update_where (is_order paid.id) (is_order id) (paid_in_full paid) orders
        (λ x. refl) in
    (update_row (is_order paid.id) (paid_in_full paid) o, row ∙ rw found refl, ground (arith, gone))

-- The table of changes leaves CANCELLED by no change.
allowed-start :
    (from to : OrderStatus) → allowed from to ≡ true → status_eq OrderStatus.cancelled from ≡ false
unfolding allowed
allowed-start from to h = ground (arith, h)

cancel_tx-IsGone :
    (id : ℕ) (o : Order) (user : Option ℕ) (db : Db)
    → IsGone id db.orders
    → IsGone id (transaction (cancel_tx o user) db).1.orders
unfolding cancel_tx
cancel_tx-IsGone id o user db h =
    elim (Bool-cases (count_where (is_order_in o.id OrderStatus.pending) db.orders == 0)) [
      | inl lost ↦ rw lost h
      | inr won ↦
          rw won (moved-IsGone id o.id OrderStatus.pending OrderStatus.cancelled db.orders refl h)
    ]

expire_tx-IsGone :
    (id : ℕ) (o : Order) (db : Db)
    → IsGone id db.orders
    → IsGone id (transaction (expire_tx o) db).1.orders
unfolding expire_tx
expire_tx-IsGone id o db h =
    let moved = moved-IsGone id o.id OrderStatus.pending OrderStatus.cancelled db.orders refl h in
    elim (Bool-cases (count_where (is_order_in o.id OrderStatus.pending) db.orders == 0)) [
      | inl lost ↦ rw lost moved
      | inr won ↦ rw won moved
    ]

settle_atomically-IsGone :
    (id payment order_id : ℕ) (user : Option ℕ) (came_in : Bool) (db : Db)
    → IsGone id db.orders
    → IsGone id (transaction (settle_atomically payment order_id user came_in) db).1.orders
unfolding settle_atomically
settle_atomically-IsGone id payment order_id user false db h =
    elim (Bool-cases (count_where (is_pending_id payment) db.payments == 0)) [
      | inl lost ↦ rw lost h
      | inr won ↦ rw won h
    ]
settle_atomically-IsGone id payment order_id none true db h =
    elim (Bool-cases (count_where (is_pending_id payment) db.payments == 0)) [
      | inl lost ↦ rw lost h
      | inr won ↦
          rw won (moved-IsGone id order_id OrderStatus.pending OrderStatus.paid db.orders refl h)
    ]
settle_atomically-IsGone id payment order_id (some user) true db h =
    elim (Bool-cases (count_where (is_pending_id payment) db.payments == 0)) [
      | inl lost ↦ rw lost h
      | inr won ↦
          rw won (moved-IsGone id order_id OrderStatus.pending OrderStatus.paid db.orders refl h)
    ]

update_tx-IsGone :
    (id : ℕ) (o : Order) (to : OrderStatus) (by : Option ℕ) (opts : UpdateOpts) (db : Db)
    → allowed o.status to ≡ true
    → IsGone id db.orders
    → IsGone id (transaction (update_tx o to by opts) db).1.orders
unfolding update_tx
update_tx-IsGone id o to by opts db move h =
    let moved = moved-IsGone id o.id o.status to db.orders (allowed-start o.status to move) h in
    elim (Bool-cases (count_where (is_order_in o.id o.status) db.orders == 0)) [
      | inl lost ↦ rw lost h
      | inr won ↦ elim (Bool-cases (returns_stock o.status to)) [
        | inl back ↦ elim (Bool-cases (is_manual_paid o.status to)) [
          | inl hand ↦ rw (won, back, hand) (paid-IsGone id o _ moved)
          | inr gate ↦ rw (won, back, gate) moved
        ]
        | inr keep ↦ elim (Bool-cases (is_manual_paid o.status to)) [
          | inl hand ↦ rw (won, keep, hand) (paid-IsGone id o _ moved)
          | inr gate ↦ rw (won, keep, gate) moved
        ]
      ]
    ]

-- An order that is there has another id than the next one.
is_known : (id : ℕ) (db : Db) → Keys db → IsGone id db.orders → (db.next_id == id) ≡ false
is_known id db k (o, found, gone) = elim (Bool-cases (db.next_id == id)) [
  | inl same ↦ absurd (missing db.orders (k.unused id (ground (arith, same))) found)
  | inr differs ↦ differs
]
  where
    missing :
        (orders : List Order)
        → count_where (is_order id) orders ≡ 0
        → find_where (is_order id) orders ≡ some o
        → ⊥
    missing [] z f = cc
    missing (x ∷ orders) z f = ground (arith, missing orders)

placed-IsGone :
    (id : ℕ) (n : NewOrder) (code : Text) (now : ℕ) (db : Db) (r : Result Order × Db)
    → Keys db
    → Placement n code now db r
    → IsGone id db.orders
    → IsGone id r.1.orders
placed-IsGone id n code now db r k (refused e same) h =
    rw (ap (λ (x : Result Order × Db). x.1) same) h
placed-IsGone id n code now db r k (written t left totals taken fresh same) (o, found, gone) =
    let parts = placed-parts n t left code now db in
    let orders : r.1.orders ≡ order_row n t code now db.next_id ∷ db.orders =
      ap (λ x. x.1.orders) same ∙ parts.1 in
    let known = is_known id db k (o, found, gone) in
    rw orders (o, ground (arith, known, found), gone)

Step-IsGone :
    (id : ℕ) (db db' : Db) → Keys db → Step db db' → IsGone id db.orders → IsGone id db'.orders
Step-IsGone id db db' k (by_cancel o user read same) h = rw same (cancel_tx-IsGone id o user db h)
Step-IsGone id db db' k (by_expire o read same) h = rw same (expire_tx-IsGone id o db h)
Step-IsGone id db db' k (by_update o to by opts read ok_move same) h =
    rw same (update_tx-IsGone id o to by opts db ok_move h)
Step-IsGone id db db' k (by_place n code now same) h = rw same (
    placed-IsGone id n code now db (place_result n code now db) k (place_tx-Placement n code now db)
      h)
Step-IsGone id db db' k (by_settle payment order_id user came_in same) h =
    rw same (settle_atomically-IsGone id payment order_id user came_in db h)
Step-IsGone id db db' k (elsewhere ep eo le) h = rw eo h

Reach-IsGone :
    (id : ℕ) {db db' : Db} → Reach db db' → Keys db → IsGone id db.orders → IsGone id db'.orders
Reach-IsGone id reach_start k h = h
Reach-IsGone id (reach_step {mid = mid} {last = last} run step) k h =
    Step-IsGone id mid last (Reach-Keeps run k).keys step (Reach-IsGone id run k h)

-- An order that was cancelled is not cancelled again: after the cancellation, orders may be placed,
-- cancelled and expired, payments settled and statuses changed by concurrent requests, in any order
-- and number; an attempt to cancel the order again, by whomever, throws and changes nothing, if the
-- order ids are keys when it was cancelled.
pub Reach-cancel :
    (id : ℕ) (user user' : Option ℕ) (contact contact' : Option Text) (db db' later : Db)
    (r : ℕ × OrderStatus)
    → cancel id user contact db ≡ (ok r, db')
    → Keys db'
    → Reach db' later
    → cancel id user' contact' later ≡ (err Error.not_pending, later)
Reach-cancel id user user' contact contact' db db' later r first k run =
    let (o, found, gone) =
      Reach-IsGone id run k (cancel-cancelled id user contact db db' r first) in
    cancel_lem id user' contact' later ∙ rw found (ground (arith, gone))
