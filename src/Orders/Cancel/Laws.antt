-- ===== src/Orders/Cancel/Laws.antt =====
-- Who may cancel what, and that it happens once.
use clock.Base.{
  Bool, Option, Option-cases, ap, arith, if◌then◌else◌, inl, inr, none, refl, some, sym, true, ℕ,
  ◌&&◌, ◌∙◌, ◌∷◌, ◌≡◌, ◌≢◌,
}
use clock.Db.{Db, Order, OrderStatus, status_eq}
use clock.Db.Monad.{Error, Result, err, ok, transaction}
use clock.Db.RowLaws.{count_where-find_where, find_where-update_where}
use clock.Db.Rows.{count_where, update_where}
use clock.Db.Tables.{find_order, is_order, is_order_in, set_status}
use clock.Inventory.{restock}
use clock.Notify.Counts.{pending}
use clock.Orders.Cancel.{cancel, cancel_tx, cancelled_event, owns}
use clock.Text.{Text, codes}

-- The state after an order was cancelled by `user`.
abbrev pub cancelled_state : Order → Option ℕ → Db → Db
cancelled_state o user db = record db {
  products = restock o.items db.products;
  orders =
      update_where (is_order_in o.id OrderStatus.pending) (set_status OrderStatus.cancelled)
        db.orders;
  events = cancelled_event o.id user (codes "Khách hủy") ∷ db.events;
}

abbrev pub may_cancel : Order → Option ℕ → Option Text → Bool
may_cancel o user contact = status_eq o.status OrderStatus.pending && owns o user contact

cancel_tx_lem :
    (o : Order) (user : Option ℕ) (db : Db)
    → count_where (is_order_in o.id OrderStatus.pending) db.orders ≢ 0
    → transaction (cancel_tx o user) db ≡ (ok tt, cancelled_state o user db)
unfolding cancel_tx
cancel_tx_lem o user db won = ground arith

-- The error of a cancellation that is refused.
abbrev pub cancel_error : Option Order → Error
cancel_error none = Error.order_not_found
cancel_error (some o) =
    if status_eq o.status OrderStatus.pending then Error.forbidden else Error.not_pending

abbrev pub cancel_answer :
    ℕ → Option ℕ → Option Text → Option Order → Db → Result (ℕ × OrderStatus) × Db
cancel_answer id user contact none db = (err Error.order_not_found, db)
cancel_answer id user contact (some o) db =
    if may_cancel o user contact
    then (ok (id, OrderStatus.cancelled), cancelled_state o user db)
    else (err (cancel_error (some o)), db)

waits :
    (id : ℕ) (o : Order) (db : Db)
    → find_order id db ≡ some o
    → status_eq o.status OrderStatus.pending ≡ true
    → count_where (is_order_in o.id OrderStatus.pending) db.orders ≢ 0
waits id o db found pending =
    count_where-find_where (is_order_in o.id OrderStatus.pending) (is_order id) db.orders o found
      (ground arith)

-- A cancellation goes through exactly when the order exists, waits, and belongs to the caller: then the order is CANCELLED, its lines are back in stock and the event is logged. Otherwise it throws and changes nothing.
pub cancel_lem :
    (id : ℕ) (user : Option ℕ) (contact : Option Text) (db : Db)
    → cancel id user contact db ≡ cancel_answer id user contact (find_order id db) db
unfolding cancel
cancel_lem id user contact db = elim (Option-cases (find_order id db)) [
  | inl missing ↦ rw missing refl
  | inr (o, found) ↦ rw found (ground (arith, cancel_tx_lem o user db, waits id o db found))
]

-- The order, looked up after it was cancelled.
cancelled_order :
    (id : ℕ) (o : Order) (user : Option ℕ) (db : Db)
    → find_order id db ≡ some o
    → o.status ≡ OrderStatus.pending
    → find_order id (cancelled_state o user db) ≡ some (set_status OrderStatus.cancelled o)
cancelled_order id o user db found pending =
    find_where-update_where (is_order_in o.id OrderStatus.pending) (is_order id)
      (set_status OrderStatus.cancelled) db.orders (λ x. refl)
    ∙ rw found (ground arith)

-- After a cancellation the order is there, and CANCELLED.
pub cancel-cancelled :
    (id : ℕ) (user : Option ℕ) (contact : Option Text) (db db' : Db) (r : ℕ × OrderStatus)
    → cancel id user contact db ≡ (ok r, db')
    → (o : Order) × (find_order id db' ≡ some o) × (o.status ≡ OrderStatus.cancelled)
cancel-cancelled id user contact db db' r done =
    go (find_order id db) refl (sym (cancel_lem id user contact db) ∙ done)
  where
    go :
        (f : Option Order)
        → find_order id db ≡ f
        → cancel_answer id user contact f db ≡ (ok r, db')
        → (o : Order) × (find_order id db' ≡ some o) × (o.status ≡ OrderStatus.cancelled)
    go none found h = absurd (cc)
    go (some o) found h =
        let pending : o.status ≡ OrderStatus.pending = ground arith in
        let state : cancelled_state o user db ≡ db' = ground arith in
        (
          set_status OrderStatus.cancelled o,
          ap (find_order id) (sym state) ∙ cancelled_order id o user db found pending,
          refl,
        )
