-- ===== src/Orders/Create/Place.antt =====
-- The transaction of `OrdersService.create`, and its retries with another code.
pub mod Laws
use clock.Base.{
  Bool, List, Option, [], false, if◌then◌else◌, is_some, none, not, some, suc, take, true, zero, ℕ,
  ◌&&◌, ◌++◌, ◌+◌, ◌==◌, ◌∷◌,
}
use clock.Db.{Db, Order, OrderEvent, OrderItem, OrderStatus, Payment, PaymentStatus, Product}
use clock.Db.Monad.{
  Error, M, Result, err, gets, modify, ok, or_throw, pure, require, transaction, when, ◌>>=◌, ◌>>◌,
}
use clock.Db.Tables.{clear_cart_rows, find_by_code}
use clock.Inventory.{real_slug, reserve_slug}
use clock.Orders.Create.Amount.{Amount, num}
use clock.Orders.Create.Lines.{DraftLine, store_lines}
use clock.Text.{Text, codes}

-- What the transaction writes.
pub record NewOrder : Type 0 where
  pub user_id : Option ℕ
  pub customer_name : Text
  pub contact : Text
  pub address : Text
  pub slot : Option Text
  pub method : Text
  -- the money is taken as collected at once: no VNPay, and no custom line
  pub simulated : Bool
  pub total_usd : Amount
  pub total_vnd : Amount
  pub paid_usd : Amount
  pub paid_vnd : Amount
  pub lines : List DraftLine

abbrev pub reserved : Option (List Product) → Result (List Product)
reserved none = err Error.sold_out
reserved (some left) = ok left

abbrev pub reserve_draft : Option Text → Amount → List Product → Result (List Product)
reserve_draft none qty products = ok products
reserve_draft (some s) (num n) products = reserved (reserve_slug (some s) n products)
reserve_draft (some s) qty products = err Error.database_error

-- The conditional decrement of every line with a product.
unfoldable pub reserve_drafts : List DraftLine → List Product → Result (List Product)
reserve_drafts [] products = ok products
reserve_drafts (l ∷ ls) products = elim (reserve_draft (real_slug l.product_slug) l.qty products) [
  | err e ↦ err e
  | ok left ↦ reserve_drafts ls left
]

abbrev pub first_status : Bool → OrderStatus
first_status simulated = if simulated then OrderStatus.confirmed else OrderStatus.pending

pub record StoredTotals : Type 0 where
  pub usd : ℕ
  pub vnd : ℕ
  pub paid_usd : ℕ
  pub paid_vnd : ℕ
  pub items : List OrderItem

-- The numbers of the new rows, if the database takes them all.
unfoldable pub stored_totals : NewOrder → Option StoredTotals
unfolding store_lines
stored_totals n = elim n.total_usd [
  | num usd ↦ elim n.total_vnd [
    | num vnd ↦ elim n.paid_usd [
      | num paid_usd ↦ elim n.paid_vnd [
        | num paid_vnd ↦ elim (store_lines n.lines) [
          | some items ↦ some (record {
            usd = usd;
            vnd = vnd;
            paid_usd = paid_usd;
            paid_vnd = paid_vnd;
            items = items;
          })
          | none ↦ none
        ]
        | _ ↦ none
      ]
      | _ ↦ none
    ]
    | _ ↦ none
  ]
  | _ ↦ none
]

abbrev pub order_row : NewOrder → StoredTotals → Text → ℕ → ℕ → Order
order_row n t code now id = record {
  id = id;
  code = code;
  user_id = n.user_id;
  customer_name = take 200 n.customer_name;
  contact = take 200 n.contact;
  address = take 500 n.address;
  slot = elim n.slot [ none ↦ none | some s ↦ some (take 200 s) ];
  status = first_status n.simulated;
  total_usd = t.usd;
  total_vnd = t.vnd;
  paid_usd = t.paid_usd;
  paid_vnd = t.paid_vnd;
  agreed_terms = true;
  items = t.items;
  created_at = now;
}

abbrev pub first_payment : NewOrder → StoredTotals → Text → ℕ → ℕ → Payment
first_payment n t code order_id id = record {
  id = id;
  order_id = order_id;
  method = n.method;
  amount_usd = t.paid_usd;
  status = if n.simulated then PaymentStatus.success else PaymentStatus.pending;
  txn_ref = if n.simulated then some (codes "SIM-" ++ code) else none;
  expected_vnd = none;
}

abbrev pub created_event : NewOrder → ℕ → OrderEvent
created_event n order_id = record {
  order_id = order_id;
  from_status = none;
  to_status = first_status n.simulated;
  by_user_id = none;
  note = none;
}

-- `tx.order.create` with the nested rows. A code that is taken violates the unique constraint.
unfoldable pub create_order : NewOrder → Text → ℕ → M Order
create_order n code now = do
  t ← or_throw (stored_totals n) Error.database_error
  require (not (is_some (← gets (find_by_code code)))) Error.unique_violation
  id ← gets (λ db. db.next_id)
  modify (λ db. record db {
    orders = order_row n t code now id ∷ db.orders;
    payments = first_payment n t code id (id + 1) ∷ db.payments;
    events = created_event n id ∷ db.events;
    next_id = db.next_id + 2;
  })
  pure (order_row n t code now id)

abbrev pub set_products : List Product → M (Unit {0})
set_products products = modify (λ db. record db { products = products })

abbrev pub or_error : Result (List Product) → M (List Product)
or_error r db = (r, db)

-- The cart goes when the order is settled at once; a VNPay order keeps it until the money comes in.
abbrev pub clear_cart_of : Option ℕ → Bool → M (Unit {0})
clear_cart_of none simulated = pure tt
clear_cart_of (some user) simulated = when simulated (modify (clear_cart_rows user))

unfoldable pub place_tx : NewOrder → Text → ℕ → M Order
unfolding create_order
place_tx n code now = do
  left ← or_error (reserve_drafts n.lines (← gets (λ db. db.products)))
  set_products left
  created ← create_order n code now
  clear_cart_of n.user_id n.simulated
  pure created

abbrev pub is_collision : Error → Bool
is_collision Error.unique_violation = true
is_collision _ = false

-- What follows an attempt, with `left` more: a taken code is tried again, but for the last attempt.
abbrev pub next_attempt : ℕ → Result Order × Db → Result Order × Db → Result Order × Db
next_attempt left again (ok o, db') = (ok o, db')
next_attempt left again (err e, db') =
    if is_collision e && not (left == 0) then again else (err e, db')

-- The attempts that are left, of six, each with its random code `code_at`.
unfoldable pub place_order : ℕ → NewOrder → (ℕ → Text) → ℕ → M Order
unfolding place_tx
place_order zero n code_at now db = (err Error.no_order_code, db)
place_order (suc left) n code_at now db =
    let again = place_order left n code_at now db in
    next_attempt left again (transaction (place_tx n (code_at left) now) db)
