-- ===== src/Admin/Orders.antt =====
-- backend/src/admin/admin-orders.service.ts: `updateStatus`, the back office's change of an order.
-- `STATUSES.includes(status)`, with the status that the text names.
pub mod Laws
pub mod Graph
use clock.Base.{
  Bool, Option, [], false, get_or, if◌then◌else◌, is_empty, none, not, some, take, true, ℕ, ◌&&◌,
  ◌++◌, ◌-◌, ◌==◌, ◌||◌, ◌∷◌,
}
use clock.Db.{Order, OrderStatus, Payment, PaymentStatus, status_eq}
use clock.Db.Monad.{Error, M, gets, modify, or_throw, pure, require, transaction, when, ◌>>=◌, ◌>>◌}
use clock.Db.Rows.{update_where}
use clock.Db.Tables.{create_event, create_payment, find_order, is_order, move_order, restock_lines}
use clock.Text.{Text, codes, text_eq, trim}

unfoldable pub parse_status : Text → Option OrderStatus
parse_status s =
    if text_eq s (codes "PENDING")
    then some OrderStatus.pending
    else if text_eq s (codes "CONFIRMED")
    then some OrderStatus.confirmed
    else if text_eq s (codes "PAID")
    then some OrderStatus.paid
    else if text_eq s (codes "SHIPPED")
    then some OrderStatus.shipped
    else if text_eq s (codes "COMPLETED")
    then some OrderStatus.completed
    else if text_eq s (codes "CANCELLED")
    then some OrderStatus.cancelled
    else if text_eq s (codes "REFUNDED")
    then some OrderStatus.refunded
    else none

-- The table `allowed`, as a test: may an order go from the first status to the second?
unfoldable pub allowed : OrderStatus → OrderStatus → Bool
allowed OrderStatus.pending OrderStatus.confirmed = true
allowed OrderStatus.pending OrderStatus.paid = true
allowed OrderStatus.pending OrderStatus.cancelled = true
allowed OrderStatus.confirmed OrderStatus.paid = true
allowed OrderStatus.confirmed OrderStatus.shipped = true
allowed OrderStatus.confirmed OrderStatus.cancelled = true
allowed OrderStatus.paid OrderStatus.shipped = true
allowed OrderStatus.paid OrderStatus.refunded = true
allowed OrderStatus.shipped OrderStatus.completed = true
allowed _ _ = false

pub record UpdateOpts : Type 0 where
  pub refund_ref : Option Text
  pub payment_ref : Option Text
  pub note : Option Text

-- `String(x ?? '').trim().slice(0, 200)`
unfoldable pub reference : Option Text → Text
reference x = take 200 (trim (get_or x []))

abbrev pub is_refund : OrderStatus → Bool
is_refund status = status_eq status OrderStatus.refunded

-- PAID by hand, for an order that no payment gateway confirmed
unfoldable pub is_manual_paid : OrderStatus → OrderStatus → Bool
is_manual_paid from status =
    status_eq status OrderStatus.paid
    && (status_eq from OrderStatus.pending || status_eq from OrderStatus.confirmed)

-- The goods go back to the shelf.
unfoldable pub returns_stock : OrderStatus → OrderStatus → Bool
returns_stock from status =
    (status_eq status OrderStatus.cancelled
      && (status_eq from OrderStatus.pending || status_eq from OrderStatus.confirmed))
    || is_refund status

abbrev pub with_extra : Text → Text → Text
with_extra head [] = head
with_extra head (c ∷ extra) = head ++ (codes " — " ++ (c ∷ extra))

unfoldable pub event_note : OrderStatus → OrderStatus → UpdateOpts → Text
unfolding is_manual_paid
event_note from status opts =
    if is_refund status
    then with_extra (codes "Hoàn tiền — ref: " ++ reference opts.refund_ref) (reference opts.note)
    else if is_manual_paid from status
    then with_extra (codes "Xác nhận đã thu — ref: " ++ reference opts.payment_ref)
        (reference opts.note)
    else codes "Admin cập nhật"

abbrev pub manual_payment : Order → Text → ℕ → Payment
manual_payment order payment_ref id = record {
  id = id;
  order_id = order.id;
  method = codes "manual";
  amount_usd = order.total_usd - order.paid_usd;
  status = PaymentStatus.success;
  txn_ref = some payment_ref;
  expected_vnd = none;
}

abbrev pub paid_in_full : Order → Order → Order
paid_in_full order o = record o { paid_usd = order.total_usd; paid_vnd = order.total_vnd }

-- The second write of a collection by hand: `tx.order.update({ where: { id }, … })`.
abbrev pub settle_by_hand : Order → Text → M (Unit {0})
settle_by_hand order payment_ref = do
  create_payment (manual_payment order payment_ref)
  modify
      (λ db. record db { orders = update_where (is_order order.id) (paid_in_full order) db.orders })

-- The transaction, on the order as it was read before.
unfoldable pub update_tx : Order → OrderStatus → Option ℕ → UpdateOpts → M (Option Order)
update_tx current status by opts = do
  won ← move_order current.id current.status status
  require (not (won == 0)) Error.lost_race
  when (returns_stock current.status status) (restock_lines current.items)
  when (is_manual_paid current.status status) (settle_by_hand current (reference opts.payment_ref))
  create_event (record {
    order_id = current.id;
    from_status = some current.status;
    to_status = status;
    by_user_id = by;
    note = some (event_note current.status status opts);
  })
  gets (find_order current.id)

unfoldable pub update_status : ℕ → Text → Option ℕ → UpdateOpts → M (ℕ × OrderStatus)
update_status id status_text by opts = do
  status ← or_throw (parse_status status_text) Error.bad_status
  current ← or_throw (← gets (find_order id)) Error.order_not_found
  require (allowed current.status status) Error.bad_transition
  require (not (is_refund status && is_empty (reference opts.refund_ref))) Error.missing_refund_ref
  require (not (is_manual_paid current.status status && is_empty (reference opts.payment_ref)))
      Error.missing_payment_ref
  order ← or_throw (← transaction (update_tx current status by opts)) Error.order_not_found
  pure (order.id, order.status)
