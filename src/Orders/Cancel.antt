-- ===== src/Orders/Cancel.antt =====
-- `OrdersService.cancel` and `cancelByCode`.
pub mod Laws
use clock.Base.{Bool, Option, false, none, not, some, ℕ, ◌==◌, ◌||◌}
use clock.Db.{Order, OrderEvent, OrderStatus, status_eq}
use clock.Db.Monad.{Error, M, gets, or_throw, pure, require, transaction, ◌>>=◌, ◌>>◌}
use clock.Db.Tables.{
  create_event, find_by_code, find_order, move_order, restock_lines, user_matches,
}
use clock.Phone.{same_contact}
use clock.Text.{Text, codes}

-- A contact that was given, against the order's.
abbrev pub contact_matches : Text → Option Text → Bool
contact_matches stored none = false
contact_matches stored (some given) = same_contact stored given

unfoldable pub owns : Order → Option ℕ → Option Text → Bool
owns order user contact = user_matches user order.user_id || contact_matches order.contact contact

abbrev pub cancelled_event : ℕ → Option ℕ → Text → OrderEvent
cancelled_event id user note = record {
  order_id = id;
  from_status = some OrderStatus.pending;
  to_status = OrderStatus.cancelled;
  by_user_id = user;
  note = some note;
}

-- The transaction, on the order as it was read before. The update is conditional: it counts no row
-- if the order has left PENDING since.
unfoldable pub cancel_tx : Order → Option ℕ → M (Unit {0})
cancel_tx order user = do
  won ← move_order order.id OrderStatus.pending OrderStatus.cancelled
  require (not (won == 0)) Error.already_processed
  restock_lines order.items
  create_event (cancelled_event order.id user (codes "Khách hủy"))

unfoldable pub cancel : ℕ → Option ℕ → Option Text → M (ℕ × OrderStatus)
cancel order_id user contact = do
  order ← or_throw (← gets (find_order order_id)) Error.order_not_found
  require (status_eq order.status OrderStatus.pending) Error.not_pending
  require (owns order user contact) Error.forbidden
  transaction (cancel_tx order user)
  pure (order_id, OrderStatus.cancelled)

unfoldable pub cancel_by_code : Text → Text → M (ℕ × OrderStatus)
cancel_by_code code contact = do
  order ← or_throw (← gets (find_by_code code)) Error.order_not_found
  cancel order.id none (some contact)
