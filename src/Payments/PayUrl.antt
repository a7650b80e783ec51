-- ===== src/Payments/PayUrl.antt =====
-- `PaymentsService.createPayUrl` and `createPayUrlForOrder`.
pub mod Laws
use clock.Base.{Bool, Option, [], ltb, none, some, ℕ, ◌&&◌, ◌++◌, ◌==◌, ◌∷◌}
use clock.Db.{Order, OrderStatus, Payment, PaymentStatus, payment_status_eq, status_eq}
use clock.Db.Monad.{Error, M, gets, or_throw, require, ◌>>=◌, ◌>>◌}
use clock.Db.Rows.{count_where}
use clock.Db.Tables.{create_payment, find_order, user_matches}
use clock.Orders.Expire.Counts.{pending_count}
use clock.Phone.{same_contact}
use clock.Text.{Text, codes}
use clock.Vnpay.{PayUrlInput, VnpayEnv, build_pay_url, non_empty_or}

-- What a request for a link takes from outside: the environment, the HMAC, the random end of the
-- reference (`Date.now().toString(36)` and six hex digits), the addresses and the dates.
pub record LinkContext : Type 0 where
  pub hmac : Text → Text → Text
  pub env : VnpayEnv
  pub ref_suffix : Text
  pub backend_url : Text
  pub ip : Text
  pub create_date : Text
  pub expire_date : Text

abbrev pub is_pending_of : ℕ → Payment → Bool
is_pending_of order_id p =
    p.order_id == order_id && payment_status_eq p.status PaymentStatus.pending

-- A user's order is the user's; a guest's is opened by the contact.
abbrev pub may_pay : Order → Option ℕ → Text → Bool
may_pay order user guest_contact = elim order.user_id [
  | some owner ↦ user_matches user (some owner)
  | none ↦ same_contact order.contact guest_contact
]

abbrev pub link_payment : Order → Text → ℕ → Payment
link_payment order txn_ref id = record {
  id = id;
  order_id = order.id;
  method = codes "vnpay";
  amount_usd = order.total_usd;
  status = PaymentStatus.pending;
  txn_ref = some txn_ref;
  expected_vnd = some order.total_vnd;
}

abbrev pub txn_ref_of : Order → Text → Text
txn_ref_of order suffix = order.code ++ (b'-' ∷ suffix)

abbrev pub link_input : LinkContext → Order → PayUrlInput
link_input c order = record {
  txn_ref = txn_ref_of order c.ref_suffix;
  amount_vnd = order.total_vnd;
  order_info = codes "Thanh toan don " ++ (order.code ++ codes " Aurel Co");
  return_url = c.backend_url ++ codes "/payments/vnpay/return";
  ip_addr = non_empty_or c.ip (codes "127.0.0.1");
  create_date = c.create_date;
  expire_date = c.expire_date;
}

-- For an order that was found. The row is written before the link is built; a link that cannot be
-- built leaves the row.
unfoldable pub link_order : LinkContext → ℕ → Order → Option ℕ → Text → M Text
link_order c id order user guest_contact = do
  require (may_pay order user guest_contact) Error.forbidden
  require (status_eq order.status OrderStatus.pending) Error.not_awaiting_payment
  pending_count ← gets (λ db. count_where (is_pending_of id) db.payments)
  require (ltb pending_count 3) Error.too_many_pending
  create_payment (link_payment order (txn_ref_of order c.ref_suffix))
  or_throw (build_pay_url c.hmac c.env (link_input c order)) Error.vnpay_not_configured

unfoldable pub create_pay_url : LinkContext → Option ℕ → Option ℕ → Text → M Text
create_pay_url c order_id user guest_contact = do
  id ← or_throw order_id Error.missing_order_id
  order ← or_throw (← gets (find_order id)) Error.order_not_found
  link_order c id order user guest_contact

-- The agent's link: there is no browser, and the address is the loopback.
unfoldable pub create_pay_url_for_order : LinkContext → ℕ → Option ℕ → M Text
unfolding create_pay_url
create_pay_url_for_order c order_id user =
    create_pay_url (record c { ip = codes "127.0.0.1" }) (some order_id) user []
