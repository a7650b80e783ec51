-- ===== src/Payments/Settle.antt =====
-- `settlePayment` of backend/src/common/vnpay.ts over the database of `PaymentsService.settleDeps`,
-- and the two callbacks, `handleReturn` and `handleIpn`.
pub mod Amount
pub mod Laws
pub mod Once
use clock.Base.{
  Bool, Option, [], false, get_or, if◌then◌else◌, leb, none, some, true, ℕ, ◌&&◌, ◌*◌, ◌+◌, ◌-◌,
  ◌/◌, ◌==◌, ◌∷◌,
}
use clock.Db.{Db, Order, OrderStatus, Payment, PaymentStatus, payment_status_eq}
use clock.Db.Monad.{M, branch, gets, ok, pure, transaction, ◌>>=◌, ◌>>◌}
use clock.Db.Rows.{count_where, find_where, update_where}
use clock.Db.Tables.{clear_cart_rows, find_order, is_order_in, set_status}
use clock.Text.{Text, codes, text_eq}
use clock.Vnpay.{non_empty_or}
use clock.Vnpay.Sign.{Params, param, verify_return}

pub data SettleOutcome : Type 0 where
  success unpaid : Text → SettleOutcome
  already_set : Text → Bool → SettleOutcome
  checksum_fail payment_not_found amount_mismatch : SettleOutcome

abbrev pub has_ref : Text → Payment → Bool
has_ref ref p = elim p.txn_ref [ none ↦ false | some r ↦ text_eq r ref ]

abbrev pub find_payment : Text → Db → Option Payment
find_payment ref db = find_where (has_ref ref) db.payments

-- `Number(text)` for text of decimal digits; any other text is taken as NaN, `none`, which equals
-- nothing.
unfoldable pub parse_digits : ℕ → Text → Option ℕ
parse_digits acc [] = some acc
parse_digits acc (c ∷ s) =
    let rest = parse_digits (acc * 10 + (c - b'0')) s in
    if leb b'0' c && leb c b'9' then rest else none

-- `Math.round(Number(vnp_Amount ?? 0) / 100) === Math.round(expected)`
unfoldable pub amount_ok : Text → ℕ → Bool
unfolding parse_digits
amount_ok amount expected = elim (parse_digits 0 amount) [
  | none ↦ false
  | some n ↦ (n + 50) / 100 == expected
]

-- `where: { id, status: 'PENDING' }`
abbrev pub is_pending_id : ℕ → Payment → Bool
is_pending_id id p = p.id == id && payment_status_eq p.status PaymentStatus.pending

abbrev pub set_payment : PaymentStatus → Payment → Payment
set_payment status p = record p { status = status }

-- The writes of a payment that came in: the order, if it still waits, and the user's cart.
abbrev pub order_paid_rows : ℕ → Option ℕ → Db → Db
order_paid_rows order_id user db =
    let paid = record db {
      orders =
          update_where (is_order_in order_id OrderStatus.pending) (set_status OrderStatus.paid)
            db.orders;
    } in
    elim user [ none ↦ paid | some u ↦ clear_cart_rows u paid ]

-- `settleAtomically`: `false` if the payment was settled before.
unfoldable pub settle_atomically : ℕ → ℕ → Option ℕ → Bool → M Bool
settle_atomically payment_id order_id user came_in db =
    let to = if came_in then PaymentStatus.success else PaymentStatus.failed in
    let settled = record db {
      payments = update_where (is_pending_id payment_id) (set_payment to) db.payments;
    } in
    if count_where (is_pending_id payment_id) db.payments == 0
    then (ok false, db)
    else (ok true, if came_in then order_paid_rows order_id user settled else settled)

abbrev pub is_success : Option Payment → Bool
is_success none = false
is_success (some p) = payment_status_eq p.status PaymentStatus.success

-- The outcome, once the transaction has run.
abbrev pub settled_outcome : Text → Text → Bool → Bool → Db → SettleOutcome
settled_outcome ref code came_in updated db =
    if updated
    then (if came_in then success code else unpaid code)
    else already_set code (is_success (find_payment ref db))

-- A payment that still waits.
unfoldable pub settle_pending : Text → Bool → Payment → Order → M SettleOutcome
settle_pending ref came_in payment order = do
  updated ← transaction (settle_atomically payment.id payment.order_id order.user_id came_in)
  gets (settled_outcome ref order.code came_in updated)

-- From `payment.status !== 'PENDING'` on.
unfoldable pub settle_found : Text → Bool → Payment → Order → M SettleOutcome
settle_found ref came_in payment order =
    branch (payment_status_eq payment.status PaymentStatus.pending)
      (settle_pending ref came_in payment order)
      (pure (already_set order.code (is_success (some payment))))

abbrev pub response_ok : Params → Bool
response_ok params = text_eq (param (codes "vnp_ResponseCode") params) (codes "00")

-- A missing amount is 0.
abbrev pub amount_text : Params → Text
amount_text params = non_empty_or (param (codes "vnp_Amount") params) (codes "0")

abbrev pub settle_order : Params → Payment → Option Order → M SettleOutcome
settle_order params payment none = pure payment_not_found
settle_order params payment (some order) =
    branch (amount_ok (amount_text params) (get_or payment.expected_vnd order.total_vnd))
      (settle_found (param (codes "vnp_TxnRef") params) (response_ok params) payment order)
      (pure amount_mismatch)

abbrev pub settle_row : Params → Option Payment → M SettleOutcome
settle_row params none = pure payment_not_found
settle_row params (some payment) = do
  order ← gets (find_order payment.order_id)
  settle_order params payment order

abbrev pub settle_verified : Params → M SettleOutcome
settle_verified params = do
  payment ← gets (find_payment (param (codes "vnp_TxnRef") params))
  settle_row params payment

unfoldable pub settle_payment : (Text → Text → Text) → Text → Params → M SettleOutcome
settle_payment hmac secret params =
    branch (verify_return hmac secret params) (settle_verified params) (pure checksum_fail)
