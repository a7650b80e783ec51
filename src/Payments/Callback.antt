-- ===== src/Payments/Callback.antt =====
-- `PaymentsService.notifyPaid`, `handleReturn` and `handleIpn`: the gateway's two callbacks.
use clock.Base.{
  Bool, Option, [], false, if◌then◌else◌, is_empty, none, not, some, true, ℕ, ◌++◌, ◌∷◌,
}
use clock.Db.{Db, Order, OrderStatus, order_paid, status_eq, wrong_collection}
use clock.Db.Monad.{Error, M, Result, err, gets, ok, or_throw, pure, when, ◌>>=◌, ◌>>◌}
use clock.Db.Tables.{add_notice, find_by_code}
use clock.Invoices.{Provider, ensure_for_order}
use clock.Payments.Settle.{
  SettleOutcome, already_set, amount_mismatch, checksum_fail, payment_not_found, settle_payment,
  success, unpaid,
}
use clock.Text.{Text, codes}
use clock.Vnpay.{VnpayEnv, gateway_url}
use clock.Vnpay.Sign.{Params}

abbrev pub alert_if_unpaid : Order → M (Unit {0})
alert_if_unpaid order =
    when (not (status_eq order.status OrderStatus.paid))
      (add_notice (wrong_collection order.code order.status))

abbrev pub notify_order : Provider → ℕ → Option Order → M (Unit {0})
notify_order provider now none = pure tt
notify_order provider now (some order) = do
  alert_if_unpaid order
  add_notice (order_paid order.code order.total_vnd)
  invoice ← ensure_for_order provider order now
  pure tt

-- After money came in: the merchant's alert if the order is not PAID, the message and the invoice.
unfoldable pub notify_paid : Provider → Text → ℕ → M (Unit {0})
notify_paid provider code now = do found ← gets (find_by_code code); notify_order provider now found

-- `if (result.outcome === 'success' && code)`
abbrev pub after_settle : Provider → ℕ → SettleOutcome → M (Unit {0})
after_settle provider now (success []) = pure tt
after_settle provider now (success (c ∷ code)) = notify_paid provider (c ∷ code) now
after_settle provider now _ = pure tt

-- What the two callbacks take from outside.
pub record GatewayContext : Type 0 where
  pub hmac : Text → Text → Text
  pub env : VnpayEnv
  pub provider : Provider

-- The environment is read first, and throws in production without a merchant's code.
unfoldable pub settle_and_notify : GatewayContext → Params → ℕ → M SettleOutcome
settle_and_notify c params now = do
  url ← or_throw (gateway_url c.env) Error.vnpay_not_configured
  outcome ← settle_payment c.hmac c.env.hash_secret params
  after_settle c.provider now outcome
  pure outcome

-- The page of the order: its code, whether it shows as paid, and the reason if not.
pub data Landing : Type 0 where
  order_page : Text → Bool → Option Text → Landing
  -- `/checkout?paid=0`, after an exception
  checkout_page : Landing

abbrev pub landing_of : SettleOutcome → Landing
landing_of (success code) = order_page code true none
landing_of (already_set code settled) =
    if settled then order_page code true none else order_page code false (some (codes "already"))
landing_of (unpaid code) = order_page code false (some (codes "unpaid"))
landing_of payment_not_found = order_page [] false (some (codes "payment"))
landing_of amount_mismatch = order_page [] false (some (codes "amount"))
landing_of checksum_fail = order_page [] false (some (codes "checksum"))

abbrev pub return_of : Result SettleOutcome × Db → Landing × Db
return_of (ok outcome, db) = (landing_of outcome, db)
return_of (err e, db) = (checkout_page, db)

unfoldable pub handle_return : GatewayContext → Params → ℕ → Db → Landing × Db
handle_return c params now db = return_of (settle_and_notify c params now db)

-- The address of a landing page, with the signature that opens the order's details; `sign` is
-- `signOrderCode`, and `none` its throw without a secret.
unfoldable pub order_url : (Text → Option Text) → Text → Text → Bool → Option Text → Text
order_url sign frontend code paid reason =
    let flag = if paid then codes "1" else codes "0" in
    let why : Text = elim reason [ none ↦ [] | some r ↦ codes "&reason=" ++ r ] in
    let url = frontend ++ (codes "/orders/" ++ (code ++ (codes "?paid=" ++ (flag ++ why)))) in
    if is_empty code
    then url
    else elim (sign code) [ none ↦ url | some sig ↦ url ++ (codes "&sig=" ++ sig) ]

unfoldable pub landing_url : (Text → Option Text) → Text → Landing → Text
unfolding order_url
landing_url sign frontend (order_page code paid reason) = order_url sign frontend code paid reason
landing_url sign frontend checkout_page = frontend ++ codes "/checkout?paid=0"

-- RspCode and Message
abbrev pub rsp_of : SettleOutcome → Text × Text
rsp_of checksum_fail = (codes "97", codes "Invalid checksum")
rsp_of payment_not_found = (codes "01", codes "Order not found")
rsp_of amount_mismatch = (codes "04", codes "Invalid amount")
rsp_of (already_set code settled) = (codes "02", codes "Already confirmed")
rsp_of (success code) = (codes "00", codes "Confirm Success")
rsp_of (unpaid code) = (codes "00", codes "Confirm Success")

abbrev pub ipn_of : Result SettleOutcome × Db → (Text × Text) × Db
ipn_of (ok outcome, db) = (rsp_of outcome, db)
ipn_of (err e, db) = ((codes "99", codes "Unknown error"), db)

unfoldable pub handle_ipn : GatewayContext → Params → ℕ → Db → (Text × Text) × Db
handle_ipn c params now db = ipn_of (settle_and_notify c params now db)
