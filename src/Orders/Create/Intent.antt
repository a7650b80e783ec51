-- ===== src/Orders/Create/Intent.antt =====
-- The part of `OrdersService.create` that takes a spending limit (a payment intent) of the user.
pub mod Laws
use clock.Base.{Bool, Option, if◌then◌else◌, ltb, none, not, some, ℕ, ◌&&◌, ◌==◌}
use clock.Db.{IntentStatus, PaymentIntent, is_active}
use clock.Db.Monad.{Error, M, gets, modify, ok, or_throw, pure, require, throw, ◌>>=◌, ◌>>◌}
use clock.Db.Rows.{count_where, find_where, update_where}
use clock.Orders.Create.Amount.{Amount, below}
use clock.Orders.Create.Input.{CreateOrderInput, method_of, vnpay}
use clock.Payments.Intents.{set_intent}
use clock.Text.{Text, text_eq}

abbrev pub is_intent : ℕ → PaymentIntent → Bool
is_intent id i = i.id == id

-- The limit is this user's, in force, high enough for the total, and for the same kind of payment.
unfoldable pub intent_fits : PaymentIntent → ℕ → Amount → Text → ℕ → Bool
intent_fits i user total method now =
    i.user_id == user
    && is_active i.status
    && ltb now i.expires_at
    && not (below i.max_usd total)
    && (if text_eq i.method vnpay then text_eq method vnpay else not (text_eq method vnpay))

abbrev pub is_active_intent : ℕ → PaymentIntent → Bool
is_active_intent id i = i.id == id && is_active i.status

-- ACTIVE to LOCKED, if no other request was faster; the count of the rows that were changed
unfoldable pub lock_intent : ℕ → M ℕ
lock_intent id db = (
  ok (count_where (is_active_intent id) db.intents),
  record db {
    intents = update_where (is_active_intent id) (set_intent IntentStatus.locked) db.intents;
  },
)

unfoldable pub take_intent : ℕ → ℕ → Amount → Text → ℕ → M (Unit {0})
unfolding intent_fits lock_intent
take_intent id user total method now = do
  intent ← or_throw (← gets (λ db. find_where (is_intent id) db.intents)) Error.bad_intent
  require (intent_fits intent user total method now) Error.bad_intent
  locked ← lock_intent intent.id
  require (not (locked == 0)) Error.intent_taken

abbrev pub take_for : Option ℕ → Bool → ℕ → Amount → Text → ℕ → M (Option ℕ)
take_for none via_agent id total method now = throw Error.agent_only
take_for (some user) via_agent id total method now = do
  require via_agent Error.agent_only
  take_intent id user total method now
  pure (some id)

abbrev pub consume_id : Option ℕ → Option ℕ → Bool → Amount → Text → ℕ → M (Option ℕ)
consume_id none user via_agent total method now = pure none
consume_id (some id) user via_agent total method now = take_for user via_agent id total method now

-- Only the agent, for a user who is logged in.
unfoldable pub consume_intent : CreateOrderInput → Option ℕ → Bool → Amount → ℕ → M (Option ℕ)
unfolding take_intent
consume_intent input user via_agent total now =
    consume_id input.payment_intent_id user via_agent total (method_of input) now

abbrev pub use_intent : ℕ → ℕ → PaymentIntent → PaymentIntent
use_intent order_id now i = record i {
  status = IntentStatus.used;
  order_id = some order_id;
  used_at = some now;
}

-- After the order exists: the limit is USED, for that order.
unfoldable pub close_intent : ℕ → ℕ → ℕ → M (Unit {0})
close_intent id order_id now =
    modify (λ db. record db {
      intents = update_where (is_intent id) (use_intent order_id now) db.intents;
    })
