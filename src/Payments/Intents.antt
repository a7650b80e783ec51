-- ===== src/Payments/Intents.antt =====
-- The spending limits that a user approves for the agent: `createIntent`, `listIntents`,
-- `revokeIntent`.
pub mod Laws
use clock.Base.{
  Bool, List, Number, Option, clamp, filter, finite, get_or, if◌then◌else◌, infinity, leb, ltb, nan,
  neg_infinity, none, not, pos_part, some, take, ℕ, ◌&&◌, ◌*◌, ◌+◌, ◌==◌, ◌∷◌,
}
use clock.Db.{Db, IntentStatus, PaymentIntent, is_active}
use clock.Db.Monad.{Error, M, gets, modify, or_throw, pure, require, ◌>>=◌, ◌>>◌}
use clock.Db.Rows.{count_where, update_where}
use clock.Orders.Create.Amount.{is_zero}
use clock.Text.{Text, codes, text_eq}

abbrev pub intent_max_usd : ℕ
intent_max_usd = 200_000

abbrev pub intent_ttl_min : ℕ
intent_ttl_min = 15

-- `Math.floor(Number(x) || 0)`; an infinite amount is beyond every limit.
abbrev pub limit_of : Number → Option ℕ
limit_of (finite z) = some (pos_part z)
limit_of infinity = none
limit_of _ = some 0

-- `Math.min(60, Math.max(5, Math.floor(Number(x) || 15)))`; only the number 0 and NaN are falsy,
-- and a fraction between 0 and 1 is floored to 0 all the same.
abbrev pub ttl_of : Bool → Number → ℕ
ttl_of is_zero (finite z) = if is_zero then intent_ttl_min else clamp 5 60 z
ttl_of is_zero nan = intent_ttl_min
ttl_of is_zero infinity = 60
ttl_of is_zero neg_infinity = 5

pub record IntentInput : Type 0 where
  pub max_usd : Number
  pub method : Option Text
  pub ttl_minutes : Number
  -- whether `ttlMinutes` is the number 0
  pub ttl_is_zero : Bool

abbrev pub is_active_of : ℕ → PaymentIntent → Bool
is_active_of user i = i.user_id == user && is_active i.status

abbrev pub set_intent : IntentStatus → PaymentIntent → PaymentIntent
set_intent status i = record i { status = status }

abbrev pub new_intent : ℕ → ℕ → ℕ → ℕ → PaymentIntent
new_intent user max_usd expires_at id = record {
  id = id;
  user_id = user;
  max_usd = max_usd;
  method = codes "vnpay";
  status = IntentStatus.active;
  order_id = none;
  used_at = none;
  expires_at = expires_at;
}

abbrev pub within_limit : ℕ → Bool
within_limit n = ltb 0 n && leb n intent_max_usd

-- A new limit revokes the user's old ones.
unfoldable pub create_intent : ℕ → IntentInput → ℕ → M PaymentIntent
create_intent user body now = do
  max_usd ← or_throw (limit_of body.max_usd) Error.bad_limit
  require (within_limit max_usd) Error.bad_limit
  require (text_eq (get_or body.method (codes "vnpay")) (codes "vnpay")) Error.vnpay_only
  let expires_at = now + ttl_of body.ttl_is_zero body.ttl_minutes * 60 * 1000
  modify (λ db. record db {
    intents = update_where (is_active_of user) (set_intent IntentStatus.revoked) db.intents;
  })
  id ← gets (λ db. db.next_id)
  modify (λ db. record db {
    intents = new_intent user max_usd expires_at id ∷ db.intents;
    next_id = db.next_id + 1;
  })
  pure (new_intent user max_usd expires_at id)

-- The newest five that are in force.
unfoldable pub list_intents : ℕ → ℕ → Db → List PaymentIntent
list_intents user now db =
    take 5 (filter (λ (i : PaymentIntent). is_active_of user i && ltb now i.expires_at) db.intents)

abbrev pub is_active_id : ℕ → ℕ → PaymentIntent → Bool
is_active_id id user i = i.id == id && (i.user_id == user && is_active i.status)

unfoldable pub revoke_intent : ℕ → ℕ → M (Unit {0})
revoke_intent user id = do
  won ← gets (λ db. count_where (is_active_id id user) db.intents)
  modify (λ db. record db {
    intents = update_where (is_active_id id user) (set_intent IntentStatus.revoked) db.intents;
  })
  require (not (won == 0)) Error.no_intent
