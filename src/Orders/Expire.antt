-- ===== src/Orders/Expire.antt =====
-- `OrderExpireService.expirePending`: the hourly job that cancels the orders nobody paid.
pub mod Counts
pub mod Laws
use clock.Base.{
  Bool, List, Number, Option, [], false, filter, finite, ltb, none, pos, some, suc, take, true, ℕ,
  ◌&&◌, ◌*◌, ◌+◌, ◌==◌, ◌∷◌,
}
use clock.Db.{IdempotencyKey, Order, OrderStatus, status_eq}
use clock.Db.Monad.{
  Error, M, Result, branch, gets, modify, ok, pure, require, transaction, ◌>>=◌, ◌>>◌,
}
use clock.Db.Rows.{delete_where}
use clock.Db.Tables.{create_event, move_order, restock_lines}
use clock.Orders.Cancel.{cancelled_event}
use clock.Text.{codes}

-- `ttlHours`: the environment's value as a number, `none` if it is not set.
unfoldable pub ttl_hours : Option Number → ℕ
ttl_hours (some (finite (pos (suc n)))) = suc n
ttl_hours _ = 6

abbrev pub hour_ms : ℕ
hour_ms = 3_600_000

-- The rest of the transaction, once the order is cancelled.
unfoldable pub expire_won : Order → M Bool
expire_won order = do
  restock_lines order.items
  create_event (cancelled_event order.id none (codes "Hết hạn thanh toán (tự động)"))
  pure true

-- The transaction for one stale order; `false` if the order has left PENDING since it was read.
unfoldable pub expire_tx : Order → M Bool
unfolding expire_won
expire_tx order = do
  won ← move_order order.id OrderStatus.pending OrderStatus.cancelled
  branch (won == 0) (pure false) (expire_won order)

-- `if (won) expired++`; an error is logged and the loop goes on.
abbrev pub count_won : Result Bool → ℕ → ℕ
count_won (ok true) n = n + 1
count_won _ n = n

unfoldable pub expire_all : List Order → ℕ → M ℕ
expire_all [] expired db = (ok expired, db)
expire_all (o ∷ stale) expired db =
    let (r, db') = transaction (expire_tx o) db in expire_all stale (count_won r expired) db'

-- An old Idempotency-Key: it replays nothing any more.
abbrev pub is_old_key : ℕ → IdempotencyKey → Bool
is_old_key now k = ltb (k.created_at + 24 * hour_ms) now

abbrev pub is_stale : ℕ → ℕ → Order → Bool
is_stale hours now o =
    status_eq o.status OrderStatus.pending && ltb (o.created_at + hours * hour_ms) now

-- At most 100 orders in one round. The query for them may fail, and stands outside the code's `try`;
-- `queried` says whether it is answered.
unfoldable pub expire_pending : Bool → Option Number → ℕ → M ℕ
expire_pending queried ttl now = do
  modify (λ db. record db { idempotency_keys = delete_where (is_old_key now) db.idempotency_keys })
  require queried Error.database_error
  stale ← gets (λ db. take 100 (filter (is_stale (ttl_hours ttl) now) db.orders))
  expire_all stale 0
