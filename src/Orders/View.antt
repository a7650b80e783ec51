-- ===== src/Orders/View.antt =====
-- The reads of backend/src/orders/orders.service.ts: `mine`, `byCode` and the signature that opens an
-- order's details, with `signOrderCode` for a parameter (`none` is its throw without a secret).
pub mod Laws
use clock.Base.{
  Bool, List, Number, Option, all, clamp, drop, false, filter, finite, if◌then◌else◌, infinity, leb,
  length, max, nan, neg_infinity, none, not, pos, pos_part, some, take, zero, ℕ, ◌&&◌, ◌*◌, ◌-◌,
  ◌==◌, ◌||◌,
}
use clock.Db.{Db, Order, OrderItem, OrderStatus}
use clock.Db.Monad.{Error, M, err, ok}
use clock.Db.Tables.{find_by_code, user_matches}
use clock.Orders.Cancel.{owns}
use clock.Text.{Text, text_eq}

abbrev pub is_hex : ℕ → Bool
is_hex c = (leb b'0' c && leb c b'9') || (leb b'a' c && leb c b'f')

-- `verifyOrderCode`
unfoldable pub verify_order_code : (Text → Option Text) → Text → Text → Bool
verify_order_code sign code sig =
    if not (length sig == 32 && all is_hex sig)
    then false
    else elim (sign code) [ none ↦ false | some s ↦ text_eq s sig ]

pub data OrderView : Type 0 where
  no_such_order : OrderView
  -- code and status
  summary : Text → OrderStatus → OrderView
  -- code, status, totals and lines
  details : Text → OrderStatus → ℕ → ℕ → List OrderItem → OrderView

abbrev pub view_of : Bool → Order → OrderView
view_of owned o =
    if owned
    then details o.code o.status o.total_usd o.total_vnd o.items
    else summary o.code o.status

unfoldable pub by_code :
    (Text → Option Text) → Text → Option Text → Option ℕ → Text → Db → OrderView
by_code sign code contact user sig db = elim (find_by_code code db) [
  | none ↦ no_such_order
  | some o ↦ view_of (owns o user contact || verify_order_code sign o.code sig) o
]

-- `Math.min(50, Math.max(1, Math.floor(limit) || 10))`
unfoldable pub safe_limit : Number → ℕ
safe_limit (finite (pos zero)) = 10
safe_limit (finite z) = clamp 1 50 z
safe_limit nan = 10
safe_limit infinity = 50
safe_limit neg_infinity = 1

-- `Math.max(1, Math.floor(page) || 1)`; an infinite page is `none`, which the query refuses.
unfoldable pub safe_page : Number → Option ℕ
safe_page (finite z) = some (max 1 (pos_part z))
safe_page infinity = none
safe_page _ = some 1

-- A user's orders, the newest first.
unfoldable pub orders_of : ℕ → Db → List Order
orders_of user db = filter (λ (o : Order). user_matches (some user) o.user_id) db.orders

pub record MinePage : Type 0 where
  pub items : List Order
  pub total : ℕ
  pub page : ℕ
  pub limit : ℕ

unfoldable pub mine : ℕ → Number → Number → M MinePage
mine user page limit db =
    let n = safe_limit limit in
    elim (safe_page page) [
      | none ↦ (err Error.database_error, db)
      | some k ↦ (
        ok (record {
          items = take n (drop ((k - 1) * n) (orders_of user db));
          total = length (orders_of user db);
          page = k;
          limit = n;
        }),
        db,
      )
    ]
