-- ===== src/Orders/Create/Replay.antt =====
-- The two ways in which `OrdersService.create` answers with an order that exists: the
-- Idempotency-Key, and a like order of the last three minutes.
use clock.Base.{
  Bool, List, Option, [], all, any, false, filter, if◌then◌else◌, is_some, leb, length, none, not,
  some, ℕ, ◌&&◌, ◌*◌, ◌+◌, ◌-◌, ◌==◌, ◌||◌, ◌∷◌,
}
use clock.Db.{IdempotencyKey, Order, OrderItem, OrderStatus, Payment, status_eq}
use clock.Db.Monad.{Error, M, gets, pure, require, throw, ◌>>=◌, ◌>>◌}
use clock.Db.Rows.{find_where}
use clock.Db.Tables.{find_order, user_matches}
use clock.Inventory.{real_slug}
use clock.Orders.Create.Amount.{Amount, num}
use clock.Orders.Create.Lines.{DraftLine, is_product_line}
use clock.Text.{Text, includes, text_eq, to_lower_case, trim}

pub record CreateOrderResult : Type 0 where
  pub order_id : ℕ
  pub code : Text
  pub total_usd : ℕ
  pub total_vnd : ℕ
  pub paid_usd : ℕ
  pub paid_vnd : ℕ
  -- what is left to pay, never below 0 since no more is paid than the total
  pub remaining_usd : ℕ
  pub remaining_vnd : ℕ
  pub status : OrderStatus
  pub pending_review : Bool
  pub pay_url : Option Text

abbrev pub lacks_product : Option Text → Bool
lacks_product slug = not (is_some (real_slug slug))

-- `toCreateResult`, of an order and the slugs of its lines
unfoldable pub to_create_result : Order → List (Option Text) → Option Text → CreateOrderResult
to_create_result o slugs pay_url = record {
  order_id = o.id;
  code = o.code;
  total_usd = o.total_usd;
  total_vnd = o.total_vnd;
  paid_usd = o.paid_usd;
  paid_vnd = o.paid_vnd;
  remaining_usd = o.total_usd - o.paid_usd;
  remaining_vnd = o.total_vnd - o.paid_vnd;
  status = o.status;
  pending_review = any lacks_product slugs;
  pay_url = pay_url;
}

abbrev pub item_slugs : List OrderItem → List (Option Text)
item_slugs [] = []
item_slugs (i ∷ items) = i.product_slug ∷ item_slugs items

abbrev pub result_of : Order → CreateOrderResult
result_of o = to_create_result o (item_slugs o.items) none

abbrev pub has_key : Text → IdempotencyKey → Bool
has_key key k = text_eq k.key key

abbrev pub hash_matches : Option Text → Text → Bool
hash_matches none hash = false
hash_matches (some stored) hash = text_eq stored hash

-- A key's owner: the user, or for a guest the hash of the contact.
unfoldable pub owns_key : IdempotencyKey → Option ℕ → Text → Bool
owns_key k user hash = elim k.user_id [
  | some owner ↦ user_matches user (some owner)
  | none ↦ not (is_some user) && hash_matches k.contact_hash hash
]

-- `contactHash`, with SHA-256 for a parameter
unfoldable pub contact_hash : (Text → Text) → Text → Text
contact_hash sha256 contact = sha256 (to_lower_case (trim contact))

abbrev pub replay_of : Option Order → M (Option CreateOrderResult)
replay_of none = pure none
replay_of (some o) = pure (some (result_of o))

abbrev pub replay_found : Option IdempotencyKey → Option ℕ → Text → M (Option CreateOrderResult)
replay_found none user hash = pure none
replay_found (some k) user hash = do
  require (owns_key k user hash) Error.key_conflict
  order ← gets (find_order k.order_id)
  replay_of order

unfoldable pub replay_idempotent : Text → Option ℕ → Text → M (Option CreateOrderResult)
replay_idempotent key user hash db =
    replay_found (find_where (has_key key) db.idempotency_keys) user hash db

abbrev pub recent_ms : ℕ
recent_ms = 3 * 60 * 1000

-- Whether a line meets `every: { productSlug: { in: slugs } }`; what the database answers for a line
-- without a product is a parameter.
abbrev pub slug_listed : Bool → List Text → OrderItem → Bool
slug_listed null_listed slugs i = elim i.product_slug [
  | none ↦ null_listed
  | some s ↦ includes slugs s
]

-- The conditions of the query for a like order.
unfoldable pub is_like : Bool → ℕ → List Text → ℕ → Text → List Payment → ℕ → Order → Bool
is_like null_listed user slugs total method payments now o =
    user_matches (some user) o.user_id
    && (status_eq o.status OrderStatus.pending || status_eq o.status OrderStatus.confirmed)
    && leb now (o.created_at + recent_ms)
    && o.total_usd == total
    && any (λ (p : Payment). p.order_id == o.id && text_eq p.method method) payments
    && all (slug_listed null_listed slugs) o.items

-- The newest like order, if it has as many lines as the new one has products.
abbrev pub same_count : Option Order → ℕ → Option Order
same_count none n = none
same_count (some o) n = if length o.items == n then some o else none

-- A total that is no number is refused by the query.
unfoldable pub find_like :
    Bool → Option ℕ → List Text → Amount → Text → ℕ → List DraftLine → M (Option Order)
unfolding is_like
find_like null_listed none slugs total method now lines = pure none
find_like null_listed (some user) slugs (num total) method now lines = gets (λ db.
    same_count (find_where (is_like null_listed user slugs total method db.payments now) db.orders)
      (length (filter is_product_line lines)))
find_like null_listed (some user) slugs total method now lines = throw Error.database_error
