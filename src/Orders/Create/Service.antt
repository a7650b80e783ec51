-- ===== src/Orders/Create/Service.antt =====
-- `OrdersService.create`, from the request to the response.
use clock.Base.{
  Bool, List, Option, [], any, if◌then◌else◌, is_some, leb, none, not, some, ℕ, ◌&&◌, ◌+◌, ◌||◌,
  ◌∷◌,
}
use clock.Db.{Db, IdempotencyKey, Order, OrderItem, order_created, review_order}
use clock.Db.Monad.{Error, M, Result, err, gets, ok, pure, require, when, ◌>>=◌, ◌>>◌}
use clock.Db.Tables.{add_notice}
use clock.Orders.Create.Amount.{Amount, fifth, is_zero, num}
use clock.Orders.Create.Input.{
  CreateOrderInput, CreateOrderOpts, ShopEnv, cart_lines, check_method, check_person, deposit,
  method_of, normalize_idem_key, trimmed, vnpay,
}
use clock.Orders.Create.Intent.{close_intent, consume_intent}
use clock.Orders.Create.Lines.{
  DraftLine, draft_lines, has_custom, rows_for, slugs_of, total_usd_of, total_vnd_of,
}
use clock.Orders.Create.Place.{NewOrder, place_order}
use clock.Orders.Create.Replay.{
  CreateOrderResult, contact_hash, find_like, has_key, item_slugs, lacks_product, replay_idempotent,
  result_of, to_create_result,
}
use clock.Payments.PayUrl.{LinkContext, create_pay_url_for_order}
use clock.Text.{Text, text_eq}

-- What a call takes from outside, beside the request.
pub record CreateContext : Type 0 where
  pub env : ShopEnv
  pub sha256 : Text → Text
  -- the random code of each attempt
  pub code_at : ℕ → Text
  -- how the database's `every` takes a line without a product
  pub null_listed : Bool
  -- what the risk check answers, if it is asked
  pub is_risky : Bool
  pub link : LinkContext
  pub now : ℕ

abbrev pub simulated_order : Text → Bool → Bool
simulated_order method custom = not (text_eq method vnpay) && not custom

abbrev pub paid_part : Text → Bool → Amount → Amount
paid_part method simulated total =
    if simulated then (if text_eq method deposit then fifth total else total) else num 0

abbrev pub new_order : CreateOrderInput → Option ℕ → List DraftLine → Bool → NewOrder
new_order input user lines custom =
    let method = method_of input in
    let simulated = simulated_order method custom in
    let usd = total_usd_of lines in
    let vnd = total_vnd_of lines in
    record {
      user_id = user;
      customer_name = trimmed input.customer_name;
      contact = trimmed input.contact;
      address = trimmed input.address;
      slot = elim input.slot [ none ↦ none | some [] ↦ none | some (c ∷ s) ↦ some (c ∷ s) ];
      method = method;
      simulated = simulated;
      total_usd = usd;
      total_vnd = vnd;
      paid_usd = paid_part method simulated usd;
      paid_vnd = paid_part method simulated vnd;
      lines = lines;
    }

abbrev pub of_result : {A : Type 0} → Result A → M A
of_result r db = (r, db)

-- The row that lets a retry find the order.
abbrev pub key_row : CreateContext → Text → Option ℕ → Text → Order → IdempotencyKey
key_row c key user contact order = record {
  key = key;
  user_id = user;
  contact_hash = if is_some user then none else some (contact_hash c.sha256 contact);
  order_id = order.id;
  created_at = c.now;
}

-- The key is stored; if another request stored it first, that one's order is the answer.
unfoldable pub store_key :
    CreateContext → Option Text → Option ℕ → Text → Order → M (Option CreateOrderResult)
unfolding replay_idempotent
store_key c none user contact order db = (ok none, db)
store_key c (some key) user contact order db =
    if any (has_key key) db.idempotency_keys
    then replay_idempotent key user (contact_hash c.sha256 contact) db
    else (
      ok none,
      record db { idempotency_keys = key_row c key user contact order ∷ db.idempotency_keys },
    )

unfoldable pub item_count : List OrderItem → ℕ
item_count [] = 0
item_count (i ∷ items) = i.qty + item_count items

-- A guest's order from 5000 dollars, a custom line, or ten pieces and more
abbrev pub worth_check : Option ℕ → Order → Bool
worth_check user order =
    (not (is_some user) && leb 5000 order.total_usd)
    || any lacks_product (item_slugs order.items)
    || leb 10 (item_count order.items)

-- The link of an intent's order; an error leaves the order without one.
abbrev pub link_or_none : Result Text × Db → Result (Option Text) × Db
link_or_none (ok url, db) = (ok (some url), db)
link_or_none (err e, db) = (ok none, db)

unfoldable pub finish_intent : CreateContext → Option ℕ → Order → Option ℕ → M (Option Text)
unfolding close_intent create_pay_url_for_order
finish_intent c none order user = pure none
finish_intent c (some id) order user = do
  close_intent id order.id c.now
  λ db. link_or_none (create_pay_url_for_order c.link order.id user db)

-- The messages and the intent.
unfoldable pub announce : CreateContext → Option ℕ → Option ℕ → Order → M CreateOrderResult
unfolding finish_intent item_count
announce c user intent order = do
  add_notice (order_created order.code)
  when (worth_check user order && c.is_risky) (add_notice (review_order order.code))
  pay_url ← finish_intent c intent order user
  pure (to_create_result order (item_slugs order.items) pay_url)

abbrev pub replay_or : Option CreateOrderResult → M CreateOrderResult → M CreateOrderResult
replay_or replay next db = elim replay [ none ↦ next db | some r ↦ (ok r, db) ]

-- After the transaction: the key, the messages, the intent.
unfoldable pub finish_order :
    CreateContext → Option Text → Option ℕ → Text → Option ℕ → Order → M CreateOrderResult
unfolding store_key announce
finish_order c key user contact intent order = do
  replay ← store_key c key user contact order
  replay_or replay (announce c user intent order)

-- A like order is the answer; else the order is placed.
abbrev pub place_or_like :
    CreateContext
    → Option Text
    → Option ℕ
    → Text
    → Option ℕ
    → NewOrder
    → Option Order
    → M CreateOrderResult
place_or_like c key user contact intent n (some like) = pure (result_of like)
place_or_like c key user contact intent n none = do
  order ← place_order 6 n c.code_at c.now
  finish_order c key user contact intent order

-- From the total on, with the lines priced.
unfoldable pub checkout :
    CreateContext
    → CreateOrderInput
    → Option ℕ
    → Bool
    → Option Text
    → List Text
    → Bool
    → List DraftLine
    → M CreateOrderResult
unfolding consume_intent find_like place_order finish_order
checkout c input user via_agent key slugs custom lines = do
  let total = total_usd_of lines
  require (not (is_zero total)) Error.bad_total
  intent ← consume_intent input user via_agent total c.now
  like ← find_like c.null_listed user slugs total (method_of input) c.now lines
  place_or_like c key user (trimmed input.contact) intent (new_order input user lines custom) like

-- From the method's check on.
unfoldable pub create_new :
    CreateContext → CreateOrderInput → Option ℕ → Bool → Option Text → M CreateOrderResult
unfolding check_method slugs_of rows_for draft_lines has_custom checkout
create_new c input user via_agent key = do
  check_method c.env input
  let items = cart_lines input
  let slugs = slugs_of items
  rows ← gets (λ db. rows_for slugs db.products)
  lines ← of_result (draft_lines rows items)
  checkout c input user via_agent key slugs (has_custom rows items) lines

abbrev pub replay_first :
    CreateContext → Option Text → Option ℕ → Text → M (Option CreateOrderResult)
replay_first c none user contact = pure none
replay_first c (some key) user contact = replay_idempotent key user (contact_hash c.sha256 contact)

unfoldable pub create :
    CreateContext → CreateOrderInput → Option ℕ → CreateOrderOpts → M CreateOrderResult
unfolding check_person normalize_idem_key create_new
create c input user opts = do
  check_person input
  let key = normalize_idem_key opts.idempotency_key
  replay ← replay_first c key user (trimmed input.contact)
  elim replay [ some r ↦ pure r | none ↦ create_new c input user opts.via_agent key ]
