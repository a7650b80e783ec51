-- ===== src/Tests/Witnesses.antt =====
-- The theorems at concrete inputs of the sample shop.
use clock.Admin.Orders.{UpdateOpts, parse_status, update_status}
use clock.Admin.Orders.Laws.{update_answer, update_status_lem}
use clock.Base.{
  List, [], arith, false, finite, if◌then◌else◌, inl, nan, none, pos, refl, some, true, ℕ, ◌++◌,
  ◌+◌, ◌<◌, ◌↔◌, ◌∷◌, ◌≡◌, ◌≤◌,
}
use clock.Cart.{CartInput, cart_line, normalize_line}
use clock.Cart.Laws.{HasUniqueRows}
use clock.Db.{CartItem, Db, IntentStatus, Invoice, Order, OrderStatus, PaymentIntent, Product}
use clock.Db.Monad.{Error, err, ok, transaction}
use clock.Db.Rows.{find_where, update_where}
use clock.Db.Tables.{find_order, set_status}
use clock.Interleaving.Cancelled.{Reach-cancel}
use clock.Interleaving.Orders.{Keys, WasRead}
use clock.Interleaving.Steps.{
  Reach, Reach-WasRead, Reach-pieces, by_cancel, by_expire, reach_start, reach_step,
}
use clock.Inventory.{reserve}
use clock.Inventory.Measures.{pieces, qty_of, rows_of, stock_of}
use clock.Inventory.Reserve.{reserve_iff}
use clock.Invoices.{ensure_for_order, new_invoice}
use clock.Invoices.Laws.{InvoiceRequest, ensure_all, ensure_for_order-once}
use clock.Orders.Cancel.{cancel, cancel_tx, owns}
use clock.Orders.Cancel.Laws.{cancel_lem, cancelled_state}
use clock.Orders.Create.Amount.{below, num}
use clock.Orders.Create.Input.{vnpay}
use clock.Orders.Create.Intent.{intent_fits, is_active_intent, is_intent, lock_intent, take_intent}
use clock.Orders.Create.Intent.Laws.{take_intent-fits, take_intent-once}
use clock.Orders.Create.Lines.{DraftLine, draft_lines}
use clock.Orders.Create.Lines.Laws.{draft_lines-reprice, reprice}
use clock.Orders.Create.Place.{NewOrder, place_order}
use clock.Orders.Create.Place.Laws.{Placement, place_order-Placement}
use clock.Orders.Create.Service.{new_order}
use clock.Orders.Expire.{expire_pending, expire_tx}
use clock.Orders.Expire.Counts.{HasKeys, expire_pending_counts, pending_count}
use clock.Orders.Expire.Laws.{expire_pending_young}
use clock.Payments.Intents.{IntentInput, create_intent, new_intent, set_intent}
use clock.Payments.Settle.{
  already_set, amount_ok, checksum_fail, find_payment, settle_atomically, settle_found,
  settle_payment, settle_pending,
}
use clock.Payments.Settle.Laws.{
  order_of, outcome_of, settle_answer, settle_payment_lem, settled_state, txn_ref_param,
}
use clock.Payments.Settle.Once.{Settled, settle_once, settle_payment-Settled}
use clock.Phone.{
  is_vn_mobile, localize, mobile_of, normalize_vn_phone, same_contact, strip_separators,
}
use clock.Samples.{
  empty_shop, sample_intent, sample_order, sample_payment, shop_with, steel_item, steel_line,
  steel_watch, toy_context, toy_hmac, toy_request,
}
use clock.Text.{
  Text, codes, is_space, lower, starts_with, text_eq, text_eq_iff, to_lower_case, trim, trim_end,
  trim_start,
}
use clock.Vnpay.Sign.{Params, sign_params, verify_return}
use clock.Vnpay.Sign.Laws.{verify_return-sign_params}

abbrev pending_shop : Db
pending_shop = shop_with OrderStatus.pending

abbrev waiting : Order
waiting = sample_order 1 OrderStatus.pending

pending_shop-Keys : Keys pending_shop
pending_shop-Keys = record { once = λ id. ground arith; unused = λ id beyond. ground arith }

-- A customer cancels, then the job tries to expire the order that it had read.
two_requests :
    Reach pending_shop
      (transaction (expire_tx waiting) (transaction (cancel_tx waiting (some 7)) pending_shop).1).1
unfolding cancel_tx
two_requests =
    reach_step (reach_step reach_start (by_cancel waiting (some 7) (waiting, refl, refl) refl))
      (by_expire waiting (set_status OrderStatus.cancelled waiting, refl, refl) refl)

steel_row : rows_of (codes "steel") pending_shop.products ≡ 1
unfolding rows_of text_eq
steel_row = refl

Reach-pieces_example :
    pieces
      (codes "steel")
      (transaction (expire_tx waiting) (transaction (cancel_tx waiting (some 7)) pending_shop).1).1
    ≡ pieces (codes "steel") pending_shop
Reach-pieces_example = Reach-pieces (codes "steel") two_requests pending_shop-Keys steel_row

Reach-WasRead_example :
    let late =
      (transaction
        (expire_tx waiting)
        (transaction (cancel_tx waiting (some 7)) pending_shop).1).1 in
    Keys late × WasRead waiting late
Reach-WasRead_example = Reach-WasRead waiting two_requests pending_shop-Keys (waiting, refl, refl)

abbrev callback : Params
callback =
    (codes "vnp_Amount", codes "5040000000")
    ∷ (codes "vnp_ResponseCode", codes "00")
    ∷ (codes "vnp_TxnRef", codes "AC-1-x")
    ∷ (
      codes "vnp_SecureHash",
      codes "s3cret-vnp_Amount=5040000000&vnp_ResponseCode=00&vnp_TxnRef=AC-1-x",
    )
    ∷ []

callback_settles :
    settle_payment toy_hmac (codes "s3cret") callback pending_shop
    ≡ (ok (outcome_of true (codes "AC-1")), settled_state sample_payment (some 7) true pending_shop)
unfolding settle_payment verify_return to_lower_case lower amount_ok settle_found settle_pending
    settle_atomically
callback_settles = refl

settle_once_example :
    settle_payment toy_hmac
      (codes "s3cret")
      callback
      (settled_state sample_payment (some 7) true pending_shop)
    ≡ (
      ok (already_set (codes "AC-1") true),
      settled_state sample_payment (some 7) true pending_shop,
    )
settle_once_example =
    settle_once toy_hmac (codes "s3cret") callback pending_shop
      (settled_state sample_payment (some 7) true pending_shop) true (codes "AC-1") callback_settles

settle_payment-Settled_example :
    (verify_return toy_hmac (codes "s3cret") callback ≡ true)
    × Settled callback pending_shop true
        (codes "AC-1")
        (settled_state sample_payment (some 7) true pending_shop)
settle_payment-Settled_example =
    settle_payment-Settled toy_hmac (codes "s3cret") callback pending_shop
      (settled_state sample_payment (some 7) true pending_shop) true (codes "AC-1") callback_settles

settle_payment_lem_example : settle_payment toy_hmac (codes "s3cret") callback pending_shop ≡ (
    if verify_return toy_hmac (codes "s3cret") callback
    then settle_answer callback
        (find_payment (txn_ref_param callback) pending_shop)
        (order_of (find_payment (txn_ref_param callback) pending_shop) pending_shop)
        pending_shop
    else (ok checksum_fail, pending_shop))
settle_payment_lem_example = settle_payment_lem toy_hmac (codes "s3cret") callback pending_shop

cancel_lem_example :
    cancel 1 (some 7) none pending_shop
    ≡ (ok (1, OrderStatus.cancelled), cancelled_state waiting (some 7) pending_shop)
unfolding owns
cancel_lem_example = cancel_lem 1 (some 7) none pending_shop

abbrev cancelled_shop : Db
cancelled_shop = cancelled_state waiting (some 7) pending_shop

cancelled_shop-Keys : Keys cancelled_shop
cancelled_shop-Keys = record { once = λ id. ground arith; unused = λ id beyond. ground arith }

-- The job tries to expire the order that it had read before.
abbrev expired_shop : Db
expired_shop = (transaction (expire_tx waiting) cancelled_shop).1

late_expiry : Reach cancelled_shop expired_shop
late_expiry =
    reach_step reach_start
      (by_expire waiting (set_status OrderStatus.cancelled waiting, refl, refl) refl)

Reach-cancel_example :
    cancel 1 none (some (codes "0901234567")) expired_shop ≡ (err Error.not_pending, expired_shop)
unfolding owns
Reach-cancel_example =
    Reach-cancel 1 (some 7) none none (some (codes "0901234567")) pending_shop cancelled_shop
      expired_shop (1, OrderStatus.cancelled) (cancel_lem 1 (some 7) none pending_shop)
      cancelled_shop-Keys late_expiry

abbrev by_hand : UpdateOpts
by_hand = record { refund_ref = none; payment_ref = some (codes "R-77"); note = none }

update_status_lem_example :
    update_status 1 (codes "PAID") (some 9) by_hand pending_shop
    ≡ update_answer (parse_status (codes "PAID")) (some waiting) (some 9) by_hand pending_shop
update_status_lem_example = update_status_lem 1 (codes "PAID") (some 9) by_hand pending_shop

enough_steel : (s : Text) → qty_of s (steel_line 2 ∷ []) ≤ stock_of s empty_shop.products
unfolding qty_of stock_of
enough_steel s = ground arith

one_row_each : (s : Text) → rows_of s empty_shop.products ≤ 1
unfolding rows_of text_eq
one_row_each s = ground (
  arith,
  text_eq_iff (codes "steel") s,
  text_eq_iff (codes "gold") s,
  text_eq_iff (codes "hidden") s,
)

reserve_iff_example :
    ((left : List Product) × (reserve (steel_line 2 ∷ []) empty_shop.products ≡ some left))
    ↔ ((s : Text) → qty_of s (steel_line 2 ∷ []) ≤ stock_of s empty_shop.products)
reserve_iff_example =
    reserve_iff (steel_line 2 ∷ []) empty_shop.products (omega arith, tt) one_row_each

pending_keys : HasKeys pending_shop
pending_keys id = ground arith

-- An order that was paid long ago
abbrev paid_shop : Db
paid_shop = shop_with OrderStatus.paid

expire_pending_young_example :
    find_order 1 (expire_pending true none 900_000_000 paid_shop).1
    ≡ some (sample_order 1 OrderStatus.paid)
expire_pending_young_example =
    expire_pending_young true none 900_000_000 1 paid_shop (sample_order 1 OrderStatus.paid) refl
      (ground arith) (inl (ground arith))

expire_pending_counts_example :
    ((n : ℕ) × ((expire_pending true none 900_000_000 pending_shop).0 ≡ ok n)
      × (n ≤ 100)
      × (pending_count (expire_pending true none 900_000_000 pending_shop).1 + n
          ≡ pending_count pending_shop))
    × ((expire_pending false none 900_000_000 pending_shop).0 ≡ err Error.database_error)
    × ((expire_pending false none 900_000_000 pending_shop).1.orders ≡ pending_shop.orders)
expire_pending_counts_example = expire_pending_counts none 900_000_000 pending_shop pending_keys

local_rest : is_vn_mobile (codes "0901234567") ≡ true
unfolding is_vn_mobile
local_rest = refl

same_number : same_contact (codes "+84901234567") (codes "0901234567") ≡ true
unfolding same_contact trim trim_start trim_end is_space strip_separators localize is_vn_mobile
    mobile_of normalize_vn_phone starts_with text_eq
same_number = refl

same_number_back : same_contact (codes "0901234567") (codes "84901234567") ≡ true
unfolding same_contact trim trim_start trim_end is_space strip_separators localize is_vn_mobile
    mobile_of normalize_vn_phone starts_with text_eq
same_number_back = refl

abbrev steel_draft : DraftLine
steel_draft = record {
  product_slug = some (codes "steel");
  name = codes "Steel";
  price_usd = num 1000;
  price_vnd = num 25_200_000;
  image = [];
  strap = codes "Tiêu chuẩn Atelier";
  engraving = none;
  qty = num 2;
}

abbrev sample_new : NewOrder
sample_new = new_order (toy_request vnpay) (some 7) (steel_draft ∷ []) false

place_order-Placement_example :
    (k : ℕ) × (k ≤ 6)
    × Placement sample_new
        (toy_context.code_at k)
        2000
        empty_shop
        (place_order 6 sample_new toy_context.code_at 2000 empty_shop)
place_order-Placement_example =
    place_order-Placement 6 sample_new toy_context.code_at 2000 empty_shop

abbrev signed_params : Params
signed_params = (codes "vnp_Amount", codes "100") ∷ []

verify_return-sign_params_example :
    (verify_return toy_hmac
        (codes "s3cret")
        (signed_params ++ ((codes "vnp_SecureHash", codes "S3CRET-VNP_AMOUNT=100") ∷ []))
      ≡ true)
    ↔ (to_lower_case (codes "S3CRET-VNP_AMOUNT=100")
        ≡ to_lower_case (sign_params toy_hmac signed_params (codes "s3cret")).1)
unfolding text_eq
verify_return-sign_params_example =
    verify_return-sign_params toy_hmac (codes "s3cret") signed_params
      (codes "S3CRET-VNP_AMOUNT=100") refl refl

abbrev agent_shop : Db
agent_shop = record empty_shop { intents = sample_intent ∷ [] }

abbrev locked_shop : Db
locked_shop = record empty_shop {
  intents = record sample_intent { status = IntentStatus.locked } ∷ [];
}

agent_takes : take_intent 5 7 (num 2000) vnpay 2000 agent_shop ≡ (ok tt, locked_shop)
unfolding take_intent intent_fits lock_intent text_eq
agent_takes = refl

take_intent-fits_example :
    (i : PaymentIntent) × (find_where (is_intent 5) agent_shop.intents ≡ some i)
    × (i.user_id ≡ 7)
    × (i.status ≡ IntentStatus.active)
    × (2000 < i.expires_at)
    × (below i.max_usd (num 2000) ≡ false)
    × (locked_shop ≡ record agent_shop {
      intents =
          update_where (is_active_intent i.id) (set_intent IntentStatus.locked) agent_shop.intents;
    })
take_intent-fits_example =
    take_intent-fits 5 7 (num 2000) vnpay 2000 agent_shop locked_shop agent_takes

take_intent-once_example :
    take_intent 5 7 (num 10) vnpay 3000 locked_shop ≡ (err Error.bad_intent, locked_shop)
take_intent-once_example =
    take_intent-once 5 7 7 (num 2000) (num 10) vnpay vnpay 2000 3000 agent_shop locked_shop
      agent_takes

abbrev asked_limit : IntentInput
asked_limit = record {
  max_usd = finite (pos 300);
  method = none;
  ttl_minutes = nan;
  ttl_is_zero = false;
}

abbrev new_limit : PaymentIntent
new_limit = new_intent 7 300 902_000 10

abbrev limited_shop : Db
limited_shop = record empty_shop {
  intents = new_limit ∷ record sample_intent { status = IntentStatus.revoked } ∷ [];
  next_id = 11;
}

limit_given : create_intent 7 asked_limit 2000 agent_shop ≡ (ok new_limit, limited_shop)
unfolding create_intent text_eq
limit_given = refl

draft_lines-reprice_example :
    draft_lines empty_shop.products (reprice (λ i. nan) (steel_item ∷ []))
    ≡ draft_lines empty_shop.products (steel_item ∷ [])
unfolding text_eq
draft_lines-reprice_example =
    draft_lines-reprice (λ i. nan) empty_shop.products (steel_item ∷ []) refl

abbrev guest_line : CartInput
guest_line = record {
  slug = some (codes "steel");
  name = some (codes "Steel");
  image = none;
  strap = none;
  engraving = none;
  qty = some (finite (pos 2));
}

no_rows-HasUniqueRows : HasUniqueRows []
no_rows-HasUniqueRows user slug strap = omega arith

abbrev steel_row_of_7 : CartItem
steel_row_of_7 = cart_line 7 guest_line (codes "Steel") steel_watch

guest_line_fits : normalize_line 7 guest_line (steel_watch ∷ []) ≡ some steel_row_of_7
unfolding normalize_line text_eq trim trim_start trim_end is_space
guest_line_fits = refl

abbrev invoiced_shop : Db
invoiced_shop = record empty_shop { invoices = new_invoice waiting 10 ∷ []; next_id = 11 }

invoice_made :
    ensure_for_order none waiting 5 empty_shop ≡ (ok (new_invoice waiting 10), invoiced_shop)
unfolding ensure_for_order
invoice_made = refl

-- A request for another order in between
abbrev other_request : InvoiceRequest
other_request = record {
  provider = some (λ i. some (some (codes "INV-2"), none));
  order = record waiting { code = codes "AC-2" };
  now = 5;
}

ensure_for_order-once_example :
    let later = ensure_all (other_request ∷ []) invoiced_shop in
    (j : Invoice) × (ensure_for_order (some (λ i. none)) waiting 6 later ≡ (ok j, later))
    × (j.id ≡ 10)
ensure_for_order-once_example =
    ensure_for_order-once none (some (λ i. none)) waiting 5 6 (new_invoice waiting 10) empty_shop
      invoiced_shop (other_request ∷ []) invoice_made
