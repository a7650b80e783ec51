-- ===== src/Samples.antt =====
-- A small shop, on which the tests and the instances of the theorems run.
use clock.Base.{[], false, finite, none, pos, some, true, ℕ, ◌++◌, ◌+◌, ◌∷◌}
use clock.Db.{
  Db, IntentStatus, Order, OrderItem, OrderStatus, Payment, PaymentIntent, PaymentStatus, Product,
}
use clock.Orders.Create.Input.{CreateOrderInput, CreateOrderOpts, ItemInput, ShopEnv}
use clock.Orders.Create.Service.{CreateContext}
use clock.Payments.PayUrl.{LinkContext}
use clock.Text.{Text, codes}
use clock.Vnpay.{VnpayEnv}

abbrev pub steel_watch : Product
steel_watch = record {
  slug = codes "steel";
  name = codes "Steel";
  price_usd = pos 1000;
  in_boutique = true;
  stock = 3;
}

abbrev pub gold_watch : Product
gold_watch = record {
  slug = codes "gold";
  name = codes "Gold";
  price_usd = pos 9000;
  in_boutique = true;
  stock = 1;
}

abbrev pub hidden_watch : Product
hidden_watch = record {
  slug = codes "hidden";
  name = codes "Hidden";
  price_usd = pos 500;
  in_boutique = false;
  stock = 5;
}

abbrev pub steel_line : ℕ → OrderItem
steel_line n = record {
  product_slug = some (codes "steel");
  name = codes "Steel";
  price_usd = 1000;
  price_vnd = 25_200_000;
  image = [];
  strap = codes "Tiêu chuẩn Atelier";
  engraving = none;
  qty = n;
}

abbrev pub sample_order : ℕ → OrderStatus → Order
sample_order id status = record {
  id = id;
  code = codes "AC-1";
  user_id = some 7;
  customer_name = codes "An";
  contact = codes "0901234567";
  address = codes "Hue";
  slot = none;
  status = status;
  total_usd = 2000;
  total_vnd = 50_400_000;
  paid_usd = 0;
  paid_vnd = 0;
  agreed_terms = true;
  items = steel_line 2 ∷ [];
  created_at = 1000;
}

abbrev pub sample_payment : Payment
sample_payment = record {
  id = 2;
  order_id = 1;
  method = codes "vnpay";
  amount_usd = 2000;
  status = PaymentStatus.pending;
  txn_ref = some (codes "AC-1-x");
  expected_vnd = some 50_400_000;
}

abbrev pub empty_shop : Db
empty_shop = record {
  products = steel_watch ∷ gold_watch ∷ hidden_watch ∷ [];
  orders = [];
  payments = [];
  intents = [];
  events = [];
  cart_items = [];
  idempotency_keys = [];
  invoices = [];
  outbox = [];
  next_id = 10;
}

abbrev pub shop_with : OrderStatus → Db
shop_with status = record empty_shop {
  orders = sample_order 1 status ∷ [];
  payments = sample_payment ∷ [];
}

abbrev pub sample_intent : PaymentIntent
sample_intent = record {
  id = 5;
  user_id = 7;
  max_usd = 5000;
  method = codes "vnpay";
  status = IntentStatus.active;
  order_id = none;
  used_at = none;
  expires_at = 900_000;
}

abbrev pub dev_env : ShopEnv
dev_env = record { is_production = false; enable_simulated = true }

abbrev pub vnpay_env : VnpayEnv
vnpay_env = record {
  is_prod = false;
  tmn_code = codes "AUREL";
  hash_secret = codes "s3cret";
  url = none;
}

-- A stand-in for an HMAC that depends on both of its arguments.
abbrev pub toy_hmac : Text → Text → Text
toy_hmac secret message = secret ++ (b'-' ∷ message)

abbrev pub toy_link : LinkContext
toy_link = record {
  hmac = toy_hmac;
  env = vnpay_env;
  ref_suffix = codes "r1";
  backend_url = codes "http://b";
  ip = codes "10.0.0.1";
  create_date = codes "20260101000000";
  expire_date = codes "20260101003000";
}

abbrev pub toy_context : CreateContext
toy_context = record {
  env = dev_env;
  sha256 = λ t. t;
  code_at = λ n. b'A' ∷ (b'0' + n) ∷ [];
  null_listed = false;
  is_risky = false;
  link = toy_link;
  now = 2000;
}

abbrev pub steel_item : ItemInput
steel_item = record {
  slug = some (codes "steel");
  name = some (codes "Steel");
  price_usd = finite (pos 1);
  image = none;
  strap = none;
  engraving = none;
  qty = some (finite (pos 2));
}

-- Two steel watches, paid by `method`.
abbrev pub toy_request : Text → CreateOrderInput
toy_request method = record {
  customer_name = some (codes "An");
  contact = some (codes "+84 90 123 4567");
  address = some (codes "Hue");
  slot = none;
  items = some (steel_item ∷ []);
  method = some method;
  agreed_terms = true;
  payment_intent_id = none;
}

abbrev pub no_opts : CreateOrderOpts
no_opts = record { idempotency_key = none; via_agent = false }
