-- ===== src/Db.antt =====
-- The tables of backend/prisma/schema.prisma that the services read and write, one row type each,
-- and the state of the backend. Ids are the database's cuids: the code tests them for equality
-- only, so they are numbers. Times are milliseconds. A table lists its newest row first.
pub mod Rows
pub mod Monad
pub mod Tables
pub mod RowLaws
pub mod TableLaws
use clock.Base.{Bool, List, Option, false, true, ℕ, ℤ, ◌==◌}
use clock.Text.{Text}

pub data OrderStatus : Type 0 where
  pending confirmed paid shipped completed cancelled refunded : OrderStatus

abbrev pub status_rank : OrderStatus → ℕ
status_rank OrderStatus.pending = 0
status_rank OrderStatus.confirmed = 1
status_rank OrderStatus.paid = 2
status_rank OrderStatus.shipped = 3
status_rank OrderStatus.completed = 4
status_rank OrderStatus.cancelled = 5
status_rank OrderStatus.refunded = 6

abbrev pub status_eq : OrderStatus → OrderStatus → Bool
status_eq a b = status_rank a == status_rank b

pub data PaymentStatus : Type 0 where
  pending success failed : PaymentStatus

abbrev pub payment_status_eq : PaymentStatus → PaymentStatus → Bool
payment_status_eq PaymentStatus.pending PaymentStatus.pending = true
payment_status_eq PaymentStatus.success PaymentStatus.success = true
payment_status_eq PaymentStatus.failed PaymentStatus.failed = true
payment_status_eq _ _ = false

pub data IntentStatus : Type 0 where
  active locked used revoked : IntentStatus

abbrev pub is_active : IntentStatus → Bool
is_active IntentStatus.active = true
is_active _ = false

pub record Product : Type 0 where
  pub slug : Text
  pub name : Text
  pub price_usd : ℤ
  pub in_boutique : Bool
  pub stock : ℕ

pub record OrderItem : Type 0 where
  pub product_slug : Option Text
  pub name : Text
  pub price_usd : ℕ
  pub price_vnd : ℕ
  pub image : Text
  pub strap : Text
  pub engraving : Option Text
  pub qty : ℕ

pub record Order : Type 0 where
  pub id : ℕ
  pub code : Text
  pub user_id : Option ℕ
  pub customer_name : Text
  pub contact : Text
  pub address : Text
  pub slot : Option Text
  pub status : OrderStatus
  pub total_usd : ℕ
  pub total_vnd : ℕ
  pub paid_usd : ℕ
  pub paid_vnd : ℕ
  pub agreed_terms : Bool
  pub items : List OrderItem
  pub created_at : ℕ

pub record Payment : Type 0 where
  pub id : ℕ
  pub order_id : ℕ
  pub method : Text
  pub amount_usd : ℕ
  pub status : PaymentStatus
  pub txn_ref : Option Text
  pub expected_vnd : Option ℕ

pub record PaymentIntent : Type 0 where
  pub id : ℕ
  pub user_id : ℕ
  pub max_usd : ℕ
  pub method : Text
  pub status : IntentStatus
  pub order_id : Option ℕ
  pub used_at : Option ℕ
  pub expires_at : ℕ

pub record OrderEvent : Type 0 where
  pub order_id : ℕ
  pub from_status : Option OrderStatus
  pub to_status : OrderStatus
  pub by_user_id : Option ℕ
  pub note : Option Text

pub record CartItem : Type 0 where
  pub user_id : ℕ
  pub product_slug : Text
  pub name : Text
  pub price_usd : ℕ
  pub price_vnd : ℕ
  pub image : Text
  pub strap : Text
  pub engraving : Option Text
  pub qty : ℕ

pub record IdempotencyKey : Type 0 where
  pub key : Text
  pub user_id : Option ℕ
  pub contact_hash : Option Text
  pub order_id : ℕ
  pub created_at : ℕ

pub record Invoice : Type 0 where
  pub id : ℕ
  pub order_code : Text
  pub number : Option Text
  pub external_ref : Option Text
  -- ISSUED, and PENDING_ISSUE before
  pub issued : Bool
  pub amount_vnd : ℕ
  pub buyer_name : Text
  pub buyer_email : Option Text
  pub issued_at : Option ℕ

-- The messages that the services hand to the notifier, which sends them.
pub data Notice : Type 0 where
  order_created : Text → Notice
  order_paid : Text → ℕ → Notice
  -- an order that the risk check wants looked at
  review_order : Text → Notice
  -- money was taken for an order that is not paid: refund it by hand
  wrong_collection : Text → OrderStatus → Notice

pub record Db : Type 0 where
  pub products : List Product
  pub orders : List Order
  pub payments : List Payment
  pub intents : List PaymentIntent
  pub events : List OrderEvent
  pub cart_items : List CartItem
  pub idempotency_keys : List IdempotencyKey
  pub invoices : List Invoice
  pub outbox : List Notice
  -- the id of the next row
  pub next_id : ℕ
