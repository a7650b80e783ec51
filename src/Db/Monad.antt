-- ===== src/Db/Monad.antt =====
-- A service's method: it reads and writes the state and returns a value or throws. What was written
-- before a throw stays, but for a transaction, which the database rolls back.
use clock.Base.{Bool, Option, if◌then◌else◌, none, some, ℕ}
use clock.Db.{Db}

-- The exceptions that the services throw, by the reason that their message gives.
pub data Error : Type 0 where
  -- orders
  missing_contact_info terms_not_agreed bad_method demo_only empty_cart : Error
  not_displayed short_stock bad_total agent_only bad_intent intent_taken sold_out : Error
  no_order_code key_conflict order_not_found not_pending forbidden already_processed : Error
  -- payments
  missing_order_id not_awaiting_payment too_many_pending bad_limit vnpay_only no_intent : Error
  vnpay_not_configured : Error
  -- back office
  bad_status bad_transition missing_refund_ref missing_payment_ref lost_race : Error
  -- the database's unique-constraint violation (P2002), and any other error of it
  unique_violation database_error : Error

-- The response's status; what is no HTTP exception is an internal error.
abbrev pub http_status : Error → ℕ
http_status Error.order_not_found = 404
http_status Error.no_intent = 404
http_status Error.forbidden = 403
http_status Error.key_conflict = 409
http_status Error.vnpay_not_configured = 500
http_status Error.unique_violation = 500
http_status Error.database_error = 500
http_status _ = 400

pub data Result {ℓ} (A : Type ℓ) : Type ℓ where
  ok : A → Result A
  err : Error → Result A

abbrev pub M {ℓ} : Type ℓ → Type ℓ
M A = Db → Result A × Db

module _ {ℓ} {A : Type ℓ} where
  abbrev pub pure : A → M A
  pure a db = (ok a, db)

  abbrev pub throw : Error → M A
  throw e db = (err e, db)

  abbrev pub gets : (Db → A) → M A
  gets f db = (ok (f db), db)

  -- A missing row throws.
  abbrev pub or_throw : Option A → Error → M A
  or_throw o e db = (elim o [ none ↦ err e | some a ↦ ok a ], db)

  -- `this.prisma.$transaction(async (tx) => …)`
  abbrev pub rolled_back : Db → Result A × Db → Result A × Db
  rolled_back db (ok a, db') = (ok a, db')
  rolled_back db (err e, db') = (err e, db)

  abbrev pub transaction : M A → M A
  transaction m db = rolled_back db (m db)

  -- `if (test) … else …` between two actions
  abbrev pub branch : Bool → M A → M A → M A
  branch test m k db = if test then m db else k db

infixl 5 ◌>>=◌ ◌>>◌
abbrev pub ◌>>=◌ {ℓ κ} : {A : Type ℓ} {B : Type κ} → M A → (A → M B) → M B
◌>>=◌ m f db = let (r, db') = m db in elim r [ ok a ↦ f a db' | err e ↦ (err e, db') ]

abbrev pub ◌>>◌ {ℓ} : {B : Type ℓ} → M (Unit {0}) → M B → M B
m >> k = m >>= λ _. k

abbrev pub modify : (Db → Db) → M (Unit {0})
modify f db = (ok tt, f db)

-- `if (!test) throw error`
abbrev pub require : Bool → Error → M (Unit {0})
require test e db = (if test then ok tt else err e, db)

abbrev pub when : Bool → M (Unit {0}) → M (Unit {0})
when test m db = if test then m db else (ok tt, db)
