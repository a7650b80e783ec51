-- ===== src/Payments/Settle/Once.antt =====
-- The gateway calls back more than once, and twice at the same time: a payment is settled once.
use clock.Base.{
  Bool, Bool-cases, Option, ap, arith, false, get_or, if◌then◌else◌, inl, inr, none, refl, some,
  sym, true, ℕ, ◌&&◌, ◌∙◌, ◌≡◌,
}
use clock.Db.{Db, Order, OrderStatus, Payment, PaymentStatus, payment_status_eq, status_eq}
use clock.Db.Monad.{Result, ok}
use clock.Db.RowLaws.{find_where-update_where}
use clock.Db.Rows.{find_where, update_where}
use clock.Db.TableLaws.{find_where-id}
use clock.Db.Tables.{find_order, is_order, is_order_in, set_status}
use clock.Payments.Settle.{
  SettleOutcome, already_set, amount_ok, amount_text, find_payment, has_ref, is_pending_id,
  response_ok, set_payment, settle_payment,
}
use clock.Payments.Settle.Laws.{
  order_of, outcome_of, settle_answer, settle_payment_lem, settled_state, txn_ref_param,
}
use clock.Text.{Text}
use clock.Vnpay.Sign.{Params, verify_return}

abbrev settled_to : Bool → PaymentStatus
settled_to came_in = if came_in then PaymentStatus.success else PaymentStatus.failed

settled-payments :
    (p : Payment) (user : Option ℕ) (came_in : Bool) (db : Db)
    → (settled_state p user came_in db).payments
      ≡ update_where (is_pending_id p.id) (set_payment (settled_to came_in)) db.payments
settled-payments p user false db = refl
settled-payments p none true db = refl
settled-payments p (some u) true db = refl

settled-orders :
    (p : Payment) (user : Option ℕ) (came_in : Bool) (db : Db)
    → (settled_state p user came_in db).orders ≡ (
        if came_in
        then update_where
            (is_order_in p.order_id OrderStatus.pending)
            (set_status OrderStatus.paid)
            db.orders
        else db.orders)
settled-orders p user false db = refl
settled-orders p none true db = refl
settled-orders p (some u) true db = refl

settled-find_payment :
    (ref : Text) (p : Payment) (user : Option ℕ) (came_in : Bool) (db : Db)
    → find_payment ref db ≡ some p
    → payment_status_eq p.status PaymentStatus.pending ≡ true
    → find_payment ref (settled_state p user came_in db) ≡ some (set_payment (settled_to came_in) p)
settled-find_payment ref p user came_in db found waits =
    ap (find_where (has_ref ref)) (settled-payments p user came_in db)
    ∙ find_where-update_where (is_pending_id p.id) (has_ref ref) (set_payment (settled_to came_in))
        db.payments (λ x. refl)
    ∙ rw found (ground arith)

-- The order of a payment after it was settled: PAID if the money came in and it waited, else as it was.
abbrev pub settled_order : Bool → Order → Order
settled_order came_in o =
    if came_in && status_eq o.status OrderStatus.pending then set_status OrderStatus.paid o else o

pub settled-find_order :
    (p : Payment) (user : Option ℕ) (came_in : Bool) (db : Db) (o : Order)
    → find_order p.order_id db ≡ some o
    → find_order p.order_id (settled_state p user came_in db) ≡ some (settled_order came_in o)
settled-find_order p user false db o found =
    ap (find_where (is_order p.order_id)) (settled-orders p user false db) ∙ found
settled-find_order p user true db o found =
    ap (find_where (is_order p.order_id)) (settled-orders p user true db)
    ∙ find_where-update_where (is_order_in p.order_id OrderStatus.pending) (is_order p.order_id)
        (set_status OrderStatus.paid) db.orders (λ x. refl)
    ∙ rw found (ground (arith, find_where-id p.order_id o db.orders found))

-- What a callback has done, if it answered that it settled a payment.
pub data Settled (params : Params) (db : Db) (came_in : Bool) (code : Text) (db' : Db)
    : Type 0 where
  settled_by :
      (p : Payment) (o : Order)
      → find_payment (txn_ref_param params) db ≡ some p
      → find_order p.order_id db ≡ some o
      → amount_ok (amount_text params) (get_or p.expected_vnd o.total_vnd) ≡ true
      → payment_status_eq p.status PaymentStatus.pending ≡ true
      → response_ok params ≡ came_in
      → code ≡ o.code
      → db' ≡ settled_state p o.user_id came_in db
      → Settled params db came_in code db'

outcome_of-parts : (a b : Bool) (c d : Text) → outcome_of a c ≡ outcome_of b d → (a ≡ b) × (c ≡ d)
outcome_of-parts a b c d e = ground arith

answer-Settled :
    (params : Params) (f : Option Payment) (g : Option Order) (came_in : Bool) (code : Text)
    (db db' : Db)
    → find_payment (txn_ref_param params) db ≡ f
    → order_of f db ≡ g
    → settle_answer params f g db ≡ (ok (outcome_of came_in code), db')
    → Settled params db came_in code db'
answer-Settled params none g came_in code db db' ef eg h = absurd (ground arith)
answer-Settled params (some p) none came_in code db db' ef eg h = absurd (ground arith)
answer-Settled params (some p) (some o) came_in code db db' ef eg h =
    elim (Bool-cases (amount_ok (amount_text params) (get_or p.expected_vnd o.total_vnd))) [
      | inl fine ↦ elim (Bool-cases (payment_status_eq p.status PaymentStatus.pending)) [
        | inl waits ↦
            let h' : ◌≡◌ {A = Result SettleOutcome × Db}
                (
                  ok (outcome_of (response_ok params) o.code),
                  settled_state p o.user_id (response_ok params) db,
                )
                (ok (outcome_of came_in code), db') =
              rw (fine, waits) at h in
            let parts = outcome_of-parts (response_ok params) came_in o.code code (cc) in
            settled_by p o ef eg fine waits parts.0 (sym parts.1) (rw (← parts.0) (cc))
        | inr set ↦ absurd (ground arith)
      ]
      | inr wrong ↦ absurd (ground arith)
    ]

module _ (hmac : Text → Text → Text) (secret : Text) (params : Params) (db db' : Db) where
  -- A callback that reports a settled payment had a valid signature, named a payment that waited and its order, and gave the payment's amount; it wrote the settlement and nothing else.
  pub settle_payment-Settled :
      (came_in : Bool) (code : Text)
      → settle_payment hmac secret params db ≡ (ok (outcome_of came_in code), db')
      → (verify_return hmac secret params ≡ true) × Settled params db came_in code db'
  settle_payment-Settled came_in code e =
      let lem = sym (settle_payment_lem hmac secret params db) ∙ e in
      let found = find_payment (txn_ref_param params) db in
      elim (Bool-cases (verify_return hmac secret params)) [
        | inl valid ↦ (
          valid,
          answer-Settled params found (order_of found db) came_in code db db' refl refl
              (rw valid at lem),
        )
        | inr forged ↦ absurd (ground arith)
      ]

settled_answer :
    (came_in : Bool) (p : Payment) (o : Order) (params : Params) (db : Db) {code : Text}
    → amount_ok (amount_text params) (get_or p.expected_vnd o.total_vnd) ≡ true
    → code ≡ o.code
    → settle_answer params
        (some (set_payment (settled_to came_in) p))
        (some (settled_order came_in o))
        db
      ≡ (ok (already_set code came_in), db)
settled_answer false p o params db fine named = ground arith
settled_answer true p o params db fine named =
    elim (Bool-cases (status_eq o.status OrderStatus.pending)) [
      | inl waits ↦ rw waits (ground arith)
      | inr gone ↦ rw gone (ground arith)
    ]

again-Settled :
    (params : Params) (db db' : Db) (came_in : Bool) (code : Text)
    → Settled params db came_in code db'
    → let found = find_payment (txn_ref_param params) db' in
      settle_answer params found (order_of found db') db' ≡ (ok (already_set code came_in), db')
again-Settled params db db' came_in code
      (settled_by p o found there fine waits answered named after) =
    let row : find_payment (txn_ref_param params) db' ≡ some (set_payment (settled_to came_in) p) =
      ap (find_payment (txn_ref_param params)) after
      ∙ settled-find_payment (txn_ref_param params) p o.user_id came_in db found waits in
    let order : find_order p.order_id db' ≡ some (settled_order came_in o) =
      ap (find_order p.order_id) after ∙ settled-find_order p o.user_id came_in db o there in
    rw (row, order) (settled_answer came_in p o params db' fine named)

-- If a callback reported that it settled a payment, the next one with the same parameters changes nothing: it answers that the payment was settled before, and whether the money came in.
pub settle_once :
    (hmac : Text → Text → Text) (secret : Text) (params : Params) (db db' : Db) (came_in : Bool)
    (code : Text)
    → settle_payment hmac secret params db ≡ (ok (outcome_of came_in code), db')
    → settle_payment hmac secret params db' ≡ (ok (already_set code came_in), db')
settle_once hmac secret params db db' came_in code e =
    let (valid, done) = settle_payment-Settled hmac secret params db db' came_in code e in
    settle_payment_lem hmac secret params db'
    ∙ rw valid (again-Settled params db db' came_in code done)
