-- ===== src/Payments/Settle/Laws.antt =====
-- What a callback of the gateway settles, and that it settles once.
use clock.Base.{
  Bool, Bool-cases, Option, arith, false, get_or, if◌then◌else◌, inl, inr, none, not, refl, some,
  true, ℕ, ◌==◌, ◌≡◌, ◌≢◌,
}
use clock.Db.{Db, Order, Payment, PaymentStatus, payment_status_eq}
use clock.Db.Monad.{Result, ok, transaction}
use clock.Db.RowLaws.{count_where-find_where}
use clock.Db.Rows.{count_where, update_where}
use clock.Db.Tables.{find_order}
use clock.Payments.Settle.{
  SettleOutcome, already_set, amount_mismatch, amount_ok, amount_text, checksum_fail, find_payment,
  has_ref, is_pending_id, order_paid_rows, payment_not_found, response_ok, set_payment,
  settle_atomically, settle_found, settle_order, settle_payment, settle_pending, settle_row,
  settle_verified, success, unpaid,
}
use clock.Text.{Text, codes}
use clock.Vnpay.Sign.{Params, param, verify_return}

-- The state after a payment was settled.
abbrev pub settled_state : Payment → Option ℕ → Bool → Db → Db
settled_state p user came_in db =
    let to = if came_in then PaymentStatus.success else PaymentStatus.failed in
    let settled = record db {
      payments = update_where (is_pending_id p.id) (set_payment to) db.payments;
    } in
    if came_in then order_paid_rows p.order_id user settled else settled

abbrev pub outcome_of : Bool → Text → SettleOutcome
outcome_of came_in code = if came_in then success code else unpaid code

settle_atomically_lem :
    (p : Payment) (user : Option ℕ) (came_in : Bool) (db : Db)
    → count_where (is_pending_id p.id) db.payments ≢ 0
    → transaction (settle_atomically p.id p.order_id user came_in) db
      ≡ (ok true, settled_state p user came_in db)
unfolding settle_atomically
settle_atomically_lem p user came_in db won =
    let some_row : (count_where (is_pending_id p.id) db.payments == 0) ≡ false = ground arith in
    rw some_row refl

still_pending :
    (ref : Text) (p : Payment) (db : Db)
    → find_payment ref db ≡ some p
    → payment_status_eq p.status PaymentStatus.pending ≡ true
    → count_where (is_pending_id p.id) db.payments ≢ 0
still_pending ref p db found waits =
    count_where-find_where (is_pending_id p.id) (has_ref ref) db.payments p found (ground arith)

settle_pending_lem :
    (ref : Text) (came_in : Bool) (p : Payment) (o : Order) (db : Db)
    → find_payment ref db ≡ some p
    → payment_status_eq p.status PaymentStatus.pending ≡ true
    → settle_pending ref came_in p o db
      ≡ (ok (outcome_of came_in o.code), settled_state p o.user_id came_in db)
unfolding settle_pending
settle_pending_lem ref came_in p o db found waits =
    ground
      (arith, settle_atomically_lem p o.user_id came_in db (still_pending ref p db found waits))

-- The answer to a callback whose signature holds, from the payment and the order that it finds.
abbrev pub settle_answer : Params → Option Payment → Option Order → Db → Result SettleOutcome × Db
settle_answer params none f db = (ok payment_not_found, db)
settle_answer params (some p) none db = (ok payment_not_found, db)
settle_answer params (some p) (some o) db =
    if not (amount_ok (amount_text params) (get_or p.expected_vnd o.total_vnd))
    then (ok amount_mismatch, db)
    else if payment_status_eq p.status PaymentStatus.pending
    then (
      ok (outcome_of (response_ok params) o.code),
      settled_state p o.user_id (response_ok params) db,
    )
    else (ok (already_set o.code (payment_status_eq p.status PaymentStatus.success)), db)

abbrev pub order_of : Option Payment → Db → Option Order
order_of none db = none
order_of (some p) db = find_order p.order_id db

abbrev pub txn_ref_param : Params → Text
txn_ref_param params = param (codes "vnp_TxnRef") params

settle_found_lem :
    (params : Params) (p : Payment) (o : Order) (db : Db)
    → find_payment (txn_ref_param params) db ≡ some p
    → settle_order params p (some o) db ≡ settle_answer params (some p) (some o) db
unfolding settle_found
settle_found_lem params p o db found =
    let fine = amount_ok (amount_text params) (get_or p.expected_vnd o.total_vnd) in
    elim (Bool-cases fine) [
      | inl ok_amount ↦ elim (Bool-cases (payment_status_eq p.status PaymentStatus.pending)) [
        | inl waits ↦
            rw (ok_amount, waits)
              (settle_pending_lem (txn_ref_param params) (response_ok params) p o db found waits)
        | inr set ↦ rw (ok_amount, set) refl
      ]
      | inr wrong ↦ rw wrong refl
    ]

-- The answer and the writes of a callback in every case: with a valid signature that names a payment of an order, with the amount of the payment, it settles the payment if it waits, and in any other case it writes nothing and says why.
pub settle_payment_lem :
    (hmac : Text → Text → Text) (secret : Text) (params : Params) (db : Db)
    → let found = find_payment (txn_ref_param params) db in
      settle_payment hmac secret params db ≡ (
        if verify_return hmac secret params
        then settle_answer params found (order_of found db) db
        else (ok checksum_fail, db))
settle_payment_lem hmac secret params db = elim (Bool-cases (verify_return hmac secret params)) [
  | inl valid ↦
      unfold settle_payment in rw (valid) (go (find_payment (txn_ref_param params) db) refl)
  | inr forged ↦ unfold settle_payment in rw forged refl
]
  where
    inner :
        (p : Payment) (o : Option Order)
        → find_order p.order_id db ≡ o
        → find_payment (txn_ref_param params) db ≡ some p
        → settle_row params (some p) db
          ≡ settle_answer params (some p) (find_order p.order_id db) db
    inner p none missing found = rw missing refl
    inner p (some o) there found = rw there (settle_found_lem params p o db found)

    go :
        (f : Option Payment)
        → find_payment (txn_ref_param params) db ≡ f
        → settle_verified params db ≡ settle_answer params f (order_of f db) db
    go none found = rw found refl
    go (some p) found = rw found (inner p (find_order p.order_id db) refl found)
