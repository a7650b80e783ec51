-- ===== src/Admin/Orders/Laws.antt =====
-- What a change of an order's status by the back office does, and what it needs.
use clock.Admin.Orders.{
  UpdateOpts, allowed, event_note, is_manual_paid, is_refund, manual_payment, paid_in_full,
  parse_status, reference, returns_stock, update_status, update_tx,
}
use clock.Base.{
  Bool, Bool-cases, Option, ap, arith, false, if◌then◌else◌, inl, inr, is_empty, none, not, refl,
  some, ℕ, ◌&&◌, ◌+◌, ◌==◌, ◌∙◌, ◌∷◌, ◌≡◌, ◌≢◌,
}
use clock.Db.{Db, Order, OrderStatus}
use clock.Db.Monad.{Error, Result, err, ok, transaction}
use clock.Db.RowLaws.{count_where-find_where, find_where-update_where}
use clock.Db.Rows.{count_where, find_where, update_where}
use clock.Db.TableLaws.{find_where-id}
use clock.Db.Tables.{find_order, is_order, is_order_in, set_status}
use clock.Inventory.{restock}
use clock.Text.{Text}

-- The state after the change.
abbrev pub updated_state : Order → OrderStatus → Option ℕ → UpdateOpts → Db → Db
updated_state o to by opts db =
    let moved = update_where (is_order_in o.id o.status) (set_status to) db.orders in
    let by_hand = is_manual_paid o.status to in
    record db {
      products = if returns_stock o.status to then restock o.items db.products else db.products;
      orders = if by_hand then update_where (is_order o.id) (paid_in_full o) moved else moved;
      payments =
          if by_hand
          then manual_payment o (reference opts.payment_ref) db.next_id ∷ db.payments
          else db.payments;
      next_id = if by_hand then db.next_id + 1 else db.next_id;
      events =
          record {
            order_id = o.id;
            from_status = some o.status;
            to_status = to;
            by_user_id = by;
            note = some (event_note o.status to opts);
          }
          ∷ db.events;
    }

update_tx_lem :
    (o : Order) (to : OrderStatus) (by : Option ℕ) (opts : UpdateOpts) (db : Db)
    → count_where (is_order_in o.id o.status) db.orders ≢ 0
    → transaction (update_tx o to by opts) db
      ≡ (ok (find_order o.id (updated_state o to by opts db)), updated_state o to by opts db)
unfolding update_tx
update_tx_lem o to by opts db won =
    let positive : (count_where (is_order_in o.id o.status) db.orders == 0) ≡ false =
      ground arith in
    elim (Bool-cases (returns_stock o.status to)) [
      | inl back ↦ elim (Bool-cases (is_manual_paid o.status to)) [
        | inl hand ↦ rw (positive, back, hand) refl
        | inr gate ↦ rw (positive, back, gate) refl
      ]
      | inr keep ↦ elim (Bool-cases (is_manual_paid o.status to)) [
        | inl hand ↦ rw (positive, keep, hand) refl
        | inr gate ↦ rw (positive, keep, gate) refl
      ]
    ]

-- The row afterwards: the new status, and paid in full after a collection by hand.
abbrev pub updated_order : Order → OrderStatus → Order
updated_order o to =
    let moved = set_status to o in
    if is_manual_paid o.status to then paid_in_full o moved else moved

updated-found :
    (o : Order) (to : OrderStatus) (by : Option ℕ) (opts : UpdateOpts) (db : Db)
    → find_order o.id db ≡ some o
    → find_order o.id (updated_state o to by opts db) ≡ some (updated_order o to)
updated-found o to by opts db found =
    let p = is_order_in o.id o.status in
    let moved = update_where p (set_status to) db.orders in
    let one : find_where (is_order o.id) moved ≡ some (set_status to o) =
      find_where-update_where p (is_order o.id) (set_status to) db.orders (λ x. refl)
      ∙ rw found (ground arith) in
    let two =
      find_where-update_where (is_order o.id) (is_order o.id) (paid_in_full o) moved (λ x. refl) in
    elim (Bool-cases (is_manual_paid o.status to)) [
      | inl hand ↦ rw hand (two ∙ rw one (ground arith))
      | inr gate ↦ rw gate one
    ]

abbrev pub lacks : Bool → Text → Bool
lacks needed ref = needed && is_empty ref

-- The answer to a request, from the status it names and the order it finds.
abbrev pub update_answer :
    Option OrderStatus → Option Order → Option ℕ → UpdateOpts → Db → Result (ℕ × OrderStatus) × Db
update_answer none f by opts db = (err Error.bad_status, db)
update_answer (some to) none by opts db = (err Error.order_not_found, db)
update_answer (some to) (some o) by opts db =
    if not (allowed o.status to)
    then (err Error.bad_transition, db)
    else if lacks (is_refund to) (reference opts.refund_ref)
    then (err Error.missing_refund_ref, db)
    else if lacks (is_manual_paid o.status to) (reference opts.payment_ref)
    then (err Error.missing_payment_ref, db)
    else (ok (o.id, to), updated_state o to by opts db)

-- The steps after the order was found.
update_found :
    (id : ℕ) (o : Order) (to : OrderStatus) (by : Option ℕ) (opts : UpdateOpts) (db : Db)
    (text : Text)
    → parse_status text ≡ some to
    → find_order id db ≡ some o
    → o.id ≡ id
    → update_status id text by opts db ≡ update_answer (some to) (some o) by opts db
unfolding update_status
update_found id o to by opts db text parsed found same =
    let found' : find_order o.id db ≡ some o = ap (λ n. find_order n db) same ∙ found in
    let won =
      count_where-find_where (is_order_in o.id o.status) (is_order o.id) db.orders o found'
        (ground arith) in
    let tx = update_tx_lem o to by opts db won in
    let row = updated-found o to by opts db found' in
    rw (parsed, found)
      (elim (Bool-cases (allowed o.status to)) [
        | inl fine ↦ elim (Bool-cases (lacks (is_refund to) (reference opts.refund_ref))) [
          | inl bare ↦ rw (fine, bare) refl
          | inr given ↦
              elim (Bool-cases (lacks (is_manual_paid o.status to) (reference opts.payment_ref))) [
                | inl bare ↦ rw (fine, given, bare) refl
                | inr named ↦ rw (fine, given, named) (ground (arith, tx, row))
              ]
        ]
        | inr barred ↦ rw barred refl
      ])

-- A change of status needs a known status, an order, an allowed move, a reference for a refund and one for a collection by hand; then the order has the new status, what it held is back in stock if it was cancelled or refunded, a collection by hand has its payment and is paid in full, and the event is logged. Otherwise it throws and changes nothing.
pub update_status_lem :
    (id : ℕ) (text : Text) (by : Option ℕ) (opts : UpdateOpts) (db : Db)
    → update_status id text by opts db
      ≡ update_answer (parse_status text) (find_order id db) by opts db
update_status_lem id text by opts db = go (parse_status text) (find_order id db) refl refl
  where
    go :
        (p : Option OrderStatus) (f : Option Order)
        → parse_status text ≡ p
        → find_order id db ≡ f
        → update_status id text by opts db ≡ update_answer p f by opts db
    go none f parsed found = unfold update_status in rw parsed refl
    go (some to) none parsed found = unfold update_status in rw (parsed, found) refl
    go (some to) (some o) parsed found =
        update_found id o to by opts db text parsed found (find_where-id id o db.orders found)
