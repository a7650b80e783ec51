-- ===== src/Invoices/Laws.antt =====
-- One invoice for each order, however often the gateway calls back.
use clock.Base.{
  Bool-cases, List, Option, Option-cases, [], ap, arith, inl, inr, none, refl, some, sym, true, ℕ,
  ◌+◌, ◌==◌, ◌∙◌, ◌∷◌, ◌≡◌,
}
use clock.Db.{Db, Invoice, Order}
use clock.Db.Monad.{Result, ok}
use clock.Db.RowLaws.{find_where-update_where, update_row}
use clock.Db.Rows.{find_where, update_where}
use clock.Invoices.{
  Provider, create_and_issue, ensure_for_order, has_order_code, is_invoice, issue_if_configured,
  issue_reply, issue_via_provider, new_invoice, set_issued,
}
use clock.Notify.{reply}
use clock.Text.{Text, eq_of_text_eq, text_eq, text_eq_refl}
use mathlib.Core.Path.{subst}

-- A request, by whether the table has an invoice for the order.
module _ (provider : Provider) (order : Order) (now : ℕ) where
  ensure-existing :
      (db : Db) (i : Invoice)
      → find_where (has_order_code order.code) db.invoices ≡ some i
      → ensure_for_order provider order now db ≡ (ok i, db)
  unfolding ensure_for_order
  ensure-existing db i found = rw found refl

  ensure-missing :
      (db : Db)
      → find_where (has_order_code order.code) db.invoices ≡ none
      → {r : Result Invoice × Db} → ensure_for_order provider order now db ≡ r
      → create_and_issue provider order now db ≡ r
  unfolding ensure_for_order
  ensure-missing db missing e = rw missing at e

-- The invoice after the provider was asked, or not.
abbrev HoldsInvoice : Order → ℕ → Db → Type 0
HoldsInvoice order id db =
    (i : Invoice) × (find_where (has_order_code order.code) db.invoices ≡ some i) × (i.id ≡ id)

found-in_front :
    (order : Order) (id : ℕ) (old : List Invoice)
    → find_where (has_order_code order.code) (new_invoice order id ∷ old)
      ≡ some (new_invoice order id)
found-in_front order id old = ground (arith, text_eq_refl order.code)

found-issued :
    (order : Order) (id now : ℕ) (reply : Option Text × Option Text) (old : List Invoice)
    → find_where
        (has_order_code order.code)
        (update_where (is_invoice id) (set_issued reply now) (new_invoice order id ∷ old))
      ≡ some (set_issued reply now (new_invoice order id))
found-issued order id now reply old = ground (arith, text_eq_refl order.code)

-- The table with the new invoice.
abbrev with_new : Order → Db → Db
with_new order db = record db {
  invoices = new_invoice order db.next_id ∷ db.invoices;
  next_id = db.next_id + 1;
}

issue_reply-HoldsInvoice :
    (order : Order) (now : ℕ) (reply : Option (Option Text × Option Text)) (db : Db)
    → HoldsInvoice order db.next_id (issue_reply reply db.next_id now (with_new order db)).1
issue_reply-HoldsInvoice order now none db =
    (new_invoice order db.next_id, found-in_front order db.next_id db.invoices, refl)
issue_reply-HoldsInvoice order now (some reply) db = (
  set_issued reply now (new_invoice order db.next_id),
  found-issued order db.next_id now reply db.invoices,
  refl,
)

issue-new :
    (call : Invoice → Option (Option Text × Option Text)) (order : Order) (now : ℕ) (db : Db)
    → issue_via_provider call db.next_id now (with_new order db)
      ≡ issue_reply (call (new_invoice order db.next_id)) db.next_id now (with_new order db)
unfolding issue_via_provider
issue-new call order now db =
    let same : (db.next_id == db.next_id) ≡ true = ground arith in rw same refl

issue-HoldsInvoice :
    (provider : Provider) (order : Order) (now : ℕ) (db : Db)
    → HoldsInvoice order db.next_id
        (issue_if_configured provider db.next_id now (with_new order db)).1
issue-HoldsInvoice none order now db =
    (new_invoice order db.next_id, found-in_front order db.next_id db.invoices, refl)
issue-HoldsInvoice (some call) order now db =
    rw (issue-new call order now db)
      (issue_reply-HoldsInvoice order now (call (new_invoice order db.next_id)) db)

reply-ok :
    (reply : Option (Option Text × Option Text)) (id now : ℕ) (db : Db)
    → (issue_reply reply id now db).0 ≡ ok tt
reply-ok none id now db = refl
reply-ok (some reply) id now db = refl

issue-ok :
    (provider : Provider) (order : Order) (now : ℕ) (db : Db)
    → (issue_if_configured provider db.next_id now (with_new order db)).0 ≡ ok tt
issue-ok none order now db = refl
issue-ok (some call) order now db =
    rw (issue-new call order now db)
      (reply-ok (call (new_invoice order db.next_id)) db.next_id now (with_new order db))

created_answer :
    (provider : Provider) (order : Order) (now : ℕ) (i : Invoice) (db db' : Db)
    → create_and_issue provider order now db ≡ (ok i, db')
    → (i.id ≡ db.next_id)
      × (db' ≡ (issue_if_configured provider db.next_id now (with_new order db)).1)
created_answer provider order now i db db' e = ground (arith, issue-ok provider order now db)

-- After a request the table has the invoice that it returned.
ensure-HoldsInvoice :
    (provider : Provider) (order : Order) (now : ℕ) (i : Invoice) (db db' : Db)
    → ensure_for_order provider order now db ≡ (ok i, db')
    → HoldsInvoice order i.id db'
ensure-HoldsInvoice provider order now i db db' e =
    elim (Option-cases (find_where (has_order_code order.code) db.invoices)) [
      | inl missing ↦
          let made : create_and_issue provider order now db ≡ (ok i, db') =
            ensure-missing provider order now db missing e in
          let (same_id, same) = created_answer provider order now i db db' made in
          let (j, found, id) = issue-HoldsInvoice provider order now db in
          (
            j,
            ap (λ d. find_where (has_order_code order.code) d.invoices) same ∙ found,
            id ∙ sym same_id,
          )
      | inr (old, found) ↦
          let first = ensure-existing provider order now db old found in
          let state : db ≡ db' = ground arith in
          let same : old ≡ i = ground arith in
          (
            old,
            ap (λ d. find_where (has_order_code order.code) d.invoices) (sym state) ∙ found,
            ap (λ x. x.id) same,
          )
    ]

-- A request for an invoice, with the provider and the time
pub record InvoiceRequest : Type 0 where
  pub provider : Provider
  pub order : Order
  pub now : ℕ

unfoldable pub ensure_all : List InvoiceRequest → Db → Db
unfolding ensure_for_order
ensure_all [] db = db
ensure_all (r ∷ rs) db = ensure_all rs (ensure_for_order r.provider r.order r.now db).1

with_new-HoldsInvoice :
    (order other : Order) (id : ℕ) (db : Db)
    → find_where (has_order_code other.code) db.invoices ≡ none
    → HoldsInvoice order id db
    → HoldsInvoice order id (with_new other db)
with_new-HoldsInvoice order other id db missing (i, found, same) =
    elim (Bool-cases (text_eq other.code order.code)) [
      | inl e ↦
          let codes_same : other.code ≡ order.code = eq_of_text_eq other.code order.code e in
          let clash : find_where (has_order_code order.code) db.invoices ≡ none =
            ap (λ c. find_where (has_order_code c) db.invoices) (sym codes_same) ∙ missing in
          absurd (ground (arith, clash, found))
      | inr e ↦ (i, ground (arith, e, found), same)
    ]

issued-HoldsInvoice :
    (order : Order) (id other now : ℕ) (reply : Option (Option Text × Option Text)) (db : Db)
    → HoldsInvoice order id db
    → HoldsInvoice order id (issue_reply reply other now db).1
issued-HoldsInvoice order id other now none db h = h
issued-HoldsInvoice order id other now (some reply) db (i, found, same) =
    let row =
      find_where-update_where (is_invoice other) (has_order_code order.code) (set_issued reply now)
        db.invoices (λ x. refl) in
    (
      update_row (is_invoice other) (set_issued reply now) i,
      row ∙ rw found refl,
      ground (arith, same),
    )

made-HoldsInvoice :
    (order : Order) (id : ℕ) (provider : Provider) (other : Order) (now : ℕ) (db : Db)
    → HoldsInvoice order id (with_new other db)
    → HoldsInvoice order id (issue_if_configured provider db.next_id now (with_new other db)).1
made-HoldsInvoice order id none other now db h = h
made-HoldsInvoice order id (some call) other now db h = rw (issue-new call other now db) (
    issued-HoldsInvoice order id db.next_id now (call (new_invoice other db.next_id))
      (with_new other db) h)

-- A request for any order keeps the invoice of each order.
request-HoldsInvoice :
    (order : Order) (id : ℕ) (provider : Provider) (other : Order) (now : ℕ) (db : Db)
    → HoldsInvoice order id db
    → HoldsInvoice order id (ensure_for_order provider other now db).1
request-HoldsInvoice order id provider other now db h =
    elim (Option-cases (find_where (has_order_code other.code) db.invoices)) [
      | inl missing ↦
          let made : create_and_issue provider other now db
              ≡ ensure_for_order provider other now db =
            ensure-missing provider other now db missing refl in
          let new_row = with_new-HoldsInvoice order other id db missing h in
          let kept = made-HoldsInvoice order id provider other now db new_row in
          let state : (create_and_issue provider other now db).1
              ≡ (issue_if_configured provider db.next_id now (with_new other db)).1 =
            ground (arith, issue-ok provider other now db) in
          subst (HoldsInvoice order id) (sym state ∙ ap (λ (r : Result Invoice × Db). r.1) made)
            kept
      | inr (old, found) ↦ let same = ensure-existing provider other now db old found in rw same h
    ]

ensure_all-HoldsInvoice :
    (order : Order) (id : ℕ) (rs : List InvoiceRequest) (db : Db)
    → HoldsInvoice order id db
    → HoldsInvoice order id (ensure_all rs db)
unfolding ensure_all
ensure_all-HoldsInvoice order id [] db h = h
ensure_all-HoldsInvoice order id (r ∷ rs) db h =
    ensure_all-HoldsInvoice order id rs (ensure_for_order r.provider r.order r.now db).1
      (request-HoldsInvoice order id r.provider r.order r.now db h)

-- An order has one invoice: after a request for it that succeeds, and any number of requests for
-- invoices of any orders, whatever the provider answers to each, a request for it again writes nothing
-- and returns the invoice with the same id.
pub ensure_for_order-once :
    (provider provider' : Provider) (order : Order) (now now' : ℕ) (i : Invoice) (db db' : Db)
    (rs : List InvoiceRequest)
    → ensure_for_order provider order now db ≡ (ok i, db')
    → let later = ensure_all rs db' in
      (j : Invoice) × (ensure_for_order provider' order now' later ≡ (ok j, later)) × (j.id ≡ i.id)
ensure_for_order-once provider provider' order now now' i db db' rs e =
    let later = ensure_all rs db' in
    let first = ensure-HoldsInvoice provider order now i db db' e in
    let (j, found, id) = ensure_all-HoldsInvoice order i.id rs db' first in
    (j, ensure-existing provider' order now' later j found, id)
