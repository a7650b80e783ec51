-- ===== src/Payments/PayUrl/Laws.antt =====
-- Who gets a payment link, and how many may wait.
use clock.Base.{Option, Option-cases, arith, inl, inr, none, some, ℕ, ◌≡◌, ◌≤◌}
use clock.Db.{Db, Order}
use clock.Db.Rows.{count_where}
use clock.Db.TableLaws.{find_where-id}
use clock.Db.Tables.{find_order}
use clock.Payments.PayUrl.{LinkContext, create_pay_url, is_pending_of, link_order}
use clock.Text.{Text}

link_step :
    (c : LinkContext) (a : ℕ) (o : Order) (user : Option ℕ) (contact : Text) (id : ℕ) (db : Db)
    → o.id ≡ a
    → count_where (is_pending_of id) db.payments ≤ 3
    → count_where (is_pending_of id) (link_order c a o user contact db).1.payments ≤ 3
unfolding link_order
link_step c a o user contact id db same h = ground arith

-- No order ever gets a fourth payment that waits: if at most three wait, at most three wait after a request for a link, whatever it answers.
pub create_pay_url-pending :
    (c : LinkContext) (order_id user : Option ℕ) (contact : Text) (id : ℕ) (db : Db)
    → count_where (is_pending_of id) db.payments ≤ 3
    → count_where (is_pending_of id) (create_pay_url c order_id user contact db).1.payments ≤ 3
unfolding create_pay_url
create_pay_url-pending c none user contact id db h = h
create_pay_url-pending c (some a) user contact id db h = elim (Option-cases (find_order a db)) [
  | inl missing ↦ rw missing h
  | inr (o, found) ↦
      rw found (link_step c a o user contact id db (find_where-id a o db.orders found) h)
]
