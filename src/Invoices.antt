-- ===== src/Invoices.antt =====
-- backend/src/invoices/invoice.service.ts: one electronic invoice for each order that was paid.
pub mod Laws
use clock.Base.{
  Bool, Option, [], all, false, if◌then◌else◌, is_empty, none, not, some, true, ℕ, ◌&&◌, ◌+◌, ◌==◌,
  ◌||◌, ◌∷◌,
}
use clock.Db.{Invoice, Order}
use clock.Db.Monad.{M, branch, gets, modify, pure, ◌>>=◌, ◌>>◌}
use clock.Db.Rows.{find_where, update_where}
use clock.Notify.{reply}
use clock.Text.{Text, is_space, text_eq, trim}

-- The e-invoice provider: what `fetch` answers for an invoice, the number and the reference, or
-- `none` for a failure; no provider at all, if none is configured.
abbrev pub Provider : Type 0
Provider = Option (Invoice → Option (Option Text × Option Text))

abbrev pub is_plain : ℕ → Bool
is_plain c = not (is_space c || c == b'@')

-- `[^\s@]+` to the end
abbrev pub is_label : Text → Bool
is_label s = not (is_empty s) && all is_plain s

-- `[^\s@]+\.[^\s@]+$`, with `seen` for a character before the dot
unfoldable pub is_domain : Bool → Text → Bool
unfolding is_space
is_domain seen [] = false
is_domain seen (c ∷ s) =
    let rest = is_domain true s in (seen && c == b'.' && is_label s) || (is_plain c && rest)

-- `[^\s@]+@` and the domain
unfoldable pub is_address : Bool → Text → Bool
unfolding is_domain
is_address seen [] = false
is_address seen (c ∷ s) =
    let rest = is_address true s in
    if c == b'@' then seen && is_domain false s else is_plain c && rest

unfoldable pub is_email : Text → Bool
unfolding is_address trim
is_email s = is_address false (trim s)

abbrev pub has_order_code : Text → Invoice → Bool
has_order_code code i = text_eq i.order_code code

abbrev pub is_invoice : ℕ → Invoice → Bool
is_invoice id i = i.id == id

abbrev pub set_issued : Option Text × Option Text → ℕ → Invoice → Invoice
set_issued reply now i = record i {
  number = reply.0;
  external_ref = reply.1;
  issued = true;
  issued_at = some now;
}

-- The call of the provider, for an invoice that was found and is not issued.
abbrev pub issue_reply : Option (Option Text × Option Text) → ℕ → ℕ → M (Unit {0})
issue_reply none id now = pure tt
issue_reply (some reply) id now =
    modify (λ db. record db {
      invoices = update_where (is_invoice id) (set_issued reply now) db.invoices;
    })

abbrev pub issue_found :
    (Invoice → Option (Option Text × Option Text)) → Option Invoice → ℕ → M (Unit {0})
issue_found call none now = pure tt
issue_found call (some i) now = branch i.issued (pure tt) (issue_reply (call i) i.id now)

unfoldable pub issue_via_provider :
    (Invoice → Option (Option Text × Option Text)) → ℕ → ℕ → M (Unit {0})
issue_via_provider call id now db = issue_found call (find_where (is_invoice id) db.invoices) now db

abbrev pub issue_if_configured : Provider → ℕ → ℕ → M (Unit {0})
issue_if_configured none id now = pure tt
issue_if_configured (some call) id now = issue_via_provider call id now

abbrev pub new_invoice : Order → ℕ → Invoice
new_invoice order id = record {
  id = id;
  order_code = order.code;
  number = none;
  external_ref = none;
  issued = false;
  amount_vnd = order.total_vnd;
  buyer_name = order.customer_name;
  buyer_email = if is_email order.contact then some order.contact else none;
  issued_at = none;
}

abbrev pub create_invoice : Order → ℕ → M (Unit {0})
create_invoice order id =
    modify
      (λ db. record db { invoices = new_invoice order id ∷ db.invoices; next_id = db.next_id + 1 })

abbrev pub create_and_issue : Provider → Order → ℕ → M Invoice
create_and_issue provider order now = do
  id ← gets (λ db. db.next_id)
  create_invoice order id
  issue_if_configured provider id now
  pure (new_invoice order id)

abbrev pub ensure_from : Provider → Order → ℕ → Option Invoice → M Invoice
ensure_from provider order now none = create_and_issue provider order now
ensure_from provider order now (some existing) = pure existing

-- A new invoice is returned as it was created, before the provider's answer.
unfoldable pub ensure_for_order : Provider → Order → ℕ → M Invoice
unfolding issue_via_provider
ensure_for_order provider order now = do
  existing ← gets (λ db. find_where (has_order_code order.code) db.invoices)
  ensure_from provider order now existing
