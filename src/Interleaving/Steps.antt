-- ===== src/Interleaving/Steps.antt =====
-- The step relation of the requests that write orders, and what it keeps. A request that edits a
-- product's row (its stock, its price) is no step here.
use clock.Admin.Orders.{UpdateOpts, allowed, update_tx}
use clock.Base.{
  Bool, Bool-cases, List, Option, [], ap, arith, false, inl, inr, refl, some, true, ℕ, ◌+◌, ◌<◌,
  ◌==◌, ◌∙◌, ◌∷◌, ◌≡◌, ◌≤◌,
}
use clock.Db.{Db, Order, OrderStatus}
use clock.Db.Monad.{Result, transaction}
use clock.Db.Rows.{count_where, find_where}
use clock.Db.Tables.{find_order, is_order}
use clock.Interleaving.Orders.{Keys, SameOrders, SameOrders-refl, WasRead}
use clock.Interleaving.Transactions.{
  IsCurrent-of, IsMild-refl, IsMildTo, cancel_tx-IsMild, expire_tx-IsMild, settle_atomically-IsMild,
  update_tx-IsMild,
}
use clock.Inventory.Commits.{
  cancel_tx-pieces, expire_tx-pieces, place_tx-pieces, placed-parts, settle_atomically-pieces,
  update_tx-pieces,
}
use clock.Inventory.Laws.{rows_of-reserve}
use clock.Inventory.Measures.{pieces, rows_of}
use clock.Orders.Cancel.{cancel_tx}
use clock.Orders.Create.Place.{NewOrder, order_row}
use clock.Orders.Create.Place.Laws.{
  Placement, place_result, place_tx-Placement, refused, reserve_drafts-reserve, stored_totals-lines,
  written,
}
use clock.Orders.Expire.{expire_tx}
use clock.Payments.Settle.{settle_atomically}
use clock.Text.{Text}

-- One committed transaction. An order that a transaction is given was read at some earlier state.
pub data Step (db db' : Db) : Type 0 where
  by_cancel :
      (o : Order) (user : Option ℕ)
      → WasRead o db
      → db' ≡ (transaction (cancel_tx o user) db).1
      → Step db db'
  by_expire : (o : Order) → WasRead o db → db' ≡ (transaction (expire_tx o) db).1 → Step db db'
  by_update :
      (o : Order) (to : OrderStatus) (by : Option ℕ) (opts : UpdateOpts)
      → WasRead o db
      → allowed o.status to ≡ true
      → db' ≡ (transaction (update_tx o to by opts) db).1
      → Step db db'
  by_place :
      (n : NewOrder) (code : Text) (now : ℕ) → db' ≡ (place_result n code now db).1 → Step db db'
  by_settle :
      (payment order_id : ℕ) (user : Option ℕ) (came_in : Bool)
      → db' ≡ (transaction (settle_atomically payment order_id user came_in) db).1
      → Step db db'
  -- links, limits, keys, carts, messages and invoices: other tables alone
  elsewhere :
      db'.products ≡ db.products → db'.orders ≡ db.orders → db.next_id ≤ db'.next_id → Step db db'

pub data Reach (db : Db) : Db → Type 0 where
  reach_start : Reach db db
  reach_step : {mid last : Db} → Reach db mid → Step mid last → Reach db last

-- What a step does to the keys, to the reads, and to the pieces of a product.
pub record Keeps (db db' : Db) : Type 0 where
  pub keys : Keys db'
  pub reads : (o : Order) → WasRead o db → WasRead o db'
  pub rows : (s : Text) → rows_of s db'.products ≡ rows_of s db.products
  pub whole : (s : Text) → rows_of s db.products ≡ 1 → pieces s db' ≡ pieces s db

reads-of :
    (o : Order) (before after : Db)
    → SameOrders before.orders after.orders
    → WasRead o before
    → WasRead o after
reads-of o before after h (now, found, same) =
    let (later, found', same') = h.finds o.id now found in (later, found', same' ∙ same)

Keys-of :
    (before after : Db)
    → SameOrders before.orders after.orders
    → before.next_id ≤ after.next_id
    → Keys before
    → Keys after
Keys-of before after h le k = record {
  once = λ id. ground (arith, h.counts id, k.once id);
  unused = λ id beyond. h.counts id ∙ k.unused id (omega arith);
}

-- A step that adds no order.
Keeps-of :
    (before after : Db)
    → Keys before
    → IsMildTo before after
    → ((s : Text) → rows_of s before.products ≡ 1 → pieces s after ≡ pieces s before)
    → Keeps before after
Keeps-of before after k m whole = record {
  keys = Keys-of before after m.same m.ids k;
  reads = λ o r. reads-of o before after m.same r;
  rows = m.rows;
  whole = whole;
}

-- A step that adds one order, with the next id.
added-Keeps :
    (db after : Db) (row : Order)
    → Keys db
    → after.orders ≡ row ∷ db.orders
    → row.id ≡ db.next_id
    → db.next_id < after.next_id
    → ((s : Text) → rows_of s after.products ≡ rows_of s db.products)
    → ((s : Text) → rows_of s db.products ≡ 1 → pieces s after ≡ pieces s db)
    → Keeps db after
added-Keeps db after row k eo eid le rows whole = record {
  keys = record {
    once = λ id. rw eo (ground (arith, k.once id, k.unused id));
    unused = λ id beyond. rw eo (ground (arith, k.unused id));
  };
  reads = λ o (now, found, same). (now, rw eo (ground (arith, older o now found)), same);
  rows = rows;
  whole = whole;
}
  where
    -- the order that was read is another row than the new one
    older : (o now : Order) → find_order o.id db ≡ some now → (row.id == o.id) ≡ false
    older o now found = elim (Bool-cases (row.id == o.id)) [
      | inl same ↦ absurd (missing db.orders (k.unused o.id (ground arith)) found)
      | inr differs ↦ differs
    ]
      where
        missing :
            (orders : List Order)
            → count_where (is_order o.id) orders ≡ 0
            → find_where (is_order o.id) orders ≡ some now
            → ⊥
        missing [] z f = cc
        missing (x ∷ orders) z f = ground (arith, missing orders)

placed-Keeps :
    (n : NewOrder) (code : Text) (now : ℕ) (db : Db) (r : Result Order × Db)
    → Keys db
    → Placement n code now db r
    → ((s : Text) → rows_of s db.products ≡ 1 → pieces s r.1 ≡ pieces s db)
    → Keeps db r.1
placed-Keeps n code now db r k (refused e same) whole =
    let unchanged : r.1 ≡ db = ap (λ x. x.1) same in
    Keeps-of db r.1 k (rw unchanged (IsMild-refl db)) whole
placed-Keeps n code now db r k (written t left totals taken fresh same) whole =
    let parts = placed-parts n t left code now db in
    let row = order_row n t code now db.next_id in
    let stored = stored_totals-lines n t totals in
    let reserved_lines = reserve_drafts-reserve n.lines t.items db.products left stored taken in
    let products : r.1.products ≡ left = ap (λ x. x.1.products) same ∙ parts.0 in
    let orders : r.1.orders ≡ row ∷ db.orders = ap (λ x. x.1.orders) same ∙ parts.1 in
    let ids : r.1.next_id ≡ db.next_id + 2 = ap (λ x. x.1.next_id) same ∙ parts.2 in
    added-Keeps db r.1 row k orders refl (omega arith)
      (λ s. ap (rows_of s) products ∙ rows_of-reserve s t.items db.products left reserved_lines)
      whole

Step-Keeps : (db db' : Db) → Keys db → Step db db' → Keeps db db'
Step-Keeps db db' k (by_cancel o user read same) = rw same (
    Keeps-of db _ k (cancel_tx-IsMild o user db)
      λ s one. cancel_tx-pieces s o db (IsCurrent-of o db k read) one user)
Step-Keeps db db' k (by_expire o read same) = rw same (
    Keeps-of db _ k (expire_tx-IsMild o db)
      λ s one. expire_tx-pieces s o db (IsCurrent-of o db k read) one)
Step-Keeps db db' k (by_update o to by opts read ok_move same) = rw same (
    Keeps-of db _ k (update_tx-IsMild o to by opts db)
      λ s one. update_tx-pieces s o db (IsCurrent-of o db k read) one to by opts ok_move)
Step-Keeps db db' k (by_place n code now same) = rw same (
    placed-Keeps n code now db (place_result n code now db) k (place_tx-Placement n code now db)
      λ s one. place_tx-pieces s n code now db one)
Step-Keeps db db' k (by_settle payment order_id user came_in same) = rw same (
    Keeps-of db _ k (settle_atomically-IsMild payment order_id user came_in db)
      λ s one. settle_atomically-pieces s payment order_id user came_in db)
Step-Keeps db db' k (elsewhere ep eo le) =
    Keeps-of db db' k
      (record { same = rw eo (SameOrders-refl db.orders); ids = le; rows = λ s. ap (rows_of s) ep })
      λ s one. rw (ep, eo)

-- Along a run, step by step.
pub Reach-Keeps : {db db' : Db} → Reach db db' → Keys db → Keeps db db'
Reach-Keeps {db = db} reach_start k = record {
  keys = k;
  reads = λ o read. read;
  rows = λ s. refl;
  whole = λ s one. refl;
}
Reach-Keeps (reach_step {mid = mid} {last = last} run step) k =
    let so_far = Reach-Keeps run k in
    let one_step = Step-Keeps mid last so_far.keys step in
    record {
      keys = one_step.keys;
      reads = λ o read. one_step.reads o (so_far.reads o read);
      rows = λ s. one_step.rows s ∙ so_far.rows s;
      whole = λ s one. one_step.whole s (so_far.rows s ∙ one) ∙ so_far.whole s one;
    }

-- Placed orders, cancellations, expiries, settlements and the back office's changes of an order's status, interleaved in any way with one another and with requests that write neither products nor orders, leave the number of pieces of a product as it was, on the shelf and in orders that are neither cancelled nor refunded together, if the first state has one row for the product and its order ids are keys. Requests that write a product's row otherwise, as the back office's edit of its stock, are not among these steps.
pub Reach-pieces :
    (s : Text) {db db' : Db}
    → Reach db db'
    → Keys db
    → rows_of s db.products ≡ 1
    → pieces s db' ≡ pieces s db
Reach-pieces s run k one = (Reach-Keeps run k).whole s one

-- After any sequence of placed orders, cancellations, expiries, settlements and changes of status by
-- concurrent requests, the order ids are still keys, and an order that was read before is still there
-- with the lines that were read, if the ids were keys at first.
pub Reach-WasRead :
    (o : Order) {db db' : Db} → Reach db db' → Keys db → WasRead o db → Keys db' × WasRead o db'
Reach-WasRead o run k read = let kept = Reach-Keeps run k in (kept.keys, kept.reads o read)
