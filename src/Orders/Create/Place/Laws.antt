-- ===== src/Orders/Create/Place/Laws.antt =====
-- What the transaction of an order does: all of it or nothing.
use clock.Base.{
  Bool-cases, List, Option, [], ap, arith, inl, inr, none, not, refl, some, suc, sym, zero, ℕ, ◌&&◌,
  ◌+◌, ◌==◌, ◌∙◌, ◌∷◌, ◌≡◌, ◌≤◌,
}
use clock.Db.{Db, Order, OrderItem, Product}
use clock.Db.Monad.{Error, Result, err, ok, transaction}
use clock.Db.Tables.{find_by_code}
use clock.Inventory.{real_slug, reserve, reserve_slug}
use clock.Orders.Create.Amount.{Amount, infinite, not_a_number, num}
use clock.Orders.Create.Lines.{DraftLine, store_line, store_lines}
use clock.Orders.Create.Place.{
  NewOrder, StoredTotals, clear_cart_of, created_event, first_payment, is_collision, next_attempt,
  order_row, place_order, place_tx, reserve_draft, reserve_drafts, reserved, stored_totals,
}
use clock.Text.{Text}
use mathlib.Core.Path.{subst}

store_line_lem :
    (l : DraftLine) (i : OrderItem)
    → store_line l ≡ some i
    → (l.qty ≡ num i.qty)
      × (l.price_usd ≡ num i.price_usd)
      × (l.price_vnd ≡ num i.price_vnd)
      × (l.product_slug ≡ i.product_slug)
unfolding store_line
store_line_lem l i e = ground arith

pub store_lines-cons :
    (l : DraftLine) (ls : List DraftLine) (items : List OrderItem)
    → store_lines (l ∷ ls) ≡ some items
    → (i : OrderItem) × (is : List OrderItem) × (store_line l ≡ some i)
      × (store_lines ls ≡ some is)
      × (items ≡ i ∷ is)
unfolding store_lines
store_lines-cons l ls items e = go (store_line l) (store_lines ls) e
  where
    go :
        (o : Option OrderItem) (os : Option (List OrderItem))
        → (elim o [ none ↦ none | some i ↦ elim os [ none ↦ none | some is ↦ some (i ∷ is) ] ])
          ≡ some items
        → (i : OrderItem) × (is : List OrderItem) × (o ≡ some i) × (os ≡ some is) × (items ≡ i ∷ is)
    go none os h = absurd (cc)
    go (some i) none h = absurd (cc)
    go (some i) (some is) h = (i, is, refl, refl, ground arith)

reserve_draft-slug :
    (o : Option Text) (n : ℕ) (products : List Product)
    → reserve_draft o (num n) products ≡ reserved (reserve_slug o n products)
reserve_draft-slug none n products = refl
reserve_draft-slug (some s) n products = refl

reserve-step :
    (o : Option Text) (n : ℕ) (l : OrderItem) (is : List OrderItem) (ls : List DraftLine)
    (products left : List Product)
    → real_slug l.product_slug ≡ o
    → l.qty ≡ n
    → ((next : List Product) → reserve_drafts ls next ≡ ok left → reserve is next ≡ some left)
    → (elim (reserved (reserve_slug o n products)) [
      | err e ↦ err e
      | ok next ↦ reserve_drafts ls next
    ])
      ≡ ok left
    → reserve (l ∷ is) products ≡ some left
unfolding reserve
reserve-step o n l is ls products left eo en ih h =
    rw (eo, en, reserve) (go (reserve_slug o n products) h)
  where
    go :
        (r : Option (List Product))
        → (elim (reserved r) [ err e ↦ err e | ok next ↦ reserve_drafts ls next ]) ≡ ok left
        → (elim r [ none ↦ none | some next ↦ reserve is next ]) ≡ some left
    go none g = absurd (cc)
    go (some next) g = ih next g

-- The conditional decrements are the reservation of the stored lines.
pub reserve_drafts-reserve :
    (ls : List DraftLine) (items : List OrderItem) (products left : List Product)
    → store_lines ls ≡ some items
    → reserve_drafts ls products ≡ ok left
    → reserve items products ≡ some left
unfolding reserve_drafts reserve store_lines
reserve_drafts-reserve [] items products left e r = ground arith
reserve_drafts-reserve (l ∷ ls) items products left e r =
    let (i, is, first, rest, whole) = store_lines-cons l ls items e in
    let (qty, usd, vnd, slug) = store_line_lem l i first in
    rw whole (
      reserve-step (real_slug i.product_slug) i.qty i is ls products left refl refl
        (λ next. reserve_drafts-reserve ls is next left rest)
        (rw (← reserve_draft-slug (real_slug i.product_slug) i.qty products, ← slug, ← qty) r))

pub stored_totals-lines :
    (n : NewOrder) (t : StoredTotals)
    → stored_totals n ≡ some t
    → store_lines n.lines ≡ some t.items
unfolding stored_totals
stored_totals-lines n t e = go n.total_usd n.total_vnd n.paid_usd n.paid_vnd (store_lines n.lines) e
  where
    go :
        (a b c d : Amount) (o : Option (List OrderItem))
        → (elim a [
          | num usd ↦ elim b [
            | num vnd ↦ elim c [
              | num paid_usd ↦ elim d [
                | num paid_vnd ↦ elim o [
                  | some items ↦ some (record {
                    usd = usd;
                    vnd = vnd;
                    paid_usd = paid_usd;
                    paid_vnd = paid_vnd;
                    items = items;
                  })
                  | none ↦ none
                ]
                | _ ↦ none
              ]
              | _ ↦ none
            ]
            | _ ↦ none
          ]
          | _ ↦ none
        ])
          ≡ some t
        → o ≡ some t.items
    go (num a) (num b) (num c) (num d) (some items) h = ground arith
    go (num a) (num b) (num c) (num d) none h = absurd (cc)
    go (num a) (num b) (num c) infinite o h = absurd (cc)
    go (num a) (num b) (num c) not_a_number o h = absurd (cc)
    go (num a) (num b) infinite d o h = absurd (cc)
    go (num a) (num b) not_a_number d o h = absurd (cc)
    go (num a) infinite c d o h = absurd (cc)
    go (num a) not_a_number c d o h = absurd (cc)
    go infinite b c d o h = absurd (cc)
    go not_a_number b c d o h = absurd (cc)

-- The state after an order was placed.
abbrev pub placed : NewOrder → StoredTotals → List Product → Text → ℕ → Db → Db
placed n t left code now db =
    (clear_cart_of n.user_id n.simulated (record db {
      products = left;
      orders = order_row n t code now db.next_id ∷ db.orders;
      payments = first_payment n t code db.next_id (db.next_id + 1) ∷ db.payments;
      events = created_event n db.next_id ∷ db.events;
      next_id = db.next_id + 2;
    })).1

abbrev pub place_result : NewOrder → Text → ℕ → Db → Result Order × Db
place_result n code now db = transaction (place_tx n code now) db

-- How a placement ends: it throws and writes nothing, or the lines were reserved, the numbers stored, and the rows written.
pub data Placement (n : NewOrder) (code : Text) (now : ℕ) (db : Db) (r : Result Order × Db)
    : Type 0 where
  refused : (e : Error) → r ≡ (err e, db) → Placement n code now db r
  written :
      (t : StoredTotals) (left : List Product)
      → stored_totals n ≡ some t
      → reserve_drafts n.lines db.products ≡ ok left
      → find_by_code code db ≡ none
      → r ≡ (ok (order_row n t code now db.next_id), placed n t left code now db)
      → Placement n code now db r

-- The transaction of an order ends in one of these two ways: it throws and writes nothing, or it takes the lines' pieces from the shelf and writes the order, its payment and its event, with a code that no other order has.
pub place_tx-Placement :
    (n : NewOrder) (code : Text) (now : ℕ) (db : Db)
    → Placement n code now db (place_result n code now db)
unfolding place_tx
place_tx-Placement n code now db =
    go (reserve_drafts n.lines db.products) (stored_totals n) (find_by_code code db) refl refl refl
  where
    go :
        (r : Result (List Product)) (t : Option StoredTotals) (o : Option Order)
        → reserve_drafts n.lines db.products ≡ r
        → stored_totals n ≡ t
        → find_by_code code db ≡ o
        → Placement n code now db (place_result n code now db)
    go (err e) t o er et eo = refused e (ground arith)
    go (ok left) none o er et eo = refused Error.database_error (ground arith)
    go (ok left) (some t) (some old) er et eo = refused Error.unique_violation (ground arith)
    go (ok left) (some t) none er et eo = written t left et er eo (ground arith)

-- All attempts together end like one of them, with one of the random codes up to their number: with an error and nothing written, or with the whole order written.
pub place_order-Placement :
    (left : ℕ) (n : NewOrder) (code_at : ℕ → Text) (now : ℕ) (db : Db)
    → (k : ℕ) × (k ≤ left) × Placement n (code_at k) now db (place_order left n code_at now db)
unfolding place_order
place_order-Placement zero n code_at now db = (0, omega arith, refused Error.no_order_code refl)
place_order-Placement (suc left) n code_at now db =
    go (place_result n (code_at left) now db) refl (place_tx-Placement n (code_at left) now db)
      (place_order-Placement left n code_at now db)
  where
    go :
        (r : Result Order × Db)
        → place_result n (code_at left) now db ≡ r
        → Placement n (code_at left) now db r
        → (k : ℕ) × (k ≤ left) × Placement n (code_at k) now db (place_order left n code_at now db)
        → (k : ℕ) × (k ≤ suc left)
          × Placement n (code_at k) now db (place_order (suc left) n code_at now db)
    go r er (written t l totals taken fresh same) again = (
      left,
      omega arith,
      written t l totals taken fresh
          (ap (next_attempt left (place_order left n code_at now db)) (er ∙ same)),
    )
    go r er (refused e same) (k, le, p) =
        let step = ap (next_attempt left (place_order left n code_at now db)) (er ∙ same) in
        elim (Bool-cases (is_collision e && not (left == 0))) [
          | inl more ↦
              let next : place_order (suc left) n code_at now db
                  ≡ place_order left n code_at now db =
                step ∙ rw more refl in
              (k, omega arith, subst (Placement n (code_at k) now db) (sym next) p)
          | inr last ↦ (left, omega arith, refused e (step ∙ rw last refl))
        ]
