-- ===== src/Orders/Create/Retry.antt =====
-- A request that is made again with its Idempotency-Key: the first one's order is the answer.
use clock.Base.{
  ==_refl, Bool, Bool-cases, Option, Option-cases, [], any, ap, arith, false, inl, inr, is_empty,
  ltb, none, refl, some, sym, true, ℕ, ◌&&◌, ◌||◌, ◌∙◌, ◌∷◌, ◌≡◌,
}
use clock.Db.{Db, IdempotencyKey, Order, OrderStatus, order_created, review_order, status_eq}
use clock.Db.Monad.{Result, err, ok, pure, ◌>>=◌}
use clock.Db.Rows.{count_where, find_where, update_where}
use clock.Db.Tables.{find_order, is_order}
use clock.Orders.Cancel.{owns}
use clock.Orders.Create.Input.{
  CreateOrderInput, CreateOrderOpts, check_person, normalize_idem_key, trimmed,
}
use clock.Orders.Create.Intent.{close_intent, is_intent, use_intent}
use clock.Orders.Create.Replay.{
  CreateOrderResult, contact_hash, has_key, item_slugs, owns_key, replay_idempotent, result_of,
  to_create_result,
}
use clock.Orders.Create.Service.{
  CreateContext, announce, create, finish_intent, finish_order, key_row, link_or_none, replay_or,
  store_key, worth_check,
}
use clock.Payments.PayUrl.{
  LinkContext, create_pay_url, create_pay_url_for_order, is_pending_of, link_order, may_pay,
}
use clock.Text.{Text, codes, text_eq_refl}
use mathlib.Core.Path.{subst}

-- The orders and the keys are as they were.
abbrev AreKept : Db → Db → Type 0
AreKept db db' = (db'.idempotency_keys ≡ db.idempotency_keys) × (db'.orders ≡ db.orders)

link_order-AreKept :
    (c : LinkContext) (id : ℕ) (order : Order) (user : Option ℕ) (contact : Text) (db : Db)
    → AreKept db (link_order c id order user contact db).1
unfolding link_order
link_order-AreKept c id order user contact db = elim (Bool-cases (may_pay order user contact)) [
  | inr no_right ↦ rw no_right (refl, refl)
  | inl may ↦ elim (Bool-cases (status_eq order.status OrderStatus.pending)) [
    | inr gone ↦ rw (may, gone) (refl, refl)
    | inl waits ↦ elim (Bool-cases (ltb (count_where (is_pending_of id) db.payments) 3)) [
      | inr many ↦ rw (may, waits, many) (refl, refl)
      | inl few ↦ rw (may, waits, few) (refl, refl)
    ]
  ]
]

create_pay_url-AreKept :
    (c : LinkContext) (id : ℕ) (user : Option ℕ) (contact : Text) (db : Db)
    → AreKept db (create_pay_url c (some id) user contact db).1
unfolding create_pay_url
create_pay_url-AreKept c id user contact db = elim (Option-cases (find_order id db)) [
  | inl missing ↦ rw missing (refl, refl)
  | inr (order, there) ↦ rw there (link_order-AreKept c id order user contact db)
]

link_or_none-state : (w : Result Text × Db) → (link_or_none w).1 ≡ w.1
link_or_none-state (ok url, db) = refl
link_or_none-state (err e, db) = refl

-- The link, the messages and the limit are written without a change of the keys and the orders, and
-- no error of theirs reaches the caller.
record IsFinished (db : Db) (order : Order) (w : Result CreateOrderResult × Db) : Type 0 where
  url : Option Text
  result : w.0 ≡ ok (to_create_result order (item_slugs order.items) url)
  kept : AreKept db w.1

link-IsFinished :
    (order : Order) (db : Db) (w : Result Text × Db)
    → AreKept db w.1
    → IsFinished db order (
        ((λ _. link_or_none w) >>= λ url.
        pure (to_create_result order (item_slugs order.items) url))
          db)
link-IsFinished order db (ok url, db') kept = record { url = some url; result = refl; kept = kept }
link-IsFinished order db (err e, db') kept = record { url = none; result = refl; kept = kept }

finish_intent-IsFinished :
    (c : CreateContext) (user intent : Option ℕ) (order : Order) (db : Db)
    → IsFinished db order (
        (finish_intent c intent order user >>= λ url.
        pure (to_create_result order (item_slugs order.items) url))
          db)
unfolding finish_intent create_pay_url_for_order close_intent
finish_intent-IsFinished c user none order db = record {
  url = none;
  result = refl;
  kept = (refl, refl);
}
finish_intent-IsFinished c user (some id) order db =
    let db' = record db {
      intents = update_where (is_intent id) (use_intent order.id c.now) db.intents;
    } in
    link-IsFinished order db (create_pay_url_for_order c.link order.id user db')
      (create_pay_url-AreKept (record c.link { ip = codes "127.0.0.1" }) order.id user [] db')

announce-IsFinished :
    (c : CreateContext) (user intent : Option ℕ) (order : Order) (db : Db)
    → IsFinished db order (announce c user intent order db)
unfolding announce
announce-IsFinished c user intent order db =
    elim (Bool-cases (worth_check user order && c.is_risky)) [
      | inl risky ↦
          let h = finish_intent-IsFinished c user intent order (record db {
            outbox = review_order order.code ∷ order_created order.code ∷ db.outbox;
          }) in
          rw risky (record { url = h.url; result = h.result; kept = h.kept })
      | inr calm ↦
          let h =
            finish_intent-IsFinished c user intent order
              (record db { outbox = order_created order.code ∷ db.outbox }) in
          rw calm (record { url = h.url; result = h.result; kept = h.kept })
    ]

key_row-owns :
    (c : CreateContext) (key : Text) (user : Option ℕ) (contact : Text) (order : Order)
    → owns_key (key_row c key user contact order) user (contact_hash c.sha256 contact) ≡ true
unfolding owns_key contact_hash
key_row-owns c key none contact order = text_eq_refl (contact_hash c.sha256 contact)
key_row-owns c key (some u) contact order = ==_refl u

-- A key's row is found, and so is its order.
replay_idempotent-found :
    (k : IdempotencyKey) (key : Text) (user : Option ℕ) (hash : Text) (o : Order) (db : Db)
    → find_where (has_key key) db.idempotency_keys ≡ some k
    → owns_key k user hash ≡ true
    → find_order k.order_id db ≡ some o
    → replay_idempotent key user hash db ≡ (ok (some (result_of o)), db)
unfolding replay_idempotent
replay_idempotent-found k key user hash o db row owns there = rw (row, owns, there) refl

abbrev pub lacks_person : CreateOrderInput → Bool
lacks_person input =
    is_empty (trimmed input.customer_name)
    || is_empty (trimmed input.contact)
    || is_empty (trimmed input.address)

create-replays :
    (c : CreateContext) (input : CreateOrderInput) (user : Option ℕ) (opts : CreateOrderOpts)
    (key : Text) (r : CreateOrderResult) (db : Db)
    → lacks_person input ≡ false
    → input.agreed_terms ≡ true
    → normalize_idem_key opts.idempotency_key ≡ some key
    → replay_idempotent key user (contact_hash c.sha256 (trimmed input.contact)) db
      ≡ (ok (some r), db)
    → create c input user opts db ≡ (ok r, db)
unfolding create check_person
create-replays c input user opts key r db person agreed norm replay =
    rw (person, agreed, norm, replay)
      (ap (λ (w : Result (Option CreateOrderResult) × Db). (ok r, w.1)) replay)

abbrev stored_state : CreateContext → Text → Option ℕ → Text → Order → Db → Db
stored_state c key user contact order db = record db {
  idempotency_keys = key_row c key user contact order ∷ db.idempotency_keys;
}

store_key-new :
    (c : CreateContext) (key : Text) (user : Option ℕ) (contact : Text) (order : Order) (db : Db)
    → any (has_key key) db.idempotency_keys ≡ false
    → store_key c (some key) user contact order db
      ≡ (ok none, stored_state c key user contact order db)
unfolding store_key
store_key-new c key user contact order db free = ground (arith, free)

finish_order-new :
    (c : CreateContext) (key : Text) (user intent : Option ℕ) (contact : Text) (order : Order)
    (db : Db)
    → any (has_key key) db.idempotency_keys ≡ false
    → finish_order c (some key) user contact intent order db
      ≡ announce c user intent order (stored_state c key user contact order db)
unfolding finish_order
finish_order-new c key user intent contact order db free =
    ap
      (λ (w : Result (Option CreateOrderResult) × Db).
        elim w.0 as (λ _. Result CreateOrderResult × Db) [
          | ok a ↦ replay_or a (announce c user intent order) w.1
          | err e ↦ (err e, w.1)
        ])
      (store_key-new c key user contact order db free)

-- An order that was just written gets its key, which no other row has yet, its messages and its link:
-- the call answers with the order. A request that follows at once with the same key, from the same
-- user and with the same contact, is answered with that order, and nothing is written, whatever its
-- cart, payment and address are, if it leaves none of name, contact and address blank, agrees to the
-- terms, and its key has the form that is accepted.
pub finish_order-create :
    (c : CreateContext) (key : Text) (user intent : Option ℕ) (order o : Order) (db : Db)
    (input : CreateOrderInput) (opts : CreateOrderOpts)
    → any (has_key key) db.idempotency_keys ≡ false
    → find_order order.id db ≡ some o
    → lacks_person input ≡ false
    → input.agreed_terms ≡ true
    → normalize_idem_key opts.idempotency_key ≡ some key
    → let (r, db') = finish_order c (some key) user (trimmed input.contact) intent order db in
      ((url : Option Text) × (r ≡ ok (to_create_result order (item_slugs order.items) url)))
      × (create c input user opts db' ≡ (ok (result_of o), db'))
finish_order-create c key user intent order o db input opts free there person agreed norm =
    let contact = trimmed input.contact in
    let db1 = stored_state c key user contact order db in
    let h = announce-IsFinished c user intent order db1 in
    let db' = (announce c user intent order db1).1 in
    let row : find_where (has_key key) db1.idempotency_keys
        ≡ some (key_row c key user contact order) =
      rw (text_eq_refl key) refl in
    let replay =
      replay_idempotent-found (key_row c key user contact order) key user
        (contact_hash c.sha256 contact) o db' (ap (find_where (has_key key)) h.kept.0 ∙ row)
        (key_row-owns c key user contact order)
        (ap (find_where (is_order order.id)) h.kept.1 ∙ there) in
    subst
      (λ (w : Result CreateOrderResult × Db).
        ((url : Option Text) × (w.0 ≡ ok (to_create_result order (item_slugs order.items) url)))
        × (create c input user opts w.1 ≡ (ok (result_of o), w.1)))
      (sym (finish_order-new c key user intent contact order db free))
      (
        (h.url, h.result),
        create-replays c input user opts key (result_of o) db' person agreed norm replay,
      )
