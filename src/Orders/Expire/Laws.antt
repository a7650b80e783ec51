-- ===== src/Orders/Expire/Laws.antt =====
-- The hourly job: what it leaves alone.
use clock.Base.{
  All, Bool, List, Number, Option, [], arith, false, filter, inl, inr, refl, some, suc, take, true,
  zero, ℕ, ◌*◌, ◌+◌, ◌∙◌, ◌∷◌, ◌≡◌, ◌≢◌, ◌≤◌, ◌⊎◌,
}
use clock.Db.{Db, Order, OrderStatus}
use clock.Db.Monad.{transaction}
use clock.Db.RowLaws.{find_where-update_where}
use clock.Db.Rows.{count_where, delete_where, find_where, update_where}
use clock.Db.TableLaws.{find_where-id}
use clock.Db.Tables.{find_order, is_order, is_order_in, set_status}
use clock.Orders.Expire.{
  count_won, expire_all, expire_pending, expire_tx, hour_ms, is_old_key, is_stale, ttl_hours,
}

-- The orders that expiry leaves as they are: all but those it was given, and those that do not wait.
untouched :
    (id : ℕ) (o : Order) (db : Db) (now : Order)
    → find_order id db ≡ some now
    → (now.status ≢ OrderStatus.pending) ⊎ (id ≢ o.id)
    → find_order id (transaction (expire_tx o) db).1 ≡ some now
unfolding expire_tx
untouched id o db now found keep =
    let p = is_order_in o.id OrderStatus.pending in
    let moved =
      find_where-update_where p (is_order id) (set_status OrderStatus.cancelled) db.orders
        (λ x. refl) in
    let same : find_where (is_order id)
          (update_where p (set_status OrderStatus.cancelled) db.orders)
        ≡ some now =
      moved ∙ rw found (ground (arith, find_where-id id now db.orders found)) in
    ground (arith, same)

-- The loop changes no order that is not in its list, and none that is not PENDING any more: an order that was paid, confirmed or cancelled since the list was read is left alone.
pub expire_all_untouched :
    (stale : List Order) (expired id : ℕ) (db : Db) (now : Order)
    → find_order id db ≡ some now
    → (now.status ≢ OrderStatus.pending) ⊎ All (λ o. id ≢ o.id) stale
    → find_order id (expire_all stale expired db).1 ≡ some now
unfolding expire_all
expire_all_untouched [] expired id db now found keep = found
expire_all_untouched (o ∷ stale) expired id db now found keep =
    let step = transaction (expire_tx o) db in
    expire_all_untouched stale (count_won step.0 expired) id step.1 now
      (untouched id o db now found (first keep)) (rest keep)
  where
    first :
        (now.status ≢ OrderStatus.pending) ⊎ All (λ (x : Order). id ≢ x.id) (o ∷ stale)
        → (now.status ≢ OrderStatus.pending) ⊎ (id ≢ o.id)
    first (inl a) = inl a
    first (inr b) = inr b.0

    rest :
        (now.status ≢ OrderStatus.pending) ⊎ All (λ (x : Order). id ≢ x.id) (o ∷ stale)
        → (now.status ≢ OrderStatus.pending) ⊎ All (λ (x : Order). id ≢ x.id) stale
    rest (inl a) = inl a
    rest (inr b) = inr b.1

All-take :
    (id n : ℕ) (orders : List Order)
    → All (λ o. id ≢ o.id) orders
    → All (λ o. id ≢ o.id) (take n orders)
All-take id zero orders h = tt
All-take id (suc n) [] h = tt
All-take id (suc n) (o ∷ orders) h = (h.0, All-take id n orders h.1)

none_with_id :
    (p : Order → Bool) (id : ℕ) (orders : List Order)
    → count_where (is_order id) orders ≡ 0
    → All (λ o. id ≢ o.id) (filter p orders)
none_with_id p id [] h = tt
none_with_id p id (o ∷ orders) h = ground (arith, none_with_id p id orders)

-- The row with a given id is not among those that meet a test that it does not meet.
not_listed :
    (p : Order → Bool) (id : ℕ) (now : Order) (orders : List Order)
    → find_where (is_order id) orders ≡ some now
    → count_where (is_order id) orders ≤ 1
    → p now ≡ false
    → All (λ o. id ≢ o.id) (filter p orders)
not_listed p id now [] e one out = tt
not_listed p id now (o ∷ orders) e one out =
    ground (arith, none_with_id p id orders, not_listed p id now orders)

-- The job leaves every order alone that is not PENDING or not older than the limit, if its id is a key.
pub expire_pending_young :
    (queried : Bool) (ttl : Option Number) (now id : ℕ) (db : Db) (o : Order)
    → find_order id db ≡ some o
    → count_where (is_order id) db.orders ≤ 1
    → (o.status ≢ OrderStatus.pending) ⊎ (now ≤ o.created_at + ttl_hours ttl * hour_ms)
    → find_order id (expire_pending queried ttl now db).1 ≡ some o
unfolding expire_pending
expire_pending_young false ttl now id db o found one young = found
expire_pending_young true ttl now id db o found one young =
    expire_all_untouched (take 100 (filter (is_stale (ttl_hours ttl) now) db.orders)) 0 id
      (record db { idempotency_keys = delete_where (is_old_key now) db.idempotency_keys }) o found
      (inr (
        All-take id 100 (filter (is_stale (ttl_hours ttl) now) db.orders)
          (not_listed (is_stale (ttl_hours ttl) now) id o db.orders found one (ground arith))))
