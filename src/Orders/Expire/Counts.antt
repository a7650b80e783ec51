-- ===== src/Orders/Expire/Counts.antt =====
-- How many orders the hourly job cancels, and that it counts them.
use clock.Base.{
  Bool, Bool-cases, List, Number, Option, [], ap, arith, false, filter, if◌then◌else◌, inl, inr,
  length, length-take, refl, suc, take, true, ℕ, ◌+◌, ◌==◌, ◌∙◌, ◌∷◌, ◌≡◌, ◌≤◌,
}
use clock.Db.{Db, Order, OrderStatus, status_eq}
use clock.Db.Monad.{Error, err, ok, transaction}
use clock.Db.Rows.{count_where, delete_where, update_where}
use clock.Db.Tables.{is_order, is_order_in, set_status}
use clock.Interleaving.Transactions.{expire_tx-IsMild}
use clock.Orders.Expire.{
  expire_all, expire_pending, expire_tx, expire_won, is_old_key, is_stale, ttl_hours,
}

abbrev is_pending : Order → Bool
is_pending o = status_eq o.status OrderStatus.pending

-- How many orders are PENDING
abbrev pub pending_count : Db → ℕ
pending_count db = count_where is_pending db.orders

abbrev pub HasKeys : Db → Type 0
HasKeys db = (id : ℕ) → count_where (is_order id) db.orders ≤ 1

moved-pending :
    (id : ℕ) (orders : List Order)
    → count_where is_pending (
          update_where
            (is_order_in id OrderStatus.pending)
            (set_status OrderStatus.cancelled)
            orders)
        + count_where (is_order_in id OrderStatus.pending) orders
      ≡ count_where is_pending orders
moved-pending id [] = refl
moved-pending id (o ∷ orders) = ground (arith, moved-pending id orders)

fewer_in :
    (id : ℕ) (orders : List Order)
    → count_where (is_order_in id OrderStatus.pending) orders ≤ count_where (is_order id) orders
fewer_in id [] = omega arith
fewer_in id (o ∷ orders) = ground (arith, fewer_in id orders)

-- The transaction for one order says whether it made one PENDING order fewer.
expire_tx-pending_count :
    (o : Order) (db : Db)
    → HasKeys db
    → let (r, db') = transaction (expire_tx o) db in
      (won : Bool) × (r ≡ ok won) × (pending_count db' + (if won then 1 else 0) ≡ pending_count db)
unfolding expire_tx expire_won
expire_tx-pending_count o db keys =
    let waits = is_order_in o.id OrderStatus.pending in
    let moved = moved-pending o.id db.orders in
    let few = fewer_in o.id db.orders in
    let one = keys o.id in
    elim (Bool-cases (count_where waits db.orders == 0)) [
      | inl lost ↦ (false, ground (arith, lost), ground (arith, lost, moved))
      | inr won ↦ (true, ground (arith, won), ground (arith, won, moved, few, one))
    ]

expire_all-pending_count :
    (stale : List Order) (expired : ℕ) (db : Db)
    → HasKeys db
    → let (r, db') = expire_all stale expired db in
      (n : ℕ) × (r ≡ ok (expired + n))
      × (pending_count db' + n ≡ pending_count db)
      × (n ≤ length stale)
unfolding expire_all
expire_all-pending_count [] expired db keys = (0, ground arith, omega arith, omega arith)
expire_all-pending_count (o ∷ stale) expired db keys =
    let db1 = (transaction (expire_tx o) db).1 in
    let same = (expire_tx-IsMild o db).same in
    let keys1 : HasKeys db1 = λ id. rw (same.counts id) (keys id) in
    let (won, answer, count) = expire_tx-pending_count o db keys in
    elim (Bool-cases won) [
      | inl hit ↦
          let (n, r, fewer, few) = expire_all-pending_count stale (expired + 1) db1 keys1 in
          (suc n, ground (arith, answer, hit, r), ground (arith, count, hit, fewer), omega arith)
      | inr miss ↦
          let (n, r, fewer, few) = expire_all-pending_count stale expired db1 keys1 in
          (n, ground (arith, answer, miss, r), ground (arith, count, miss, fewer), omega arith)
    ]

-- If the ids of orders are keys, and the query for stale orders is answered, the job answers with a
-- number of at most 100, and exactly so many orders fewer are PENDING after it than before. If the
-- query fails, the job throws and every order is as it was.
pub expire_pending_counts :
    (ttl : Option Number) (now : ℕ) (db : Db)
    → HasKeys db
    → ((n : ℕ) × ((expire_pending true ttl now db).0 ≡ ok n)
        × (n ≤ 100)
        × (pending_count (expire_pending true ttl now db).1 + n ≡ pending_count db))
      × ((expire_pending false ttl now db).0 ≡ err Error.database_error)
      × ((expire_pending false ttl now db).1.orders ≡ db.orders)
unfolding expire_pending
expire_pending_counts ttl now db keys =
    let stale = take 100 (filter (is_stale (ttl_hours ttl) now) db.orders) in
    let swept = record db {
      idempotency_keys = delete_where (is_old_key now) db.idempotency_keys;
    } in
    let (n, r, fewer, few) = expire_all-pending_count stale 0 swept keys in
    let short = length-take 100 (filter (is_stale (ttl_hours ttl) now) db.orders) in
    let same : 0 + n ≡ n = omega arith in
    ((n, r ∙ ap (λ k. ok k) same, omega arith, fewer), refl, refl)
