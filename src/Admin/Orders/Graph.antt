-- ===== src/Admin/Orders/Graph.antt =====
-- The graph of the order's statuses that the back office may walk.
use clock.Admin.Orders.{allowed}
use clock.Base.{Bool, arith, false, suc, true, ℕ, ◌+◌, ◌<◌, ◌≡◌, ◌≢◌, ◌≤◌}
use clock.Db.{OrderStatus}

-- Some allowed changes, one after the other.
pub data Walk : OrderStatus → OrderStatus → ℕ → Type 0 where
  walk_nil : {a : OrderStatus} → Walk a a 0
  walk_cons : {a b c : OrderStatus} {n : ℕ} → allowed a b ≡ true → Walk b c n → Walk a c (suc n)

-- How many changes may still follow.
abbrev pub room : OrderStatus → ℕ
room OrderStatus.pending = 4
room OrderStatus.confirmed = 3
room OrderStatus.paid = 2
room OrderStatus.shipped = 1
room OrderStatus.completed = 0
room OrderStatus.cancelled = 0
room OrderStatus.refunded = 0

room-allowed : (a b : OrderStatus) → allowed a b ≡ true → room b < room a
unfolding allowed
room-allowed a b h = ground arith

-- No walk is longer than the room of its first status, so an order changes at most four times, and a completed, cancelled or refunded one never.
pub Walk-length : {a b : OrderStatus} {n : ℕ} → Walk a b n → n + room b ≤ room a
Walk-length walk_nil = omega arith
Walk-length (walk_cons {a = a} {b = b} step rest) =
    omega (arith, room-allowed a b step, Walk-length rest)

abbrev pub is_collected : OrderStatus → Bool
is_collected OrderStatus.paid = true
is_collected OrderStatus.shipped = true
is_collected OrderStatus.completed = true
is_collected OrderStatus.refunded = true
is_collected _ = false

collected-allowed :
    (a b : OrderStatus) → allowed a b ≡ true → is_collected a ≡ true → is_collected b ≡ true
unfolding allowed
collected-allowed a b h c = ground arith

Walk-collected :
    {a b : OrderStatus} {n : ℕ} → Walk a b n → is_collected a ≡ true → is_collected b ≡ true
Walk-collected walk_nil c = c
Walk-collected (walk_cons {a = a} {b = b} step rest) c =
    Walk-collected rest (collected-allowed a b step c)

-- In the table of changes no walk leads from PAID, SHIPPED, COMPLETED or REFUNDED to CANCELLED, PENDING or CONFIRMED.
Walk-paid :
    {a b : OrderStatus} {n : ℕ}
    → Walk a b n
    → is_collected a ≡ true
    → (b ≢ OrderStatus.cancelled) × (b ≢ OrderStatus.pending) × (b ≢ OrderStatus.confirmed)
Walk-paid {b = b} walk c = ground (arith, Walk-collected walk c)
