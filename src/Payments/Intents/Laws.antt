-- ===== src/Payments/Intents/Laws.antt =====
-- The spending limits of one user: one in force at a time, taken once.
use clock.Base.{
  Bool, List, Number, [], arith, clamp, false, finite, infinity, nan, neg_infinity, refl, true, ℕ,
  ℤ, ◌+◌, ◌∷◌, ◌≡◌, ◌≤◌,
}
use clock.Db.{Db, IntentStatus, PaymentIntent}
use clock.Db.Monad.{ok}
use clock.Db.Rows.{count_where, update_where}
use clock.Payments.Intents.{
  IntentInput, create_intent, intent_max_usd, is_active_of, set_intent, ttl_of,
}

none_active :
    (user : ℕ) (intents : List PaymentIntent)
    → count_where
        (is_active_of user)
        (update_where (is_active_of user) (set_intent IntentStatus.revoked) intents)
      ≡ 0
none_active user [] = refl
none_active user (i ∷ intents) = ground (arith, none_active user intents)

clamp-bounds : (lo hi : ℕ) (z : ℤ) → lo ≤ hi → (lo ≤ clamp lo hi z) × (clamp lo hi z ≤ hi)
clamp-bounds lo hi z h = (omega arith, omega arith)

ttl_of-bounds : (z : Bool) (x : Number) → (5 ≤ ttl_of z x) × (ttl_of z x ≤ 60)
ttl_of-bounds z nan = (omega arith, omega arith)
ttl_of-bounds z infinity = (omega arith, omega arith)
ttl_of-bounds z neg_infinity = (omega arith, omega arith)
ttl_of-bounds true (finite n) = (omega arith, omega arith)
ttl_of-bounds false (finite n) = clamp-bounds 5 60 n (omega arith)

-- A user who was just given a new limit has exactly one in force; the new limit is a whole number of dollars from 1 to 200000, and ends 5 to 60 minutes later.
pub create_intent-one :
    (user : ℕ) (body : IntentInput) (now : ℕ) (i : PaymentIntent) (db db' : Db)
    → create_intent user body now db ≡ (ok i, db')
    → (count_where (is_active_of user) db'.intents ≡ 1)
      × (1 ≤ i.max_usd)
      × (i.max_usd ≤ intent_max_usd)
      × (now + 300_000 ≤ i.expires_at)
      × (i.expires_at ≤ now + 3_600_000)
unfolding create_intent
create_intent-one user body now i db db' e =
    ground (arith, ttl_of-bounds body.ttl_is_zero body.ttl_minutes, none_active user db.intents)
