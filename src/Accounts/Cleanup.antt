-- ===== src/Accounts/Cleanup.antt =====
-- The clean-up of the accounts that a shopping agent makes:
-- backend/src/agents/agent-shopper-cleanup.service.ts. The carts and wish lists of a deleted user go
-- with it in the database, and its orders stay, without a user; those tables are not here.
use clock.Accounts.{Accounts, DelegationKey, User, is_user}
use clock.Base.{
  Bool, List, Number, Option, [], filter, finite, length, ltb, not, pos, some, suc, take, ℕ, ◌&&◌,
  ◌*◌, ◌+◌, ◌==◌, ◌∷◌,
}
use clock.Db.Rows.{delete_where}
use clock.Text.{Text, starts_with}

-- `ttlHours`: the environment's value as a number, `none` if it is not set.
unfoldable pub shopper_ttl_hours : Option Number → ℕ
shopper_ttl_hours (some (finite (pos (suc n)))) = suc n
shopper_ttl_hours _ = 24

-- Written before the cut-off, by an agent, and without orders
unfoldable pub is_stale_shopper : Text → (ℕ → Bool) → ℕ → ℕ → User → Bool
unfolding starts_with
is_stale_shopper prefix has_orders ttl now u =
    starts_with prefix u.email && ltb (u.created_at + ttl * 3_600_000) now && not (has_orders u.id)

abbrev pub is_key_of : ℕ → DelegationKey → Bool
is_key_of id r = r.user_id == id

-- `user.delete`, with the keys that go with the user
abbrev pub delete_user : ℕ → Accounts → Accounts
delete_user id db = record db {
  users = delete_where (is_user id) db.users;
  keys = delete_where (is_key_of id) db.keys;
}

unfoldable pub delete_each : List User → Accounts → Accounts
delete_each [] db = db
delete_each (u ∷ us) db = delete_each us (delete_user u.id db)

-- At most 500 accounts in one round; the answer is how many went.
unfoldable pub cleanup : Text → Option Number → (ℕ → Bool) → ℕ → Accounts → ℕ × Accounts
unfolding delete_each is_stale_shopper shopper_ttl_hours
cleanup prefix ttl has_orders now db =
    let stale =
      take 500 (filter (is_stale_shopper prefix has_orders (shopper_ttl_hours ttl) now) db.users) in
    (length stale, delete_each stale db)
