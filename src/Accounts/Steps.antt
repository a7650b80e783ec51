-- ===== src/Accounts/Steps.antt =====
-- Sequences of operations on the accounts, and what holds however they are interleaved.
use clock.Accounts.{Accounts, Bcrypt, Jose, User, find_user, is_user}
use clock.Accounts.Cleanup.{delete_user}
use clock.Accounts.Service.{
  change_password, create_user, issue_delegation, new_user, next_version, normalize_email,
  refresh_delegation, register, revoke_sessions, set_name, update_profile, update_user,
  update_users,
}
use clock.Base.{
  Bool, Bool-cases, List, Option-cases, [], arith, inl, inr, refl, some, sym, ℕ, ◌++◌, ◌<◌, ◌==◌,
  ◌∙◌, ◌∷◌, ◌≡◌, ◌≤◌, ◌⊎◌,
}
use clock.Db.RowLaws.{
  find_where-append, find_where-delete_other, find_where-delete_where, find_where-update_where,
}
use clock.Text.{Text}

-- One operation, with the keys that it draws.
pub data Change {Token : Type 0} (jose : Jose Token) (bcrypt : Bcrypt) (db : Accounts)
    : List Text → Accounts → Type 0 where
  by_register :
      (email pw name : Text) (now : ℕ)
      → Change jose bcrypt db [] (register jose bcrypt email pw name now db).1
  by_revoke : (id : ℕ) → Change jose bcrypt db [] (revoke_sessions id db).1
  by_profile : (id : ℕ) (name : Text) → Change jose bcrypt db [] (update_profile id name db).1
  by_password :
      (id : ℕ) (current new : Text)
      → Change jose bcrypt db [] (change_password bcrypt id current new db).1
  by_issue :
      (swept : Bool) (dkey : Text) (id now : ℕ)
      → Change jose bcrypt db (dkey ∷ []) (issue_delegation jose swept dkey id now db).1
  by_refresh :
      (swept : Bool) (dkey : Text) (id : ℕ) (t : Token) (now : ℕ)
      → Change jose bcrypt db (dkey ∷ []) (refresh_delegation jose swept dkey id t now db).1
  by_delete : (id : ℕ) → Change jose bcrypt db [] (delete_user id db)

pub data Run {Token : Type 0} (jose : Jose Token) (bcrypt : Bcrypt) (db : Accounts)
    : List Text → Accounts → Type 0 where
  run_start : Run jose bcrypt db [] db
  run_step :
      {drawn more : List Text} {mid last : Accounts}
      → Run jose bcrypt db drawn mid
      → Change jose bcrypt mid more last
      → Run jose bcrypt db (more ++ drawn) last

-- Ids are not given twice, and the version of a user only grows.
pub record Grows (db db' : Accounts) : Type 0 where
  pub ids : db.next_user ≤ db'.next_user
  pub versions :
      (id : ℕ) (u' : User)
      → id < db.next_user
      → find_user id db' ≡ some u'
      → (u : User) × (find_user id db ≡ some u) × (u.token_version ≤ u'.token_version)

Grows-refl : (db : Accounts) → Grows db db
Grows-refl db = record { ids = omega arith; versions = λ id u' h e. (u', e, omega arith) }

Grows-trans : (a b c : Accounts) → Grows a b → Grows b c → Grows a c
Grows-trans a b c g h = record {
  ids = omega (arith, g.ids, h.ids);
  versions = λ id u' l e.
      let (u, e', m) = h.versions id u' (omega (arith, g.ids)) e in
      let (u0, e0, m0) = g.versions id u l e' in (u0, e0, omega arith);
}

-- An update that keeps the ids and lowers no version
update_users-Grows :
    (id : ℕ) (f : User → User) (db : Accounts)
    → ((u : User) → (f u).id ≡ u.id)
    → ((u : User) → u.token_version ≤ (f u).token_version)
    → Grows db (update_users id f db)
update_users-Grows id f db same grows = record {
  ids = omega arith;
  versions = λ j u' l e.
      let h = find_where-update_where (is_user id) (is_user j) f db.users (λ u. rw (same u) refl) in
      elim (Option-cases (find_user j db)) [
        | inl n ↦ ground (arith, h, e, n)
        | inr (u, e') ↦ (u, e', ground (arith, h, e, e', grows u))
      ];
}

delete_user-Grows : (id : ℕ) (db : Accounts) → Grows db (delete_user id db)
delete_user-Grows id db = record {
  ids = omega arith;
  versions = λ j u' l e. elim (Bool-cases (j == id)) [
    | inl same ↦ ground (arith, e, same, find_where-delete_where (is_user id) db.users)
    | inr other ↦ (
      u',
      sym (find_where-delete_other (is_user id) (is_user j) db.users (λ x. ground arith)) ∙ e,
      omega arith,
    )
  ];
}

create_user-Grows : (u : User) (db : Accounts) → u.id ≡ db.next_user → Grows db (create_user u db)
create_user-Grows u db h = record {
  ids = omega arith;
  versions = λ j u' l e.
      (u', sym (find_where-append (is_user j) db.users u (ground arith)) ∙ e, omega arith);
}

-- The keys alone change.
same_users-Grows :
    (db db' : Accounts) → db'.users ≡ db.users → db'.next_user ≡ db.next_user → Grows db db'
same_users-Grows db db' us n = record {
  ids = omega arith;
  versions = λ j u' l e. (u', rw (sym us) e, omega arith);
}

-- An operation that writes nothing, or does one thing that is as wanted
either-Grows : (db next db' : Accounts) → (db' ≡ db) ⊎ (db' ≡ next) → Grows db next → Grows db db'
either-Grows db next db' (inl h) g = rw h (Grows-refl db)
either-Grows db next db' (inr h) g = rw h g

update_user-writes :
    (id : ℕ) (f : User → User) (db : Accounts)
    → ((update_user id f db).1 ≡ db) ⊎ ((update_user id f db).1 ≡ update_users id f db)
update_user-writes id f db = ground arith

pub revoke_sessions-writes :
    (id : ℕ) (db : Accounts)
    → ((revoke_sessions id db).1 ≡ db)
      ⊎ ((revoke_sessions id db).1 ≡ update_users id next_version db)
unfolding revoke_sessions
revoke_sessions-writes id db = update_user-writes id next_version db

pub update_profile-writes :
    (id : ℕ) (name : Text) (db : Accounts)
    → ((update_profile id name db).1 ≡ db)
      ⊎ ((update_profile id name db).1 ≡ update_users id (set_name name) db)
unfolding update_profile
update_profile-writes id name db = ground arith

abbrev pub new_password : Bcrypt → Text → User → User
new_password bcrypt new u = record (next_version u) { password_hash = some (bcrypt.hash new) }

pub change_password-writes :
    (bcrypt : Bcrypt) (id : ℕ) (current new : Text) (db : Accounts)
    → ((change_password bcrypt id current new db).1 ≡ db)
      ⊎ ((change_password bcrypt id current new db).1
          ≡ update_users id (new_password bcrypt new) db)
unfolding change_password
change_password-writes bcrypt id current new db = ground arith

module _ {Token : Type 0} (jose : Jose Token) (bcrypt : Bcrypt) where
  pub register-writes :
      (email pw name : Text) (now : ℕ) (db : Accounts)
      → ((register jose bcrypt email pw name now db).1 ≡ db)
        ⊎ ((register jose bcrypt email pw name now db).1
            ≡ create_user (new_user jose bcrypt (normalize_email email) pw name now db) db)
  unfolding register
  register-writes email pw name now db = ground arith

  issue_delegation-users :
      (swept : Bool) (dkey : Text) (id now : ℕ) (db : Accounts)
      → ((issue_delegation jose swept dkey id now db).1.users ≡ db.users)
        × ((issue_delegation jose swept dkey id now db).1.next_user ≡ db.next_user)
  unfolding issue_delegation
  issue_delegation-users swept dkey id now db = (ground arith, ground arith)

  refresh_delegation-users :
      (swept : Bool) (dkey : Text) (id : ℕ) (t : Token) (now : ℕ) (db : Accounts)
      → ((refresh_delegation jose swept dkey id t now db).1.users ≡ db.users)
        × ((refresh_delegation jose swept dkey id t now db).1.next_user ≡ db.next_user)
  unfolding refresh_delegation
  refresh_delegation-users swept dkey id t now db = (
    ground (arith, issue_delegation-users swept dkey id now),
    ground (arith, issue_delegation-users swept dkey id now),
  )

  Change-Grows :
      (drawn : List Text) (db db' : Accounts) → Change jose bcrypt db drawn db' → Grows db db'
  Change-Grows drawn db db' (by_register email pw name now) =
      either-Grows db _ _ (register-writes email pw name now db) (create_user-Grows _ db refl)
  Change-Grows drawn db db' (by_revoke id) =
      either-Grows db _ _ (revoke_sessions-writes id db)
        (update_users-Grows id next_version db (λ u. refl) (λ u. omega arith))
  Change-Grows drawn db db' (by_profile id name) =
      either-Grows db _ _ (update_profile-writes id name db)
        (update_users-Grows id (set_name name) db (λ u. refl) (λ u. omega arith))
  Change-Grows drawn db db' (by_password id current new) =
      either-Grows db _ _ (change_password-writes bcrypt id current new db)
        (update_users-Grows id (new_password bcrypt new) db (λ u. refl) (λ u. omega arith))
  Change-Grows drawn db db' (by_issue swept dkey id now) =
      let (us, n) = issue_delegation-users swept dkey id now db in same_users-Grows db _ us n
  Change-Grows drawn db db' (by_refresh swept dkey id t now) =
      let (us, n) = refresh_delegation-users swept dkey id t now db in same_users-Grows db _ us n
  Change-Grows drawn db db' (by_delete id) = delete_user-Grows id db

  pub Run-Grows :
      (db : Accounts) (drawn : List Text) (db' : Accounts)
      → Run jose bcrypt db drawn db'
      → Grows db db'
  Run-Grows db drawn db' run_start = Grows-refl db
  Run-Grows db drawn db' (run_step {drawn = old} {mid} run step) =
      Grows-trans db mid db' (Run-Grows db old mid run) (Change-Grows _ mid db' step)
