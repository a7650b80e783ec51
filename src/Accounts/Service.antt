-- ===== src/Accounts/Service.antt =====
-- The operations of backend/src/auth/auth.service.ts. What it draws at random and reads from the
-- clock are arguments: `dkey`, `now`. The first sweep of outdated keys in `issueDelegation` is not
-- awaited: `swept` says whether it is through.
use clock.Accounts.{
  Accounts, Answer, Bcrypt, Claims, DelegationKey, Jose, Role, User, and_then, bad_email,
  bad_length, customer, denied, failed, find_key, find_user, has_dkey, is_admin, is_user,
  no_delegation, no_password, no_row, replied, taken_key, verified, wrong_login, wrong_password,
}
use clock.Accounts.Session.{
  agent_audience, delegation_max_age, is_scope, seconds, sign_delegation, sign_session,
}
use clock.Base.{
  Bool, List, Option, [], false, get_or, if◌then◌else◌, is_empty, is_some, leb, length, ltb, none,
  not, some, take, ℕ, ◌&&◌, ◌*◌, ◌++◌, ◌+◌, ◌==◌, ◌∷◌,
}
use clock.Db.Rows.{delete_where, find_where, update_where}
use clock.Invoices.{is_address}
use clock.Text.{Text, codes, text_eq, to_lower_case, trim}

pub record PublicUser : Type 0 where
  pub id : ℕ
  pub email : Text
  pub name : Option Text
  pub role : Role

abbrev pub max_password_len : ℕ
max_password_len = 72

abbrev pub dummy_hash : Text
dummy_hash = codes "$2b$10$C6UzMDM.H6dfI/f/IKcEe.8rSBp0R8uN9xQwErTYuIoPpAqS1a2b3c"

abbrev pub to_public : User → PublicUser
to_public u = record { id = u.id; email = u.email; name = u.name; role = u.role }

-- `… || null`
abbrev pub non_empty : Text → Option Text
non_empty s = if is_empty s then none else some s

abbrev pub normalize_email : Text → Text
normalize_email email = to_lower_case (trim email)

abbrev pub has_email : Text → User → Bool
has_email email u = text_eq u.email email

abbrev pub find_by_email : Text → Accounts → Option User
find_by_email email db = find_where (has_email email) db.users

abbrev pub hash_of : Option User → Option Text
hash_of o = and_then o (λ u. u.password_hash)

abbrev pub fit_length : Text → Bool
fit_length pw = leb 6 (length pw) && leb (length pw) max_password_len

abbrev pub update_users : ℕ → (User → User) → Accounts → Accounts
update_users id f db = record db { users = update_where (is_user id) f db.users }

-- `tokenVersion: { increment: 1 }`
abbrev pub next_version : User → User
next_version u = record u { token_version = u.token_version + 1 }

-- `update` of one row, which throws when there is none
abbrev pub update_user : ℕ → (User → User) → Accounts → Answer User × Accounts
update_user id f db = elim (find_user id db) [
  | none ↦ (denied no_row, db)
  | some u ↦ (replied (f u), update_users id f db)
]

abbrev pub create_user : User → Accounts → Accounts
create_user u db = record db { users = db.users ++ (u ∷ []); next_user = db.next_user + 1 }

module _ {Token : Type 0} (jose : Jose Token) (bcrypt : Bcrypt) where
  unfoldable pub login : Text → Text → ℕ → Accounts → Answer (PublicUser × Token)
  unfolding to_lower_case trim
  login email pw now db =
      let user = find_by_email (normalize_email email) db in
      let same = bcrypt.compare (take max_password_len pw) (get_or (hash_of user) dummy_hash) in
      elim user [
        | none ↦ denied wrong_login
        | some u ↦
            if is_some u.password_hash && same
            then replied (to_public u, sign_session jose u now)
            else denied wrong_login
      ]

  -- The row that `create` writes, with the defaults of the schema
  abbrev pub new_user : Text → Text → Text → ℕ → Accounts → User
  new_user email pw name now db = record {
    id = db.next_user;
    email = email;
    name = non_empty (trim name);
    password_hash = some (bcrypt.hash pw);
    role = customer;
    token_version = 0;
    created_at = now;
  }

  -- An e-mail address that is taken gives no user and no token, without saying so.
  unfoldable pub register :
      Text → Text → Text → ℕ → Accounts → Answer (Option (PublicUser × Token)) × Accounts
  unfolding to_lower_case trim is_address
  register email pw name now db =
      let address = normalize_email email in
      let u = new_user address pw name now db in
      if not (is_address false address)
      then (denied bad_email, db)
      else if not (fit_length pw)
      then (denied bad_length, db)
      else if is_some (find_by_email address db)
      then (replied none, db)
      else (replied (some (to_public u, sign_session jose u now)), create_user u db)

unfoldable pub revoke_sessions : ℕ → Accounts → Answer User × Accounts
revoke_sessions id db = update_user id next_version db

abbrev pub outdated : ℕ → DelegationKey → Bool
outdated now r = ltb r.expires_at now

abbrev pub sweep : Bool → ℕ → List DelegationKey → List DelegationKey
sweep swept now keys = if swept then delete_where (outdated now) keys else keys

abbrev pub new_key : Text → User → ℕ → DelegationKey
new_key dkey u now = record {
  key = dkey;
  user_id = u.id;
  version = u.token_version;
  expires_at = now + (delegation_max_age + 24 * 3600) * 1000;
}

abbrev pub write_key : Bool → Text → User → ℕ → Accounts → Accounts
write_key swept dkey u now db = record db { keys = new_key dkey u now ∷ sweep swept now db.keys }

-- The name is cut at 200 characters.
abbrev pub set_name : Text → User → User
set_name name u = record u { name = non_empty (take 200 (trim name)) }

unfoldable pub update_profile : ℕ → Text → Accounts → Answer PublicUser × Accounts
unfolding trim
update_profile id name db = elim (find_user id db) [
  | none ↦ (denied no_row, db)
  | some u ↦ (replied (to_public (set_name name u)), update_users id (set_name name) db)
]

unfoldable pub change_password : Bcrypt → ℕ → Text → Text → Accounts → Answer User × Accounts
change_password bcrypt id current new db = elim (hash_of (find_user id db)) [
  | none ↦ (denied no_password, db)
  | some hash ↦
      if not (bcrypt.compare (take max_password_len current) hash)
      then (denied wrong_password, db)
      else if not (fit_length new)
      then (denied bad_length, db)
      else update_user id (λ u. record (next_version u) { password_hash = some (bcrypt.hash new) })
          db
]

unfoldable pub me : ℕ → Accounts → Option PublicUser
me id db = and_then (find_user id db) (λ u. some (to_public u))

-- The key of a payload that is a ticket's
unfoldable pub ticket_key : Claims → Option Text
ticket_key c = if is_scope c.scope && is_some c.sub then c.dkey else none

-- Is the record of the key the requester's, still alive, and of the present version?
unfoldable pub renewable : ℕ → ℕ → Text → Accounts → Bool
renewable id now k db = elim (find_key k db) [
  | none ↦ false
  | some r ↦ r.user_id == id && ltb now r.expires_at && elim (find_user id db) [
    | none ↦ false
    | some u ↦ not (is_admin u.role) && u.token_version == r.version
  ]
]

abbrev pub drop_key : Text → Accounts → Accounts
drop_key k db = record db { keys = delete_where (has_dkey k) db.keys }

abbrev pub granted :
    {Token : Type 0} → Answer (Token × ℕ) × Accounts → Answer (Option (Token × ℕ)) × Accounts
granted (replied a, db) = (replied (some a), db)
granted (denied e, db) = (denied e, db)

module _ {Token : Type 0} (jose : Jose Token) where
  -- A ticket and the record that its renewal needs, for customers alone
  unfoldable pub issue_delegation : Bool → Text → ℕ → ℕ → Accounts → Answer (Token × ℕ) × Accounts
  issue_delegation swept dkey id now db = elim (find_user id db) [
    | none ↦ (denied no_delegation, db)
    | some u ↦
        if is_admin u.role
        then (denied no_delegation, db)
        else if is_some (find_where (has_dkey dkey) (sweep swept now db.keys))
        then (denied taken_key, record db { keys = sweep swept now db.keys })
        else (
          replied (sign_delegation jose u dkey now, delegation_max_age),
          write_key swept dkey u now db,
        )
  ]

  -- The old ticket's payload. The code asks for the error 'jwt_expired'.
  unfoldable pub old_claims : ℕ → Token → Option Claims
  unfolding text_eq
  old_claims now t = elim (jose.verify (some agent_audience) (seconds now) t) [
    | verified c ↦ some c
    | failed code ↦ if text_eq code (codes "jwt_expired") then jose.decode t else none
  ]

  -- A ticket's key works once: its record goes before the new ticket is issued.
  unfoldable pub refresh_delegation :
      Bool → Text → ℕ → Token → ℕ → Accounts → Answer (Option (Token × ℕ)) × Accounts
  unfolding old_claims ticket_key renewable issue_delegation
  refresh_delegation swept dkey id t now db = elim (and_then (old_claims now t) ticket_key) [
    | none ↦ (replied none, db)
    | some k ↦
        if renewable id now k db
        then granted (issue_delegation swept dkey id now (drop_key k db))
        else (replied none, db)
  ]
