-- ===== src/Accounts.antt =====
-- Accounts: the User and DelegationKey tables of backend/prisma/schema.prisma, the exceptions of
-- backend/src/auth, and the two third-party packages that it calls, jose and bcryptjs.
pub mod Session
pub mod Guards
pub mod Service
pub mod Requests
pub mod Cleanup
pub mod Steps
pub mod Laws
pub mod Tickets
pub mod Renewal
pub mod Grant
use clock.Base.{Bool, List, Option, false, none, some, true, ℕ, ◌+◌, ◌<◌, ◌==◌, ◌≡◌, ◌≤◌}
use clock.Db.Rows.{find_where}
use clock.Text.{Text, codes, text_eq}

pub data Role : Type 0 where
  customer admin : Role

abbrev pub role_text : Role → Text
role_text customer = codes "CUSTOMER"
role_text admin = codes "ADMIN"

abbrev pub is_admin : Role → Bool
is_admin customer = false
is_admin admin = true

pub record User : Type 0 where
  pub id : ℕ
  pub email : Text
  pub name : Option Text
  pub password_hash : Option Text
  pub role : Role
  pub token_version : ℕ
  pub created_at : ℕ

pub record DelegationKey : Type 0 where
  pub key : Text
  pub user_id : ℕ
  pub version : ℕ
  pub expires_at : ℕ

pub record Accounts : Type 0 where
  pub users : List User
  pub keys : List DelegationKey
  pub next_user : ℕ

-- A chain of values that may be absent.
abbrev pub and_then : {A B : Type 0} → Option A → (A → Option B) → Option B
and_then none f = none
and_then (some a) f = f a

-- What the operations throw.
pub data Denial : Type 0 where
  not_signed_in no_rights wrong_login wrong_password no_password : Denial
  bad_email bad_length no_delegation no_ticket not_renewed : Denial
  -- the database's errors: a row that is not there (P2025), a key that is (P2002)
  no_row taken_key : Denial

pub data Answer (A : Type 0) : Type 0 where
  replied : A → Answer A
  denied : Denial → Answer A

abbrev pub is_user : ℕ → User → Bool
is_user id u = u.id == id

abbrev pub find_user : ℕ → Accounts → Option User
find_user id db = find_where (is_user id) db.users

abbrev pub has_dkey : Text → DelegationKey → Bool
has_dkey k r = text_eq r.key k

abbrev pub find_key : Text → Accounts → Option DelegationKey
find_key k db = find_where (has_dkey k) db.keys

-- The payload of a token; a value of another type than the code reads counts as absent.
pub record Claims : Type 0 where
  pub sub : Option ℕ
  pub email : Option Text
  pub role : Option Text
  pub v : Option ℕ
  pub aud : Option Text
  pub scope : Option Text
  pub dkey : Option Text

-- `jwtVerify` resolves to the payload, or throws an error with a code.
pub data Verified : Type 0 where
  verified : Claims → Verified
  failed : Text → Verified

-- jose with the secret, the algorithm HS256 and the issuer that each call passes. Times are in
-- seconds.
pub record Jose (Token : Type 0) : Type 0 where
  -- the claims, the seconds to live, the time
  pub sign : Claims → ℕ → ℕ → Token
  -- the audience asked for, if any, and the time
  pub verify : Option Text → ℕ → Token → Verified
  -- `decodeJwt` throws on what is no token
  pub decode : Token → Option Claims

-- bcryptjs: `compare(password, hash)` and `hash(password, cost)`
pub record Bcrypt : Type 0 where
  pub compare : Text → Text → Bool
  pub hash : Text → Text

-- What jose documents of a token's life.
pub record IsJose {Token : Type 0} (jose : Jose Token) : Type 0 where
  -- a token that is asked for its audience has it
  pub audience :
      (a : Text) (now : ℕ) (t : Token) (c : Claims)
      → jose.verify (some a) now t ≡ verified c
      → c.aud ≡ some a
  -- the payload is the token's, whatever is asked and whenever
  pub payload :
      (a b : Option Text) (now later : ℕ) (t : Token) (c d : Claims)
      → jose.verify a now t ≡ verified c
      → jose.verify b later t ≡ verified d
      → c ≡ d
  -- a signed token is accepted until it expires, if no other audience is asked for
  pub signed :
      (c : Claims) (ttl now later : ℕ)
      → later < now + ttl
      → jose.verify none later (jose.sign c ttl now) ≡ verified c
  pub signed_for :
      (c : Claims) (a : Text) (ttl now later : ℕ)
      → c.aud ≡ some a
      → later < now + ttl
      → jose.verify (some a) later (jose.sign c ttl now) ≡ verified c
  -- afterwards it is refused with this code
  pub expired :
      (c : Claims) (a : Text) (ttl now later : ℕ)
      → c.aud ≡ some a
      → now + ttl ≤ later
      → jose.verify (some a) later (jose.sign c ttl now) ≡ failed (codes "ERR_JWT_EXPIRED")
