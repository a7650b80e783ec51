-- ===== src/Accounts/Guards.antt =====
-- The guards of backend/src/common/guards.ts: who a request comes from, by its two cookies.
use clock.Accounts.{
  Accounts, Answer, Jose, User, denied, find_user, is_admin, no_rights, not_signed_in, replied,
}
use clock.Accounts.Session.{SessionUser, verify_delegation_token, verify_session_token}
use clock.Base.{Option, if◌then◌else◌, is_some, none, some, ℕ, ◌==◌}

pub record Cookies (Token : Type 0) : Type 0 where
  pub session : Option Token
  pub delegation : Option Token

-- The user of the database, if the token is of the user's present version.
unfoldable pub verified_user : Accounts → Option SessionUser → Option User
verified_user db none = none
verified_user db (some s) = elim (find_user s.id db) [
  | none ↦ none
  | some u ↦ if u.token_version == s.v then some u else none
]

-- `if (!user) throw …; req.sessionUser = session`
abbrev pub admit : Option User → Option SessionUser → Answer SessionUser
admit (some u) (some s) = replied s
admit _ _ = denied not_signed_in

-- The role is that of the database.
abbrev pub admit_admin : Option User → Option SessionUser → Answer SessionUser
admit_admin (some u) (some s) = if is_admin u.role then replied s else denied no_rights
admit_admin _ _ = denied not_signed_in

module _ {Token : Type 0} (jose : Jose Token) (now : ℕ) (cookies : Cookies Token) where
  unfoldable pub read_session : Option SessionUser
  unfolding verify_session_token verify_delegation_token
  read_session = elim (verify_session_token jose now cookies.session) [
    | some s ↦ some s
    | none ↦ verify_delegation_token jose now cookies.delegation
  ]

  -- It never refuses: a request without a session, or with one that is no more, is nobody's.
  unfoldable pub optional_session : Accounts → Option SessionUser
  unfolding read_session verified_user
  optional_session db = if is_some (verified_user db read_session) then read_session else none

  unfoldable pub required_auth : Accounts → Answer SessionUser
  unfolding read_session verified_user
  required_auth db = admit (verified_user db read_session) read_session

  -- A ticket is not enough here.
  unfoldable pub session_only : Accounts → Answer SessionUser
  unfolding verify_session_token verified_user
  session_only db =
      let session = verify_session_token jose now cookies.session in
      admit (verified_user db session) session

  unfoldable pub admin_only : Accounts → Answer SessionUser
  unfolding read_session verified_user
  admin_only db = admit_admin (verified_user db read_session) read_session
