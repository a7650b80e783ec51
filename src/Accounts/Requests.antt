-- ===== src/Accounts/Requests.antt =====
-- The handlers of backend/src/auth/auth.controller.ts, each with its guard.
-- The reply of a handler that answers `{ ok: true }`
use clock.Accounts.{
  Accounts, Answer, Bcrypt, Jose, admin, and_then, denied, no_rights, no_ticket, not_renewed,
  replied, role_text,
}
use clock.Accounts.Guards.{Cookies, optional_session, required_auth, session_only}
use clock.Accounts.Service.{
  PublicUser, change_password, issue_delegation, me, refresh_delegation, revoke_sessions,
  update_profile,
}
use clock.Accounts.Session.{SessionUser}
use clock.Base.{Bool, Option, if◌then◌else◌, none, some, ℕ}
use clock.Text.{Text, text_eq}

abbrev pub told : {A : Type 0} → Answer A × Accounts → Answer (Unit {0}) × Accounts
told (replied a, db) = (replied tt, db)
told (denied e, db) = (denied e, db)

-- A handler behind a guard
abbrev pub guarded :
    {A : Type 0}
    → Answer SessionUser
    → (SessionUser → Accounts → Answer A × Accounts)
    → Accounts
    → Answer A × Accounts
guarded (denied e) f db = (denied e, db)
guarded (replied s) f db = f s db

abbrev is_admin_text : Text → Bool
is_admin_text role = text_eq role (role_text admin)

-- `if (!out) throw …`
abbrev pub or_refused :
    {Token : Type 0} → Answer (Option (Token × ℕ)) × Accounts → Answer (Token × ℕ) × Accounts
or_refused (replied none, db) = (denied not_renewed, db)
or_refused (replied (some a), db) = (replied a, db)
or_refused (denied e, db) = (denied e, db)

module _ {Token : Type 0} (jose : Jose Token) (now : ℕ) (cookies : Cookies Token) where
  -- It signs out whoever is signed in, and never refuses; but for a user that is no more.
  unfoldable pub logout : Accounts → Answer (Unit {0}) × Accounts
  unfolding optional_session revoke_sessions
  logout db = elim (optional_session jose now cookies db) [
    | none ↦ (replied tt, db)
    | some s ↦ told (revoke_sessions s.id db)
  ]

  unfoldable pub me_request : Accounts → Option PublicUser
  unfolding optional_session me
  me_request db = and_then (optional_session jose now cookies db) (λ s. me s.id db)

  unfoldable pub delegation_request : Bool → Text → Accounts → Answer (Token × ℕ) × Accounts
  unfolding session_only issue_delegation
  delegation_request swept dkey db =
      guarded (session_only jose now cookies db)
        (λ s db.
          if is_admin_text s.role
          then (denied no_rights, db)
          else issue_delegation jose swept dkey s.id now db)
        db

  -- A body without a ticket is refused.
  unfoldable pub refresh_request :
      Bool → Text → Option Token → Accounts → Answer (Token × ℕ) × Accounts
  unfolding session_only refresh_delegation
  refresh_request swept dkey token db =
      guarded (session_only jose now cookies db)
        (λ s db. elim token [
          | none ↦ (denied no_ticket, db)
          | some t ↦ or_refused (refresh_delegation jose swept dkey s.id t now db)
        ])
        db

  unfoldable pub profile_request : Text → Accounts → Answer PublicUser × Accounts
  unfolding required_auth update_profile
  profile_request name db =
      guarded (required_auth jose now cookies db) (λ s db. update_profile s.id name db) db

  unfoldable pub password_request : Bcrypt → Text → Text → Accounts → Answer (Unit {0}) × Accounts
  unfolding required_auth change_password
  password_request bcrypt current new db =
      guarded (required_auth jose now cookies db)
        (λ s db. told (change_password bcrypt s.id current new db)) db
