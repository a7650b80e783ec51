-- ===== src/Accounts/Laws.antt =====
-- Which sessions the guards let in.
use clock.Accounts.{
  Accounts, Bcrypt, Jose, User, denied, find_user, is_user, not_signed_in, replied,
}
use clock.Accounts.Guards.{
  Cookies, admin_only, optional_session, read_session, required_auth, verified_user,
}
use clock.Accounts.Requests.{logout, password_request}
use clock.Accounts.Service.{change_password, next_version, revoke_sessions, update_users}
use clock.Accounts.Session.{SessionUser}
use clock.Accounts.Steps.{Grows, Run, Run-Grows, new_password}
use clock.Base.{
  List, Option-cases, arith, inl, inr, is_some, none, refl, some, sym, true, ℕ, ◌+◌, ◌<◌, ◌≡◌, ◌≤◌,
}
use clock.Db.RowLaws.{find_where-true, find_where-update_where}
use clock.Text.{Text}

-- After an update that raises the version, a session of the version before is nobody's.
outdated_session :
    (id : ℕ) (f : User → User) (db db' : Accounts) (u : User) (t : SessionUser)
    → ((u : User) → (f u).id ≡ u.id)
    → ((u : User) → (f u).token_version ≡ u.token_version + 1)
    → find_user id db ≡ some u
    → id < db.next_user
    → Grows (update_users id f db) db'
    → t.id ≡ id
    → t.v ≤ u.token_version
    → verified_user db' (some t) ≡ none
unfolding verified_user
outdated_session id f db db' u t same up e l g ht hv = elim (Option-cases (find_user id db')) [
  | inl n ↦ ground (arith, ht, n)
  | inr (u', e') ↦
      let (w, ew, lw) = g.versions id u' l e' in
      let own = find_where-true (is_user id) db.users u e in
      let found =
        find_where-update_where (is_user id) (is_user id) f db.users (λ u. rw (same u) refl) in
      let raised = up u in ground (arith, ht, e', e, ew, lw, found, own, raised)
]

session_version :
    (db : Accounts) (s : SessionUser)
    → is_some (verified_user db (some s)) ≡ true
    → (u : User) × (find_user s.id db ≡ some u) × (u.token_version ≡ s.v)
unfolding verified_user
session_version db s h = elim (Option-cases (find_user s.id db)) [
  | inl n ↦ ground (arith, n, h)
  | inr (u, e) ↦ (u, e, ground (arith, e, h))
]

module _ {Token : Type 0} (jose : Jose Token) where
  -- What the guards say of a session that is nobody's
  refused_everywhere :
      (now : ℕ) (cookies : Cookies Token) (db : Accounts) (t : SessionUser)
      → read_session jose now cookies ≡ some t
      → verified_user db (some t) ≡ none
      → (optional_session jose now cookies db ≡ none)
        × (required_auth jose now cookies db ≡ denied not_signed_in)
        × (admin_only jose now cookies db ≡ denied not_signed_in)
  unfolding optional_session required_auth admin_only
  refused_everywhere now cookies db t h v = (ground arith, ground arith, ground arith)

  optional-verified :
      (now : ℕ) (cookies : Cookies Token) (db : Accounts) (s : SessionUser)
      → optional_session jose now cookies db ≡ some s
      → is_some (verified_user db (some s)) ≡ true
  unfolding optional_session
  optional-verified now cookies db s h = ground arith

  logout-writes :
      (now : ℕ) (cookies : Cookies Token) (db : Accounts) (s : SessionUser) (u : User)
      → optional_session jose now cookies db ≡ some s
      → find_user s.id db ≡ some u
      → (logout jose now cookies db).1 ≡ update_users s.id next_version db
  unfolding logout revoke_sessions
  logout-writes now cookies db s u h e = ground (arith, h, e)

  module _ (bcrypt : Bcrypt) where
    -- When a signed-in user signs out, no token of that user and of that version or an older one, a
    -- session or a ticket, is accepted again by the guards, after any operations on the accounts and
    -- whatever the cookies that bring it: the guard for optional sessions finds nobody, the two
    -- others refuse. (Ids of users are below the next one.)
    pub logout-forever :
        (now later : ℕ) (cookies shown : Cookies Token) (db db' : Accounts) (drawn : List Text)
        (s t : SessionUser)
        → optional_session jose now cookies db ≡ some s
        → s.id < db.next_user
        → Run jose bcrypt (logout jose now cookies db).1 drawn db'
        → read_session jose later shown ≡ some t
        → t.id ≡ s.id
        → t.v ≤ s.v
        → (optional_session jose later shown db' ≡ none)
          × (required_auth jose later shown db' ≡ denied not_signed_in)
          × (admin_only jose later shown db' ≡ denied not_signed_in)
    logout-forever now later cookies shown db db' drawn s t h l run r same old =
        let (u, e, v) = session_version db s (optional-verified now cookies db s h) in
        let g = Run-Grows jose bcrypt _ drawn db' run in
        refused_everywhere later shown db' t r (
          outdated_session s.id next_version db db' u t (λ u. refl) (λ u. refl) e l
            (rw (sym (logout-writes now cookies db s u h e)) g) same (omega arith))

    required-verified :
        (now : ℕ) (cookies : Cookies Token) (db : Accounts) (s : SessionUser)
        → required_auth jose now cookies db ≡ replied s
        → is_some (verified_user db (some s)) ≡ true
    unfolding required_auth
    required-verified now cookies db s h = ground arith

    password-writes :
        (now : ℕ) (cookies : Cookies Token) (current new : Text) (db : Accounts) (s : SessionUser)
        (u : User)
        → required_auth jose now cookies db ≡ replied s
        → find_user s.id db ≡ some u
        → (password_request jose now cookies bcrypt current new db).0 ≡ replied tt
        → (password_request jose now cookies bcrypt current new db).1
          ≡ update_users s.id (new_password bcrypt new) db
    unfolding password_request change_password
    password-writes now cookies current new db s u h e ended = ground (arith, h, e, ended)

    -- The same after a change of the password that the request reports as done.
    password-forever :
        (now later : ℕ) (cookies shown : Cookies Token) (current new : Text) (db db' : Accounts)
        (drawn : List Text) (s t : SessionUser)
        → required_auth jose now cookies db ≡ replied s
        → (password_request jose now cookies bcrypt current new db).0 ≡ replied tt
        → s.id < db.next_user
        → Run jose bcrypt (password_request jose now cookies bcrypt current new db).1 drawn db'
        → read_session jose later shown ≡ some t
        → t.id ≡ s.id
        → t.v ≤ s.v
        → (optional_session jose later shown db' ≡ none)
          × (required_auth jose later shown db' ≡ denied not_signed_in)
          × (admin_only jose later shown db' ≡ denied not_signed_in)
    password-forever now later cookies shown current new db db' drawn s t h ended l run r same old =
        let (u, e, v) = session_version db s (required-verified now cookies db s h) in
        let g = Run-Grows jose bcrypt _ drawn db' run in
        let w = password-writes now cookies current new db s u h e ended in
        refused_everywhere later shown db' t r (
          outdated_session s.id (new_password bcrypt new) db db' u t (λ u. refl) (λ u. refl) e l
            (rw (sym w) g) same (omega arith))
