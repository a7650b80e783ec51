-- ===== src/Accounts/Tickets.antt =====
-- What a token is good for: sessions, tickets, and the token of a login.
use clock.Accounts.{
  Accounts, Bcrypt, Claims, IsJose, Jose, User, Verified, denied, failed, find_user, not_signed_in,
  replied, role_text, verified,
}
use clock.Accounts.Guards.{Cookies, read_session, required_auth, session_only, verified_user}
use clock.Accounts.Service.{PublicUser, find_by_email, has_email, login, normalize_email, to_public}
use clock.Accounts.Session.{
  SessionUser, agent_audience, claimed_user, seconds, session_claims, session_max_age, session_user,
  sign_session, ticket_user, verify_delegation_token, verify_session_token,
}
use clock.Base.{
  All, Bool, Bool-cases, List, Option, Option-cases, [], ap, arith, false, inl, inr, none, refl,
  some, sym, true, ℕ, ◌+◌, ◌<◌, ◌∙◌, ◌∷◌, ◌≡◌, ◌⊎◌,
}
use clock.Db.RowLaws.{find_where-true}
use clock.Db.Rows.{find_where}
use clock.Text.{Text, eq_of_text_eq}
use mathlib.Core.Path.{subst}

Verified-cases : (v : Verified) → ((c : Claims) × (v ≡ verified c)) ⊎ ((e : Text) × (v ≡ failed e))
Verified-cases (verified c) = inl (c, refl)
Verified-cases (failed e) = inr (e, refl)

-- The ids of users are a primary key.
abbrev pub HasUniqueIds : Accounts → Type 0
HasUniqueIds db = All (λ u. find_user u.id db ≡ some u) db.users

All-find_where :
    {A : Type 0} (P : A → Type 0) (p : A → Bool) (xs : List A) (x : A)
    → All P xs
    → find_where p xs ≡ some x
    → P x
All-find_where P p [] x h e = absurd (cc)
All-find_where P p (y ∷ xs) x (hy, h) e = elim (Bool-cases (p y)) [
  | inl hit ↦ subst P (ground (arith, e, hit)) hy
  | inr miss ↦ All-find_where P p xs x h (ground (arith, e, miss))
]

ticket_user-agent : (c : Claims) (s : SessionUser) → ticket_user c ≡ some s → s.via_agent ≡ true
unfolding ticket_user claimed_user
ticket_user-agent c s h = ground arith

module _ {Token : Type 0} (jose : Jose Token) where
  ticket_claims_of :
      (now : ℕ) (t : Token) (s : SessionUser)
      → verify_delegation_token jose now (some t) ≡ some s
      → (c : Claims) × (jose.verify (some agent_audience) (seconds now) t ≡ verified c)
        × (ticket_user c ≡ some s)
  unfolding verify_delegation_token
  ticket_claims_of now t s h =
      elim (Verified-cases (jose.verify (some agent_audience) (seconds now) t)) [
        | inl (c, e) ↦ (c, e, ground (arith, e, h))
        | inr (code, e) ↦ ground (arith, e, h)
      ]

  verify_session_token-aud :
      (later : ℕ) (t : Token) (a : Text)
      → ((d : Claims) → jose.verify none (seconds later) t ≡ verified d → d.aud ≡ some a)
      → verify_session_token jose later (some t) ≡ none
  unfolding verify_session_token session_user
  verify_session_token-aud later t a h =
      elim (Verified-cases (jose.verify none (seconds later) t)) [
        | inl (d, e) ↦ ground (arith, e, h d e)
        | inr (code, e) ↦ ground (arith, e)
      ]

  session_only-none :
      (now : ℕ) (cookies : Cookies Token) (db : Accounts)
      → verify_session_token jose now cookies.session ≡ none
      → session_only jose now cookies db ≡ denied not_signed_in
  unfolding session_only
  session_only-none now cookies db h = ground (arith, h)

  module _ (laws : IsJose jose) where
    -- A token that is ever accepted as a ticket is an agent's, and is never accepted as a session: the
    -- guard for sessions alone refuses it as a session cookie.
    pub tokens_apart :
        (now later : ℕ) (t : Token) (s : SessionUser) (other : Option Token) (db : Accounts)
        → verify_delegation_token jose now (some t) ≡ some s
        → (s.via_agent ≡ true)
          × (verify_session_token jose later (some t) ≡ none)
          × (session_only jose later (record { session = some t; delegation = other }) db
              ≡ denied not_signed_in)
    tokens_apart now later t s other db h =
        let (c, e, st) = ticket_claims_of now t s h in
        let no = verify_session_token-aud later t agent_audience (λ d ed.
          ap (λ (c : Claims). c.aud) (sym (laws.payload _ _ _ _ t c d e ed))
          ∙ laws.audience agent_audience _ t c e) in
        (ticket_user-agent c s st, no, session_only-none later _ db no)

    -- The session that a session's token stands for
    verify-sign_session :
        (u : User) (now later : ℕ)
        → seconds later < seconds now + session_max_age
        → (s : SessionUser) × (verify_session_token jose later (some (sign_session jose u now))
            ≡ some s)
          × (s.id ≡ u.id)
          × (s.v ≡ u.token_version)
          × (s.via_agent ≡ false)
    unfolding verify_session_token session_user claimed_user
    verify-sign_session u now later h = (
      record {
        id = u.id;
        email = u.email;
        role = role_text u.role;
        v = u.token_version;
        via_agent = false;
        dkey = none;
      },
      rw (laws.signed (session_claims u) session_max_age (seconds now) (seconds later) h) refl,
      refl,
      refl,
      refl,
    )

    required_auth-session :
        (now : ℕ) (cookies : Cookies Token) (db : Accounts) (s : SessionUser) (u : User)
        → verify_session_token jose now cookies.session ≡ some s
        → find_user s.id db ≡ some u
        → u.token_version ≡ s.v
        → required_auth jose now cookies db ≡ replied s
    unfolding required_auth read_session verified_user
    required_auth-session now cookies db s u h e v = ground (arith, h, e, v)

    login-token :
        (bcrypt : Bcrypt) (email pw : Text) (now : ℕ) (db : Accounts) (p : PublicUser) (t : Token)
        → login jose bcrypt email pw now db ≡ replied (p, t)
        → (u : User) × (find_by_email (normalize_email email) db ≡ some u)
          × (p ≡ to_public u)
          × (t ≡ sign_session jose u now)
    unfolding login
    login-token bcrypt email pw now db p t h =
        elim (Option-cases (find_by_email (normalize_email email) db)) [
          | inl n ↦ ground (arith, n, h)
          | inr (u, e) ↦ (u, e, ground (arith, e, h), ground (arith, e, h))
        ]

    -- Who has just logged in is let in, by the token that the login gave, until it expires after 7
    -- days, as the user whose address was given. (Ids of users are unique.)
    pub login-required_auth :
        (bcrypt : Bcrypt) (email pw : Text) (now later : ℕ) (db : Accounts) (p : PublicUser)
        (t : Token) (other : Option Token)
        → HasUniqueIds db
        → login jose bcrypt email pw now db ≡ replied (p, t)
        → seconds later < seconds now + session_max_age
        → (s : SessionUser) × (required_auth jose later
              (record { session = some t; delegation = other })
              db
            ≡ replied s)
          × (s.id ≡ p.id)
          × (p.email ≡ normalize_email email)
          × (s.via_agent ≡ false)
    login-required_auth bcrypt email pw now later db p t other unique h l =
        let (u, e, ep, et) = login-token bcrypt email pw now db p t h in
        let (s, es, i, v, via) = verify-sign_session u now later l in
        let own = All-find_where _ (has_email (normalize_email email)) db.users u unique e in
        let own_email = find_where-true (has_email (normalize_email email)) db.users u e in
        let in_db : find_user s.id db ≡ some u = rw i own in
        let shown : verify_session_token jose later (some t) ≡ some s = rw et es in
        (
          s,
          required_auth-session later _ db s u shown in_db (sym v),
          rw ep i,
          rw ep (eq_of_text_eq _ _ own_email),
          via,
        )
