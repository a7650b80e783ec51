-- ===== src/Accounts/Grant.antt =====
-- What a request for a ticket gives, and when the ticket can be renewed.
use clock.Accounts.{
  Accounts, Claims, IsJose, Jose, User, and_then, failed, find_key, find_user, has_dkey, is_admin,
  is_user, replied, role_text, verified,
}
use clock.Accounts.Guards.{read_session, required_auth, verified_user}
use clock.Accounts.Renewal.{find_where-delete_none, sweep-none, text_eq-no}
use clock.Accounts.Service.{
  drop_key, issue_delegation, old_claims, refresh_delegation, renewable, sweep, ticket_key,
  write_key,
}
use clock.Accounts.Session.{
  SessionUser, agent_audience, claimed_user, delegation_max_age, seconds, sign_delegation,
  ticket_claims, ticket_user, verify_delegation_token, verify_session_token,
}
use clock.Base.{
  ==_iff, Bool, Option-cases, ap, arith, false, inl, inr, none, refl, some, sym, true, ℕ, ◌*◌, ◌+◌,
  ◌<◌, ◌≡◌, ◌≢◌, ◌≤◌,
}
use clock.Db.RowLaws.{find_where-true}
use clock.Db.Rows.{find_where}
use clock.Text.{Text, codes, text_eq, text_eq_refl}

module _ {Token : Type 0} (jose : Jose Token) (laws : IsJose jose) where
  -- What a ticket that is given means
  issue_delegation-replied :
      (swept : Bool) (dkey : Text) (id now : ℕ) (db : Accounts) (a : Token × ℕ)
      → (issue_delegation jose swept dkey id now db).0 ≡ replied a
      → (u : User) × (find_user id db ≡ some u)
        × (is_admin u.role ≡ false)
        × (a ≡ (sign_delegation jose u dkey now, delegation_max_age))
        × ((issue_delegation jose swept dkey id now db).1 ≡ write_key swept dkey u now db)
  unfolding issue_delegation
  issue_delegation-replied swept dkey id now db a h = elim (Option-cases (find_user id db)) [
    | inl n ↦ ground (arith, n, h)
    | inr (u, e) ↦ (u, e, ground (arith, e, h), ground (arith, e, h), ground (arith, e, h))
  ]

  verify-sign_delegation :
      (u : User) (k : Text) (now later : ℕ)
      → seconds later < seconds now + delegation_max_age
      → jose.verify (some agent_audience) (seconds later) (sign_delegation jose u k now)
        ≡ verified (ticket_claims u k)
  verify-sign_delegation u k now later h =
      laws.signed_for (ticket_claims u k) agent_audience delegation_max_age (seconds now)
        (seconds later) refl h

  -- The user that a ticket names
  abbrev ticket_session : User → Text → SessionUser
  ticket_session u k = record {
    id = u.id;
    email = u.email;
    role = role_text u.role;
    v = u.token_version;
    via_agent = true;
    dkey = some k;
  }

  verify_ticket :
      (u : User) (k : Text) (now later : ℕ)
      → seconds later < seconds now + delegation_max_age
      → verify_delegation_token jose later (some (sign_delegation jose u k now))
        ≡ some (ticket_session u k)
  unfolding verify_delegation_token ticket_user claimed_user text_eq
  verify_ticket u k now later h = rw (verify-sign_delegation u k now later h) refl

  required_auth-ticket :
      (now : ℕ) (t : Token) (db : Accounts) (s : SessionUser) (u : User)
      → verify_delegation_token jose now (some t) ≡ some s
      → find_user s.id db ≡ some u
      → u.token_version ≡ s.v
      → required_auth jose now (record { session = none; delegation = some t }) db ≡ replied s
  unfolding required_auth read_session verify_session_token verified_user
  required_auth-ticket now t db s u h e v = ground (arith, h, e, v)

  -- A ticket is a customer's: the guards take it for that customer, acting by an agent, until it
  -- expires after 30 minutes. An admin gets none.
  pub issue_delegation-customer :
      (swept : Bool) (dkey : Text) (id now later : ℕ) (db : Accounts) (t : Token) (ttl : ℕ)
      → (issue_delegation jose swept dkey id now db).0 ≡ replied (t, ttl)
      → seconds later < seconds now + ttl
      → (u : User) × (find_user id db ≡ some u)
        × (is_admin u.role ≡ false)
        × (s : SessionUser) × (required_auth jose later
              (record { session = none; delegation = some t })
              (issue_delegation jose swept dkey id now db).1
            ≡ replied s)
        × (s.id ≡ u.id)
        × (s.v ≡ u.token_version)
        × (s.dkey ≡ some dkey)
        × (s.via_agent ≡ true)
  issue_delegation-customer swept dkey id now later db t ttl h l =
      let (u, e, c, ea, ew) = issue_delegation-replied swept dkey id now db (t, ttl) h in
      let same = find_where-true (is_user id) db.users u e in
      let et : t ≡ sign_delegation jose u dkey now = ap (λ (a : Token × ℕ). a.0) ea in
      let el : ttl ≡ delegation_max_age = ap (λ (a : Token × ℕ). a.1) ea in
      let alive : seconds later < seconds now + delegation_max_age = omega arith in
      let shown : verify_delegation_token jose later (some t) ≡ some (ticket_session u dkey) =
        rw et (verify_ticket u dkey now later alive) in
      let found : find_user u.id (issue_delegation jose swept dkey id now db).1 ≡ some u =
        rw (ew, (==_iff u.id id).0 same) e in
      (
        u,
        e,
        c,
        ticket_session u dkey,
        required_auth-ticket later t _ (ticket_session u dkey) u shown found refl,
        refl,
        refl,
        refl,
        refl,
      )

  old_claims-verified :
      (later : ℕ) (t : Token) (c : Claims)
      → jose.verify (some agent_audience) (seconds later) t ≡ verified c
      → old_claims jose later t ≡ some c
  unfolding old_claims
  old_claims-verified later t c h = ground (arith, h)

  ticket_key-ticket_claims : (u : User) (k : Text) → ticket_key (ticket_claims u k) ≡ some k
  unfolding ticket_key text_eq
  ticket_key-ticket_claims u k = refl

  alive_for : (now later : ℕ) → seconds later < seconds now + 1800 → later < now + 88200 * 1000
  alive_for now later h = omega arith

  -- A key that has just been written is good for a renewal.
  renewable-write_key :
      (swept : Bool) (dkey : Text) (id now later : ℕ) (u : User) (db : Accounts)
      → find_user id db ≡ some u
      → u.id ≡ id
      → is_admin u.role ≡ false
      → later < now + 88200 * 1000
      → renewable id later dkey (write_key swept dkey u now db) ≡ true
  unfolding renewable
  renewable-write_key swept dkey id now later u db e i c l =
      ground (arith, e, i, c, l, text_eq_refl dkey)

  free_key :
      (swept again : Bool) (dkey fresh : Text) (now later : ℕ) (u : User) (db : Accounts)
      → fresh ≢ dkey
      → find_key fresh db ≡ none
      → find_where
          (has_dkey fresh)
          (sweep again later (drop_key dkey (write_key swept dkey u now db)).keys)
        ≡ none
  free_key swept again dkey fresh now later u db other h = sweep-none again later fresh _ (
      find_where-delete_none (has_dkey dkey) (has_dkey fresh) (write_key swept dkey u now db).keys (
        ground (
          arith,
          text_eq-no dkey fresh (λ e. other (sym e)),
          sweep-none swept now fresh db.keys h,
        )))

  refresh_delegation-grants :
      (swept : Bool) (fresh : Text) (id : ℕ) (t : Token) (later : ℕ) (k : Text) (u : User)
      (db : Accounts)
      → and_then (old_claims jose later t) ticket_key ≡ some k
      → renewable id later k db ≡ true
      → find_user id db ≡ some u
      → is_admin u.role ≡ false
      → find_where (has_dkey fresh) (sweep swept later (drop_key k db).keys) ≡ none
      → (refresh_delegation jose swept fresh id t later db).0
        ≡ replied (some (sign_delegation jose u fresh later, delegation_max_age))
  unfolding refresh_delegation issue_delegation
  refresh_delegation-grants swept fresh id t later k u db h r e c f = ground (arith, h, r, e, c, f)

  -- A ticket that is still alive is renewed, for the user that it was given to, if the new key is
  -- another one and no key of the table is.
  pub issue_delegation-refresh :
      (swept again : Bool) (dkey fresh : Text) (id now later : ℕ) (db : Accounts) (t : Token)
      (ttl : ℕ)
      → (issue_delegation jose swept dkey id now db).0 ≡ replied (t, ttl)
      → now ≤ later
      → seconds later < seconds now + ttl
      → fresh ≢ dkey
      → find_key fresh db ≡ none
      → (new : Token) × ((refresh_delegation jose again fresh id t later
            (issue_delegation jose swept dkey id now db).1).0
          ≡ replied (some (new, delegation_max_age)))
  issue_delegation-refresh swept again dkey fresh id now later db t ttl h n l other free =
      let (u, e, c, ea, ew) = issue_delegation-replied swept dkey id now db (t, ttl) h in
      let same = (==_iff u.id id).0 (find_where-true (is_user id) db.users u e) in
      let et : t ≡ sign_delegation jose u dkey now = ap (λ (a : Token × ℕ). a.0) ea in
      let el : ttl ≡ delegation_max_age = ap (λ (a : Token × ℕ). a.1) ea in
      let alive : seconds later < seconds now + delegation_max_age = omega arith in
      let claims : old_claims jose later t ≡ some (ticket_claims u dkey) =
        rw et (old_claims-verified later _ _ (verify-sign_delegation u dkey now later alive)) in
      let named : and_then (old_claims jose later t) ticket_key ≡ some dkey =
        rw claims (ticket_key-ticket_claims u dkey) in
      (
        sign_delegation jose u fresh later,
        rw ew (
            refresh_delegation-grants again fresh id t later dkey u _ named
              (renewable-write_key swept dkey id now later u db e same c
                (alive_for now later alive))
              e c (free_key swept again dkey fresh now later u db other free)),
      )

  old_claims-failed :
      (later : ℕ) (t : Token) (code : Text)
      → jose.verify (some agent_audience) (seconds later) t ≡ failed code
      → text_eq code (codes "jwt_expired") ≡ false
      → old_claims jose later t ≡ none
  unfolding old_claims
  old_claims-failed later t code h other = ground (arith, h, other)

  not_renewed_without :
      (swept : Bool) (fresh : Text) (id later : ℕ) (t : Token) (db : Accounts)
      → old_claims jose later t ≡ none
      → refresh_delegation jose swept fresh id t later db ≡ (replied none, db)
  unfolding refresh_delegation
  not_renewed_without swept fresh id later t db h = ground (arith, h)

  -- A ticket that has expired is not renewed.
  refresh_delegation-expired :
      (swept : Bool) (fresh : Text) (id now later : ℕ) (u : User) (k : Text) (db : Accounts)
      → seconds now + delegation_max_age ≤ seconds later
      → refresh_delegation jose swept fresh id (sign_delegation jose u k now) later db
        ≡ (replied none, db)
  unfolding text_eq
  refresh_delegation-expired swept fresh id now later u k db h =
      not_renewed_without swept fresh id later _ db (
        old_claims-failed later _ (codes "ERR_JWT_EXPIRED")
          (laws.expired (ticket_claims u k) agent_audience delegation_max_age _ _ refl h) refl)
