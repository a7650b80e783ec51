-- ===== src/Accounts/Session.antt =====
-- The tokens of backend/src/common/session.ts: the session of a browser, which lives for 7 days, and
-- the ticket (delegation) of a shopping agent, which lives for 30 minutes.
use clock.Accounts.{Claims, Jose, User, Verified, and_then, customer, failed, role_text, verified}
use clock.Base.{
  Bool, Option, [], all, false, get_or, if◌then◌else◌, is_some, leb, length, none, not, some, true,
  ℕ, ◌&&◌, ◌*◌, ◌+◌, ◌/◌, ◌==◌, ◌||◌, ◌∷◌,
}
use clock.Text.{Text, codes, text_eq, trim}

abbrev pub session_max_age : ℕ
session_max_age = 60 * 60 * 24 * 7

abbrev pub delegation_max_age : ℕ
delegation_max_age = 60 * 30

abbrev pub agent_audience : Text
agent_audience = codes "aurel-agent"

abbrev pub shop_scope : Text
shop_scope = codes "shop-on-behalf"

pub record SessionUser : Type 0 where
  pub id : ℕ
  pub email : Text
  pub role : Text
  pub v : ℕ
  pub via_agent : Bool
  pub dkey : Option Text

abbrev pub session_claims : User → Claims
session_claims u = record {
  sub = some u.id;
  email = some u.email;
  role = some (role_text u.role);
  v = some u.token_version;
  aud = none;
  scope = none;
  dkey = none;
}

abbrev pub ticket_claims : User → Text → Claims
ticket_claims u k = record (session_claims u) {
  aud = some agent_audience;
  scope = some shop_scope;
  dkey = some k;
}

-- The user of a payload, if it names one.
unfoldable pub claimed_user : Bool → Claims → Option SessionUser
claimed_user via c = and_then c.sub (λ id. and_then c.email (λ email. some (record {
  id = id;
  email = email;
  role = get_or c.role (role_text customer);
  v = get_or c.v 0;
  via_agent = via;
  dkey = if via then c.dkey else none;
})))

-- A payload with an audience or a scope is no session's.
unfoldable pub session_user : Claims → Option SessionUser
session_user c = if is_some c.aud || is_some c.scope then none else claimed_user false c

abbrev pub is_scope : Option Text → Bool
is_scope none = false
is_scope (some s) = text_eq s shop_scope

unfoldable pub ticket_user : Claims → Option SessionUser
ticket_user c = if is_scope c.scope then claimed_user true c else none

abbrev pub verified_claims : Verified → Option Claims
verified_claims (verified c) = some c
verified_claims (failed code) = none

-- A time in milliseconds, in seconds
abbrev pub seconds : ℕ → ℕ
seconds now = now / 1000

-- `^[a-z_]{1,32}\/[A-Za-z0-9_.:@-]{1,96}$`: the first part, and what follows the slash
unfoldable pub is_actor_name : ℕ → Bool
is_actor_name c =
    (leb b'A' c && leb c b'Z')
    || (leb b'a' c && leb c b'z')
    || (leb b'0' c && leb c b'9')
    || c == b'_'
    || c == b'.'
    || c == b':'
    || c == b'@'
    || c == b'-'

unfoldable pub is_actor : ℕ → Text → Bool
is_actor n [] = false
is_actor n (c ∷ s) =
    let rest = is_actor (n + 1) s in
    if c == b'/'
    then leb 1 n && leb n 32 && leb 1 (length s) && leb (length s) 96 && all is_actor_name s
    else ((leb b'a' c && leb c b'z') || c == b'_') && rest

-- Whom the audit trail names: a user, or what an agent says that it is.
pub data Actor : Type 0 where
  by_user : ℕ → Actor
  by_agent : Text → Actor

unfoldable pub resolve_actor : Option SessionUser → Option Text → Option Actor
resolve_actor none raw = none
resolve_actor (some u) raw =
    let claimed = trim (get_or raw []) in
    if not u.via_agent
    then some (by_user u.id)
    else if is_actor 0 claimed
    then some (by_agent claimed)
    else some (by_user u.id)

module _ {Token : Type 0} (jose : Jose Token) where
  -- The time is in milliseconds.
  abbrev pub sign_session : User → ℕ → Token
  sign_session u now = jose.sign (session_claims u) session_max_age (seconds now)

  abbrev pub sign_delegation : User → Text → ℕ → Token
  sign_delegation u k now = jose.sign (ticket_claims u k) delegation_max_age (seconds now)

  -- An absent or empty token is `none`; an error of `jwtVerify` gives null.
  unfoldable pub verify_session_token : ℕ → Option Token → Option SessionUser
  verify_session_token now token =
      and_then token
        (λ t. and_then (verified_claims (jose.verify none (seconds now) t)) session_user)

  unfoldable pub verify_delegation_token : ℕ → Option Token → Option SessionUser
  verify_delegation_token now token = and_then token (λ t.
      and_then (verified_claims (jose.verify (some agent_audience) (seconds now) t)) ticket_user)
