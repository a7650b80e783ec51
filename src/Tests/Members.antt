-- ===== src/Tests/Members.antt =====
-- The theorems on accounts at a concrete shop with one customer, and a token package that keeps the
-- claims and the time of expiry in the open.
use clock.Accounts.{
  Accounts, Bcrypt, Claims, IsJose, Jose, User, customer, denied, failed, not_signed_in, replied,
  verified,
}
use clock.Accounts.Guards.{
  Cookies, admin_only, optional_session, read_session, required_auth, verified_user,
}
use clock.Accounts.Laws.{logout-forever}
use clock.Accounts.Renewal.{refresh_delegation-once}
use clock.Accounts.Requests.{logout}
use clock.Accounts.Service.{
  issue_delegation, login, normalize_email, old_claims, refresh_delegation, renewable, ticket_key,
  to_public, update_profile,
}
use clock.Accounts.Session.{
  SessionUser, claimed_user, delegation_max_age, session_user, sign_delegation, sign_session,
  verify_session_token,
}
use clock.Accounts.Steps.{by_profile, run_start, run_step}
use clock.Accounts.Tickets.{login-required_auth}
use clock.Base.{
  Bool, Option, Option-cases, [], ap, arith, false, if◌then◌else◌, inl, inr, leb, none, not, refl,
  some, sym, true, ℕ, ◌+◌, ◌∙◌, ◌∷◌, ◌≡◌, ◌≢◌,
}
use clock.Text.{
  Text, codes, eq_of_text_eq, is_space, lower, text_eq, text_eq_refl, to_lower_case, trim, trim_end,
  trim_start,
}

abbrev ToyToken : Type 0
ToyToken = Claims × ℕ

aud_fits : Option Text → Claims → Bool
unfolding text_eq
aud_fits none c = true
aud_fits (some a) c = elim c.aud [ none ↦ false | some b ↦ text_eq b a ]

abbrev toy_jose : Jose ToyToken
toy_jose = record {
  sign = λ c ttl now. (c, now + ttl);
  verify = λ a now t.
      if not (aud_fits a t.0)
      then failed (codes "ERR_JWT_CLAIM_VALIDATION_FAILED")
      else if leb t.1 now
      then failed (codes "ERR_JWT_EXPIRED")
      else verified t.0;
  decode = λ t. some t.0;
}

aud_fits-some : (a : Text) (c : Claims) → aud_fits (some a) c ≡ true → c.aud ≡ some a
unfolding aud_fits
aud_fits-some a c h = elim (Option-cases c.aud) [
  | inl n ↦ absurd (ground (arith, h, n))
  | inr (b, e) ↦ e ∙ ap (λ (t : Text). some t) (eq_of_text_eq b a (ground (arith, h, e)))
]

some-aud_fits : (a : Text) (c : Claims) → c.aud ≡ some a → aud_fits (some a) c ≡ true
unfolding aud_fits
some-aud_fits a c h = ground (arith, h, text_eq_refl a)

toy-verified :
    (a : Option Text) (now : ℕ) (t : ToyToken) (c : Claims)
    → toy_jose.verify a now t ≡ verified c
    → (t.0 ≡ c) × (aud_fits a t.0 ≡ true)
toy-verified a now t c h = (ground arith, ground arith)

toy_jose-IsJose : IsJose toy_jose
unfolding aud_fits
toy_jose-IsJose = record {
  audience = λ a now t c h.
      let (e, f) = toy-verified (some a) now t c h in aud_fits-some a c (rw (sym e) f);
  payload = λ a b now later t c d h k.
      sym ((toy-verified a now t c h).0) ∙ (toy-verified b later t d k).0;
  signed = λ c ttl now later l. ground arith;
  signed_for = λ c a ttl now later e l. let f = some-aud_fits a c e in ground (arith, f);
  expired = λ c a ttl now later e l. let f = some-aud_fits a c e in ground (arith, f);
}

abbrev toy_bcrypt : Bcrypt
toy_bcrypt = record { compare = text_eq; hash = λ p. p }

abbrev an : User
an = record {
  id = 1;
  email = codes "an@aurel.vn";
  name = none;
  password_hash = some (codes "matkhau");
  role = customer;
  token_version = 0;
  created_at = 0;
}

abbrev members : Accounts
members = record { users = an ∷ []; keys = []; next_user = 2 }

abbrev an_token : ToyToken
an_token = sign_session toy_jose an 0

abbrev an_cookies : Cookies ToyToken
an_cookies = record { session = some an_token; delegation = none }

abbrev an_session : SessionUser
an_session = record {
  id = 1;
  email = codes "an@aurel.vn";
  role = codes "CUSTOMER";
  v = 0;
  via_agent = false;
  dkey = none;
}

abbrev after_logout : Accounts
after_logout = (update_profile 1 (codes "An") (logout toy_jose 1000 an_cookies members).1).1

logout-forever_example :
    (optional_session toy_jose 5000 an_cookies after_logout ≡ none)
    × (required_auth toy_jose 5000 an_cookies after_logout ≡ denied not_signed_in)
    × (admin_only toy_jose 5000 an_cookies after_logout ≡ denied not_signed_in)
unfolding optional_session read_session verify_session_token session_user claimed_user verified_user
    aud_fits
logout-forever_example =
    logout-forever toy_jose toy_bcrypt 1000 5000 an_cookies an_cookies members after_logout []
      an_session an_session refl (omega arith) (run_step run_start (by_profile 1 (codes "An"))) refl
      refl (omega arith)

abbrev an_ticket : ToyToken
an_ticket = sign_delegation toy_jose an (codes "k1") 0

login-required_auth_example :
    (s : SessionUser) × (required_auth toy_jose 5000 an_cookies members ≡ replied s)
    × (s.id ≡ 1)
    × (codes "an@aurel.vn" ≡ normalize_email (codes " An@Aurel.vn"))
    × (s.via_agent ≡ false)
unfolding login text_eq trim to_lower_case trim_end trim_start is_space lower
login-required_auth_example =
    login-required_auth toy_jose toy_jose-IsJose toy_bcrypt (codes " An@Aurel.vn") (codes "matkhau")
      0 5000 members (to_public an) an_token none (refl, tt) refl (omega arith)

abbrev with_ticket : Accounts
with_ticket = (issue_delegation toy_jose false (codes "k1") 1 0 members).1

abbrev renewed : Accounts
renewed = (refresh_delegation toy_jose true (codes "k2") 1 an_ticket 60_000 with_ticket).1

k2_is_new : codes "k2" ≢ codes "k1"
k2_is_new e = absurd (ground (arith, ap (λ (t : Text). text_eq t (codes "k1")) e))

refresh_delegation-once_example :
    refresh_delegation toy_jose false (codes "k3") 1 an_ticket 61_000 renewed
    ≡ (replied none, renewed)
unfolding old_claims ticket_key refresh_delegation issue_delegation renewable aud_fits text_eq
refresh_delegation-once_example =
    refresh_delegation-once toy_jose toy_bcrypt (codes "k1") true false (codes "k2") (codes "k3") 1
      1 an_ticket an_ticket 60_000 61_000 with_ticket renewed []
      (sign_delegation toy_jose an (codes "k2") 60_000, delegation_max_age) refl refl run_start
      (k2_is_new, tt) refl
