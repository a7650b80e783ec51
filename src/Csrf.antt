-- ===== src/Csrf.antt =====
-- The check of the double-submitted token: backend/src/common/csrf.middleware.ts.
use clock.Base.{
  Bool, List, Option, [], ap, arith, false, if◌then◌else◌, leb, length, none, not, refl, some, sym,
  true, ◌&&◌, ◌==◌, ◌∙◌, ◌∷◌, ◌≡◌, ◌≤◌,
}
use clock.Text.{Text, codes, eq_of_text_eq, includes, text_eq}

abbrev pub checked_methods : List Text
checked_methods = codes "POST" ∷ codes "PATCH" ∷ codes "PUT" ∷ codes "DELETE" ∷ []

abbrev pub exempt_paths : List Text
exempt_paths = codes "/auth/login" ∷ codes "/auth/register" ∷ codes "/auth/csrf" ∷ []

-- `url.split('?')[0]`
unfoldable before_query : Text → Text
before_query [] = []
before_query (c ∷ s) = let rest = before_query s in if c == b'?' then [] else c ∷ rest

-- A header that is there once is a text; one that is missing equals no cookie.
unfoldable same_token : Option Text → Option Text → Bool
unfolding text_eq
same_token (some cookie) (some header) = leb 16 (length cookie) && text_eq cookie header
same_token _ _ = false

-- Is the request passed on? Otherwise it is forbidden.
unfoldable passes_csrf : Text → Text → Option Text → Option Text → Bool
unfolding before_query same_token includes
passes_csrf method url cookie header =
    if not (includes checked_methods method)
    then true
    else if includes exempt_paths (before_query url)
    then true
    else same_token cookie header

token_of :
    (cookie header : Option Text)
    → same_token cookie header ≡ true
    → (t : Text) × (cookie ≡ some t) × (header ≡ some t) × (16 ≤ length t)
unfolding same_token
token_of none header h = absurd (ground (arith, h))
token_of (some c) none h = absurd (ground (arith, h))
token_of (some c) (some d) h =
    let same : text_eq c d ≡ true = ground (arith, h) in
    (c, refl, ap (λ (t : Text). some t) (sym (eq_of_text_eq c d same)), ground (arith, h))

-- A request that is checked, of a path that is not exempt, passes only with a cookie of 16 characters or
-- more and the same text in the header.
passes_csrf-token :
    (method url : Text) (cookie header : Option Text)
    → includes checked_methods method ≡ true
    → includes exempt_paths (before_query url) ≡ false
    → passes_csrf method url cookie header ≡ true
    → (t : Text) × (cookie ≡ some t) × (header ≡ some t) × (16 ≤ length t)
unfolding passes_csrf
passes_csrf-token method url cookie header m p h =
    let checked : passes_csrf method url cookie header ≡ same_token cookie header =
      rw (m, p) refl in
    token_of cookie header (sym checked ∙ h)
