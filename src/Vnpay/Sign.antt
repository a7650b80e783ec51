-- ===== src/Vnpay/Sign.antt =====
-- `signParams` and `verifyReturn` of backend/src/common/vnpay.ts.
pub mod Laws
use clock.Base.{
  Bool, List, [], false, if◌then◌else◌, is_empty, ltb, true, ◌&&◌, ◌++◌, ◌==◌, ◌||◌, ◌∷◌,
}
use clock.Text.{Text, codes, text_eq, to_lower_case}
use clock.Vnpay.Encode.{encode}

abbrev pub Params : Type 0
Params = List (Text × Text)

-- The order of JavaScript's `sort` on strings.
unfoldable pub text_le : Text → Text → Bool
text_le [] t = true
text_le (c ∷ s) [] = false
text_le (c ∷ s) (d ∷ t) = ltb c d || (c == d && text_le s t)

unfoldable pub insert_param : Text × Text → Params → Params
unfolding text_le
insert_param p [] = p ∷ []
insert_param p (q ∷ qs) = if text_le p.0 q.0 then p ∷ q ∷ qs else q ∷ insert_param p qs

-- `Object.keys(params).sort()`, with the values
unfoldable pub sort_params : Params → Params
unfolding insert_param
sort_params [] = []
sort_params (p ∷ ps) = insert_param p (sort_params ps)

unfoldable pub query_pair : Text × Text → Text
unfolding encode
query_pair (k, v) = encode k ++ (b'=' ∷ encode v)

-- `.join('&')`
unfoldable pub join_query : Params → Text
unfolding query_pair
join_query [] = []
join_query (p ∷ []) = query_pair p
join_query (p ∷ q ∷ ps) = query_pair p ++ (b'&' ∷ join_query (q ∷ ps))

unfoldable pub sign_params : (Text → Text → Text) → Params → Text → Text × Text
unfolding join_query sort_params
sign_params hmac params secret =
    let query = join_query (sort_params params) in (query, hmac secret query)

-- `params[k] ?? ''`
unfoldable pub param : Text → Params → Text
unfolding text_eq
param k [] = []
param k ((j, v) ∷ ps) = if text_eq j k then v else param k ps

abbrev pub secure_hash : Text
secure_hash = codes "vnp_SecureHash"

abbrev pub secure_hash_type : Text
secure_hash_type = codes "vnp_SecureHashType"

-- Everything but the two entries that are not signed.
unfoldable pub signed_part : Params → Params
unfolding text_eq
signed_part [] = []
signed_part (p ∷ ps) =
    if text_eq p.0 secure_hash || text_eq p.0 secure_hash_type
    then signed_part ps
    else p ∷ signed_part ps

-- An empty secret verifies nothing. (The throw of an unfit environment is the caller's.)
unfoldable pub verify_return : (Text → Text → Text) → Text → Params → Bool
unfolding sign_params signed_part param
verify_return hmac secret params =
    if is_empty secret
    then false
    else text_eq (to_lower_case (param secure_hash params))
        (to_lower_case (sign_params hmac (signed_part params) secret).1)
