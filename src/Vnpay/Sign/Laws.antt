-- ===== src/Vnpay/Sign/Laws.antt =====
-- What a signature of this shop is worth when it comes back.
use clock.Base.{Bool, [], all, arith, false, is_empty, not, refl, true, ◌++◌, ◌||◌, ◌↔◌, ◌∷◌, ◌≡◌}
use clock.Text.{Text, text_eq, text_eq_iff, text_eq_refl, to_lower_case}
use clock.Vnpay.Sign.{
  Params, param, secure_hash, secure_hash_type, sign_params, signed_part, verify_return,
}

-- No parameter of the list is one of the two that are left out of the signature.
abbrev pub is_signed : Text × Text → Bool
is_signed p = not (text_eq p.0 secure_hash || text_eq p.0 secure_hash_type)

signed_part-all : (ps : Params) → all is_signed ps ≡ true → signed_part ps ≡ ps
unfolding signed_part
signed_part-all [] h = refl
signed_part-all (p ∷ ps) h = ground (arith, signed_part-all ps)

signed_part-append :
    (ps : Params) (hash : Text)
    → all is_signed ps ≡ true
    → signed_part (ps ++ ((secure_hash, hash) ∷ [])) ≡ ps
unfolding signed_part
signed_part-append [] hash h = ground (arith, text_eq_refl secure_hash)
signed_part-append (p ∷ ps) hash h = ground (arith, signed_part-append ps hash)

param-append :
    (ps : Params) (hash : Text)
    → all is_signed ps ≡ true
    → param secure_hash (ps ++ ((secure_hash, hash) ∷ [])) ≡ hash
unfolding param
param-append [] hash h = ground (arith, text_eq_refl secure_hash)
param-append ((k, v) ∷ ps) hash h = ground (arith, param-append ps hash)

-- With a secret that is not empty, a callback with signed parameters (none of them a hash entry) and a hash at the end verifies exactly when the hash is the one that the shop signs these parameters with, in upper or lower case.
pub verify_return-sign_params :
    (hmac : Text → Text → Text) (secret : Text) (params : Params) (hash : Text)
    → is_empty secret ≡ false
    → all is_signed params ≡ true
    → (verify_return hmac secret (params ++ ((secure_hash, hash) ∷ [])) ≡ true)
      ↔ (to_lower_case hash ≡ to_lower_case (sign_params hmac params secret).1)
unfolding verify_return
verify_return-sign_params hmac secret params hash keyed plain =
    rw (keyed, signed_part-append params hash plain, param-append params hash plain)
      (text_eq_iff (to_lower_case hash) (to_lower_case (sign_params hmac params secret).1))
