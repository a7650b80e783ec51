-- ===== src/Wishlist/Guest.antt =====
-- A guest's list at a sign-in.
use clock.Base.{
  All, Bool, List, [], ap, arith, false, if◌then◌else◌, length, map, refl, some, suc, take, true,
  zero, ℕ, ◌||◌, ◌∷◌, ◌≡◌, ◌≤◌,
}
use clock.Orders.Create.Input.{trimmed}
use clock.Text.{Text, includes}
use clock.Wishlist.{WishlistItem, clean_slugs, trimmed_slugs, unique_slugs, wished_slugs, without}
use clock.Wishlist.Client.{
  MergeReply, WishState, merge_answered, merge_not_made, merge_reply_lost, post_merge, serve,
  sign_in, sign_out,
}
use clock.Wishlist.Laws.{includes-unique_slugs, merge_wishes-includes}
use clock.Wishlist.Sync.{IsSlug}

trimmed_slugs-slugs : (ss : List Text) → All IsSlug ss → trimmed_slugs (map some ss) ≡ ss
unfolding trimmed_slugs
trimmed_slugs-slugs [] h = refl
trimmed_slugs-slugs (s ∷ ss) ((trimmed, filled), h) =
    rw (trimmed, filled) (ap (λ (t : List Text). s ∷ t) (trimmed_slugs-slugs ss h))

take-all : (n : ℕ) (ss : List Text) → length ss ≤ n → take n ss ≡ ss
take-all zero [] h = refl
take-all zero (s ∷ ss) h = absurd (omega arith)
take-all (suc n) [] h = refl
take-all (suc n) (s ∷ ss) h = ap (λ (t : List Text). s ∷ t) (take-all n ss (omega arith))

length-without : (slug : Text) (ss : List Text) → length (without slug ss) ≤ length ss
unfolding without
length-without slug [] = omega arith
length-without slug (s ∷ ss) = ground (arith, length-without slug ss)

length-unique_slugs : (ss : List Text) → length (unique_slugs ss) ≤ length ss
unfolding unique_slugs
length-unique_slugs [] = omega arith
length-unique_slugs (s ∷ ss) =
    omega (arith, length-without s (unique_slugs ss), length-unique_slugs ss)

includes-clean_slugs :
    (ss : List Text) (s : Text)
    → All IsSlug ss
    → length ss ≤ 200
    → includes (clean_slugs (some (map some ss))) s ≡ includes ss s
unfolding clean_slugs
includes-clean_slugs ss s slugs fits =
    rw
      (
        trimmed_slugs-slugs ss slugs,
        take-all 200 (unique_slugs ss) (omega (arith, length-unique_slugs ss)),
      )
      (includes-unique_slugs ss s)

-- The server after it has merged the guest's list
served-includes :
    (user : ℕ) (st : WishState) (rows : List WishlistItem) (s : Text)
    → All IsSlug st.stored
    → length st.stored ≤ 200
    → includes (wished_slugs user (serve user (post_merge st.stored) rows)) s
      ≡ (includes (wished_slugs user rows) s || includes st.stored s)
unfolding serve
served-includes user st rows s slugs fits = ground (
  arith,
  merge_wishes-includes user user (some (map some st.stored)) rows s,
  includes-clean_slugs st.stored s slugs fits,
)

abbrev pub is_merge_answered : MergeReply → Bool
is_merge_answered merge_answered = true
is_merge_answered _ = false

-- The user signs out, and in again, and this time the server answers.
abbrev pub sign_in_again : ℕ → WishState × List WishlistItem → WishState × List WishlistItem
sign_in_again user (st, rows) = sign_in user merge_answered (sign_out st) rows

sign_in_again-includes :
    (user : ℕ) (st : WishState) (rows : List WishlistItem) (s : Text)
    → All IsSlug st.stored
    → length st.stored ≤ 200
    → includes (sign_in_again user (st, rows)).0.slugs s
      ≡ (includes (wished_slugs user rows) s || includes st.stored s)
unfolding sign_in sign_out
sign_in_again-includes user st rows s slugs fits =
    served-includes user (sign_out st) rows s slugs fits

-- A guest with at most 200 slugs signs in, and the request is answered, or only its reply is lost, or
-- it is not made at all. In each case the server and the storage together have the slugs that they had
-- before, and no other. If there is an answer, the pages show the server's list and the storage is
-- empty; if not, the list and the storage are as they were. And in each case, when the user signs out
-- and in again and is answered, the pages show the slugs that the server and the guest had at first.
pub sign_in-keeps :
    (user : ℕ) (got : MergeReply) (st : WishState) (rows : List WishlistItem) (s : Text)
    → All IsSlug st.stored
    → length st.stored ≤ 200
    → let out = sign_in user got st rows in
      let both = includes (wished_slugs user rows) s || includes st.stored s in
      ((includes (wished_slugs user out.1) s || includes out.0.stored s) ≡ both)
      × (if is_merge_answered got
          then ((out.0.slugs ≡ wished_slugs user out.1) × (out.0.stored ≡ []))
          else (out.0 ≡ record st { user = some user }))
      × (includes (sign_in_again user out).0.slugs s ≡ both)
unfolding sign_in includes
sign_in-keeps user merge_answered st rows s slugs fits =
    let out = sign_in user merge_answered st rows in
    let merged = served-includes user st rows s slugs fits in
    let again = sign_in_again-includes user out.0 out.1 s tt (omega arith) in
    (ground (arith, merged), (refl, refl), ground (arith, merged, again))
sign_in-keeps user merge_reply_lost st rows s slugs fits =
    let out = sign_in user merge_reply_lost st rows in
    let merged = served-includes user st rows s slugs fits in
    let again = sign_in_again-includes user out.0 out.1 s slugs fits in
    (ground (arith, merged), refl, ground (arith, merged, again))
sign_in-keeps user merge_not_made st rows s slugs fits =
    let out = sign_in user merge_not_made st rows in
    (refl, refl, sign_in_again-includes user out.0 out.1 s slugs fits)
