-- ===== src/Wishlist/Laws.antt =====
-- Which slugs are in a list after the list operations of the wishlist.
use clock.Base.{
  Bool-cases, List, Option, [], any, arith, inl, inr, not, refl, sym, true, ℕ, ◌&&◌, ◌++◌, ◌==◌,
  ◌||◌, ◌∷◌, ◌≡◌,
}
use clock.Text.{Text, includes, text_eq, text_eq_iff}
use clock.Wishlist.{
  WishlistItem, clean_slugs, create_wishes, is_wish, merge_wishes, remove_wish, unique_slugs,
  wished_slugs, without,
}

pub includes-without :
    (slug : Text) (xs : List Text) (s : Text)
    → includes (without slug xs) s ≡ (not (text_eq slug s) && includes xs s)
unfolding includes without
includes-without slug [] s = ground arith
includes-without slug (x ∷ xs) s =
    ground
      (arith, includes-without slug xs s, text_eq_iff x slug, text_eq_iff x s, text_eq_iff slug s)

pub includes-append :
    (xs ys : List Text) (s : Text) → includes (xs ++ ys) s ≡ (includes xs s || includes ys s)
unfolding includes
includes-append [] ys s = refl
includes-append (x ∷ xs) ys s = ground (arith, includes-append xs ys s)

pub includes-unique_slugs :
    (xs : List Text) (s : Text) → includes (unique_slugs xs) s ≡ includes xs s
unfolding includes unique_slugs
includes-unique_slugs [] s = refl
includes-unique_slugs (x ∷ xs) s =
    ground (arith, includes-without x (unique_slugs xs) s, includes-unique_slugs xs s)

-- A row of the user for the slug is there just if the slug is in the user's list.
pub includes-wished_slugs :
    (user : ℕ) (s : Text) (rows : List WishlistItem)
    → includes (wished_slugs user rows) s ≡ any (is_wish user s) rows
unfolding includes wished_slugs
includes-wished_slugs user s [] = refl
includes-wished_slugs user s (r ∷ rows) = ground (arith, includes-wished_slugs user s rows)

any_wish-congr :
    (user other : ℕ) (x s : Text) (rows : List WishlistItem)
    → any (is_wish user x) rows ≡ true
    → user ≡ other
    → x ≡ s
    → any (is_wish other s) rows ≡ true
any_wish-congr user other x s rows h e f = rw (sym e, sym f) h

any_wish-create_wishes :
    (user other : ℕ) (ss : List Text) (rows : List WishlistItem) (s : Text)
    → any (is_wish other s) (create_wishes user ss rows)
      ≡ (any (is_wish other s) rows || (user == other && includes ss s))
unfolding includes create_wishes
any_wish-create_wishes user other [] rows s = ground arith
any_wish-create_wishes user other (x ∷ xs) rows s = elim (Bool-cases (any (is_wish user x) rows)) [
  | inl old ↦ rw old (
      ground (
        arith,
        any_wish-create_wishes user other xs rows s,
        any_wish-congr user other x s rows,
        text_eq_iff x s,
        old,
      ))
  | inr new ↦ rw new (
      ground (
        arith,
        any_wish-create_wishes user other xs (record { user_id = user; product_slug = x } ∷ rows) s,
      ))
]

any_wish-remove_wish :
    (user other : ℕ) (slug : Text) (rows : List WishlistItem) (s : Text)
    → any (is_wish other s) (remove_wish user slug rows)
      ≡ (any (is_wish other s) rows && not (user == other && text_eq slug s))
unfolding remove_wish
any_wish-remove_wish user other slug [] s = ground arith
any_wish-remove_wish user other slug (r ∷ rows) s = ground (
  arith,
  any_wish-remove_wish user other slug rows s,
  text_eq_iff r.product_slug slug,
  text_eq_iff r.product_slug s,
  text_eq_iff slug s,
)

-- After a merge a user's list holds what it held and the clean slugs, and the list of any other
-- user holds what it held.
pub merge_wishes-includes :
    (user other : ℕ) (slugs : Option (List (Option Text))) (rows : List WishlistItem) (s : Text)
    → includes (wished_slugs other (merge_wishes user slugs rows)) s
      ≡ (includes (wished_slugs other rows) s || (user == other && includes (clean_slugs slugs) s))
unfolding merge_wishes
merge_wishes-includes user other slugs rows s = ground (
  arith,
  any_wish-create_wishes user other (clean_slugs slugs) rows s,
  includes-wished_slugs other s rows,
  includes-wished_slugs other s (create_wishes user (clean_slugs slugs) rows),
)

-- After a removal the slug is in the user's list no more, and nothing else has changed.
pub remove_wish-includes :
    (user other : ℕ) (slug : Text) (rows : List WishlistItem) (s : Text)
    → includes (wished_slugs other (remove_wish user slug rows)) s
      ≡ (includes (wished_slugs other rows) s && not (user == other && text_eq slug s))
remove_wish-includes user other slug rows s = ground (
  arith,
  any_wish-remove_wish user other slug rows s,
  includes-wished_slugs other s rows,
  includes-wished_slugs other s (remove_wish user slug rows),
)
