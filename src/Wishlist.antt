-- ===== src/Wishlist.antt =====
-- backend/src/wishlist/wishlist.service.ts: the pieces that a user likes, by slug. A table lists
-- its newest row first.
pub mod Client
pub mod Guest
pub mod Laws
pub mod Sync
use clock.Base.{
  Bool, List, Option, [], any, get_or, if◌then◌else◌, is_empty, none, some, take, ℕ, ◌&&◌, ◌==◌,
  ◌∷◌,
}
use clock.Db.Rows.{delete_where}
use clock.Text.{Text, text_eq, trim}

pub record WishlistItem : Type 0 where
  pub user_id : ℕ
  pub product_slug : Text

abbrev pub is_wish : ℕ → Text → WishlistItem → Bool
is_wish user slug r = r.user_id == user && text_eq r.product_slug slug

-- `list`
unfoldable pub wished_slugs : ℕ → List WishlistItem → List Text
wished_slugs user [] = []
wished_slugs user (r ∷ rows) =
    let rest = wished_slugs user rows in if r.user_id == user then r.product_slug ∷ rest else rest

-- `prev.filter((s) => s !== slug)`
unfoldable pub without : Text → List Text → List Text
unfolding text_eq
without slug [] = []
without slug (s ∷ ss) = let rest = without slug ss in if text_eq s slug then rest else s ∷ rest

-- `[...new Set(slugs)]`: the first of equal elements
unfoldable pub unique_slugs : List Text → List Text
unfolding without
unique_slugs [] = []
unique_slugs (s ∷ ss) = s ∷ without s (unique_slugs ss)

-- `slugs.map((s) => String(s ?? '').trim()).filter(Boolean)`
unfoldable pub trimmed_slugs : List (Option Text) → List Text
unfolding trim
trimmed_slugs [] = []
trimmed_slugs (s ∷ ss) =
    let rest = trimmed_slugs ss in
    let slug = trim (get_or s []) in if is_empty slug then rest else slug ∷ rest

-- `none` is a body whose `slugs` is no array.
unfoldable pub clean_slugs : Option (List (Option Text)) → List Text
unfolding unique_slugs trimmed_slugs
clean_slugs none = []
clean_slugs (some slugs) = take 200 (unique_slugs (trimmed_slugs slugs))

-- `createMany` with `skipDuplicates`: a row that the unique_slugs key (user, slug) forbids is left out.
unfoldable pub create_wishes : ℕ → List Text → List WishlistItem → List WishlistItem
unfolding text_eq
create_wishes user [] rows = rows
create_wishes user (s ∷ ss) rows =
    create_wishes user ss (
      if any (is_wish user s) rows
      then rows
      else record { user_id = user; product_slug = s } ∷ rows)

-- `merge` and `remove` answer the list afterwards, which stands in the state that they leave.
unfoldable pub merge_wishes :
    ℕ → Option (List (Option Text)) → List WishlistItem → List WishlistItem
unfolding clean_slugs create_wishes
merge_wishes user slugs rows = create_wishes user (clean_slugs slugs) rows

unfoldable pub remove_wish : ℕ → Text → List WishlistItem → List WishlistItem
unfolding text_eq
remove_wish user slug rows = delete_where (is_wish user slug) rows
