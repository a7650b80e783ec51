-- ===== src/Wishlist/Client.antt =====
-- src/components/WishlistProvider.tsx: the list that the pages show, what the browser's storage
-- keeps for a guest, and the requests to the server.
use clock.Base.{List, Option, [], if◌then◌else◌, is_some, map, none, some, ℕ, ◌++◌, ◌∷◌}
use clock.Text.{Text, includes}
use clock.Wishlist.{WishlistItem, merge_wishes, remove_wish, wished_slugs, without}

pub data WishRequest : Type 0 where
  -- POST /wishlist/merge
  post_merge : List Text → WishRequest
  -- DELETE /wishlist/:slug
  delete_slug : Text → WishRequest

pub record WishState : Type 0 where
  pub slugs : List Text
  -- `aurel-wishlist` in the browser's storage
  pub stored : List Text
  -- `prevUser` after the effects: the user that is signed in
  pub user : Option ℕ

-- The effect that keeps a guest's list in the storage
unfoldable pub persist : WishState → WishState
persist st = if is_some st.user then st else record st { stored = st.slugs }

-- `toggle`, as an update of the list and the request that goes with it for a user
unfoldable pub toggle_slugs : Text → List Text → List Text
unfolding includes without
toggle_slugs slug prev = if includes prev slug then without slug prev else prev ++ (slug ∷ [])

unfoldable pub toggle_request : Text → List Text → WishRequest
unfolding includes
toggle_request slug next = if includes next slug then post_merge (slug ∷ []) else delete_slug slug

unfoldable pub toggle : Text → WishState → WishState × Option WishRequest
unfolding persist toggle_slugs toggle_request
toggle slug st =
    let next = toggle_slugs slug st.slugs in
    (
      persist (record st { slugs = next }),
      if is_some st.user then some (toggle_request slug next) else none,
    )

unfoldable pub remove_slug : Text → WishState → WishState × Option WishRequest
unfolding persist without
remove_slug slug st = (
  persist (record st { slugs = without slug st.slugs }),
  if is_some st.user then some (delete_slug slug) else none,
)

-- The server's side of a request of the signed-in user. An element of a request is a text.
unfoldable pub serve : ℕ → WishRequest → List WishlistItem → List WishlistItem
unfolding merge_wishes remove_wish
serve user (post_merge slugs) rows = merge_wishes user (some (map some slugs)) rows
serve user (delete_slug slug) rows = remove_wish user slug rows

-- What becomes of the request at a sign-in
pub data MergeReply : Type 0 where
  merge_answered : MergeReply
  -- the server merges, but its reply is lost or cannot be read
  merge_reply_lost : MergeReply
  -- the request is lost, or the server refuses it
  merge_not_made : MergeReply

-- The effect at a sign-in: the guest's list is merged into the server's. If no good reply comes, the
-- list stays as it is and so does the storage.
unfoldable pub sign_in :
    ℕ → MergeReply → WishState → List WishlistItem → WishState × List WishlistItem
unfolding serve wished_slugs
sign_in user merge_answered st rows =
    let rows' = serve user (post_merge st.stored) rows in
    (record { slugs = wished_slugs user rows'; stored = []; user = some user }, rows')
sign_in user merge_reply_lost st rows =
    (record st { user = some user }, serve user (post_merge st.stored) rows)
sign_in user merge_not_made st rows = (record st { user = some user }, rows)

-- The effect at a sign-out: back to the guest's list
unfoldable pub sign_out : WishState → WishState
sign_out st = record { slugs = st.stored; stored = st.stored; user = none }
