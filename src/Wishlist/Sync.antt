-- ===== src/Wishlist/Sync.antt =====
-- The list of the pages and the server's list: clicks and their requests keep them alike.
use clock.Base.{
  All, Bool-cases, List, [], arith, false, if◌then◌else◌, inl, inr, is_empty, none, not, refl, some,
  ℕ, ◌&&◌, ◌==◌, ◌∙◌, ◌∷◌, ◌≡◌, ◌≢◌,
}
use clock.Orders.Create.Input.{trimmed}
use clock.Text.{Text, includes, text_eq, text_eq_iff, text_eq_refl, trim}
use clock.Wishlist.{WishlistItem, clean_slugs, trimmed_slugs, unique_slugs, wished_slugs, without}
use clock.Wishlist.Client.{
  WishState, delete_slug, persist, remove_slug, serve, toggle, toggle_request, toggle_slugs,
}
use clock.Wishlist.Laws.{
  includes-append, includes-without, merge_wishes-includes, remove_wish-includes,
}

abbrev pub Agrees : ℕ → WishState → List WishlistItem → Type 0
Agrees user st rows = (s : Text) → includes st.slugs s ≡ includes (wished_slugs user rows) s

-- A slug as the products have them: no white space around it, and not empty.
abbrev pub IsSlug : Text → Type 0
IsSlug slug = (trim slug ≡ slug) × (is_empty slug ≡ false)

pub data Click : Type 0 where
  on_toggle : Text → Click
  on_remove : Text → Click

abbrev pub clicked_slug : Click → Text
clicked_slug (on_toggle slug) = slug
clicked_slug (on_remove slug) = slug

-- One click of a signed-in user, and its request served
unfoldable pub click : ℕ → Click → WishState × List WishlistItem → WishState × List WishlistItem
unfolding toggle remove_slug serve
click user (on_toggle slug) (st, rows) =
    let (st', request) = toggle slug st in
    (st', elim request [ none ↦ rows | some q ↦ serve user q rows ])
click user (on_remove slug) (st, rows) =
    let (st', request) = remove_slug slug st in
    (st', elim request [ none ↦ rows | some q ↦ serve user q rows ])

-- The clicks of a visit, the first one first; the requests arrive in their order.
unfoldable pub clicks :
    ℕ → List Click → WishState × List WishlistItem → WishState × List WishlistItem
unfolding click
clicks user [] w = w
clicks user (c ∷ cs) w = clicks user cs (click user c w)

clean_slugs-one : (slug : Text) → IsSlug slug → clean_slugs (some (some slug ∷ [])) ≡ slug ∷ []
unfolding clean_slugs unique_slugs without trimmed_slugs
clean_slugs-one slug (trimmed, filled) = rw (trimmed, filled) refl

serve-toggle_request :
    (user other : ℕ) (slug : Text) (prev : List Text) (rows : List WishlistItem) (s : Text)
    → IsSlug slug
    → includes
        (wished_slugs other (serve user (toggle_request slug (toggle_slugs slug prev)) rows))
        s
      ≡ (if user == other && text_eq slug s
          then not (includes prev slug)
          else includes (wished_slugs other rows) s)
unfolding serve toggle_request toggle_slugs includes
serve-toggle_request user other slug prev rows s is_slug = elim (Bool-cases (includes prev slug)) [
  | inl old ↦ rw old (
      ground (
        arith,
        includes-without slug prev slug,
        text_eq_refl slug,
        remove_wish-includes user other slug rows s,
      ))
  | inr new ↦ rw new (
      ground (
        arith,
        includes-append prev (slug ∷ []) slug,
        text_eq_refl slug,
        clean_slugs-one slug is_slug,
        merge_wishes-includes user other (some (some slug ∷ [])) rows s,
      ))
]

serve-delete_slug :
    (user other : ℕ) (slug : Text) (rows : List WishlistItem) (s : Text)
    → includes (wished_slugs other (serve user (delete_slug slug) rows)) s
      ≡ (includes (wished_slugs other rows) s && not (user == other && text_eq slug s))
unfolding serve
serve-delete_slug user other slug rows s = remove_wish-includes user other slug rows s

includes-toggle_slugs :
    (slug : Text) (prev : List Text) (s : Text)
    → includes (toggle_slugs slug prev) s
      ≡ (if text_eq slug s then not (includes prev slug) else includes prev s)
unfolding toggle_slugs includes
includes-toggle_slugs slug prev s = elim (Bool-cases (includes prev slug)) [
  | inl old ↦ rw old (ground (arith, includes-without slug prev s))
  | inr new ↦ rw new (ground (arith, new, includes-append prev (slug ∷ []) s, text_eq_iff slug s))
]

user-click :
    (user : ℕ) (c : Click) (st : WishState) (rows : List WishlistItem)
    → st.user ≡ some user
    → (click user c (st, rows)).0.user ≡ some user
unfolding click toggle remove_slug persist
user-click user (on_toggle slug) st rows u = ground (arith, u)
user-click user (on_remove slug) st rows u = ground (arith, u)

click-Agrees :
    (user : ℕ) (c : Click) (st : WishState) (rows : List WishlistItem)
    → st.user ≡ some user
    → IsSlug (clicked_slug c)
    → Agrees user st rows
    → Agrees user (click user c (st, rows)).0 (click user c (st, rows)).1
unfolding click toggle remove_slug persist
click-Agrees user (on_toggle slug) st rows u is_slug same s = rw u (
    ground (
      arith,
      u,
      same s,
      same slug,
      includes-toggle_slugs slug st.slugs s,
      serve-toggle_request user user slug st.slugs rows s is_slug,
    ))
click-Agrees user (on_remove slug) st rows u is_slug same s = rw u (
    ground
      (arith, u, same s, includes-without slug st.slugs s, serve-delete_slug user user slug rows s))

click-other :
    (user other : ℕ) (c : Click) (st : WishState) (rows : List WishlistItem) (s : Text)
    → st.user ≡ some user
    → user ≢ other
    → IsSlug (clicked_slug c)
    → includes (wished_slugs other (click user c (st, rows)).1) s
      ≡ includes (wished_slugs other rows) s
unfolding click toggle remove_slug
click-other user other (on_toggle slug) st rows s u differ is_slug =
    ground (arith, u, differ, serve-toggle_request user other slug st.slugs rows s is_slug)
click-other user other (on_remove slug) st rows s u differ is_slug =
    ground (arith, u, differ, serve-delete_slug user other slug rows s)

-- After any clicks of a signed-in user, with their requests served in order, the list that the
-- pages show has the slugs of the user's list on the server if it had them before, and the list of
-- any other user has the slugs that it had.
pub clicks-Agrees :
    (user other : ℕ) (cs : List Click) (st : WishState) (rows : List WishlistItem)
    → user ≢ other
    → st.user ≡ some user
    → All (λ c. IsSlug (clicked_slug c)) cs
    → Agrees user st rows
    → Agrees user (clicks user cs (st, rows)).0 (clicks user cs (st, rows)).1
      × ((s : Text)
          → includes (wished_slugs other (clicks user cs (st, rows)).1) s
            ≡ includes (wished_slugs other rows) s)
unfolding clicks
clicks-Agrees user other [] st rows differ u slugs same = (same, λ s. refl)
clicks-Agrees user other (c ∷ cs) st rows differ u (is_slug, slugs) same =
    let (st', rows') = click user c (st, rows) in
    let rest =
      clicks-Agrees user other cs st' rows' differ (user-click user c st rows u) slugs
        (click-Agrees user c st rows u is_slug same) in
    (rest.0, λ s. rest.1 s ∙ click-other user other c st rows s u differ is_slug)
