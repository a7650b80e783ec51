-- ===== src/Cart/Laws.antt =====
-- What the cart holds after its operations.
use clock.Base.{
  Bool, List, Number, Option, Option-cases, [], ap, arith, finite, get_or, if◌then◌else◌, infinity,
  inl, inr, nan, neg_infinity, none, refl, some, take, true, ℕ, ◌+◌, ◌∷◌, ◌≡◌, ◌≤◌,
}
use clock.Cart.{
  CartInput, cart_batch, cart_line, clamp_qty, input_slug, input_slugs, is_cart_row, lookup_price,
  merge_guest_cart, more_pieces, normalize_line, take_where, upsert, upsert_many,
}
use clock.Db.{CartItem, Db, Product}
use clock.Db.Rows.{count_where, find_where, sum_by}
use clock.Inventory.{has_slug}
use clock.Pricing.{line_price}
use clock.Text.{Text, text_eq_iff, trim}

abbrev pub pieces_in : ℕ → Text → Text → CartItem → ℕ
pieces_in user slug strap r = if is_cart_row user slug strap r then r.qty else 0

-- The pieces of one product with one strap in a user's cart.
unfoldable pub pieces_at : ℕ → Text → Text → List CartItem → ℕ
pieces_at user slug strap rows = sum_by (pieces_in user slug strap) rows

abbrev one_if : (CartItem → Bool) → CartItem → ℕ
one_if p r = if p r then 1 else 0

-- Taking a row out of the table: it meets the test, and any sum over the rows is split.
take_where-some :
    (p : CartItem → Bool) (f : CartItem → ℕ) (rows : List CartItem) (r : CartItem)
    (left : List CartItem)
    → take_where p rows ≡ some (r, left)
    → (p r ≡ true) × (f r + sum_by f left ≡ sum_by f rows)
take_where-some p f [] r left e = absurd (cc)
take_where-some p f (x ∷ rows) r left e = elim (Option-cases (take_where p rows)) [
  | inl none_left ↦ ground arith
  | inr (found, got) ↦ ground (arith, take_where-some p f rows found.0 found.1)
]

-- The sum over the table after an upsert.
sum_by-upsert :
    (f : CartItem → ℕ) (line : CartItem) (rows : List CartItem)
    → ((r : CartItem)
        → is_cart_row line.user_id line.product_slug line.strap r ≡ true
        → f (more_pieces line.qty r) ≡ f r + f line)
    → sum_by f (upsert line rows) ≡ sum_by f rows + f line
unfolding upsert
sum_by-upsert f line rows grows =
    elim (Option-cases (take_where (is_cart_row line.user_id line.product_slug line.strap) rows)) [
      | inl none_there ↦ rw none_there (omega arith)
      | inr (found, got) ↦
          let h =
            take_where-some (is_cart_row line.user_id line.product_slug line.strap) f rows found.0
              found.1 got in
          rw got (ground (arith, grows found.0 h.0, h.1))
    ]

-- An upsert puts the line's pieces into the cart of its user, with its product and strap, and changes no other.
pub pieces_at-upsert :
    (user : ℕ) (slug strap : Text) (line : CartItem) (rows : List CartItem)
    → pieces_at user slug strap (upsert line rows)
      ≡ pieces_at user slug strap rows + pieces_in user slug strap line
unfolding pieces_at
pieces_at-upsert user slug strap line rows =
    sum_by-upsert (pieces_in user slug strap) line rows λ r same.
      ground (arith, text_eq_iff r.product_slug line.product_slug, text_eq_iff r.strap line.strap)

pub pieces_at-upsert_many :
    (user : ℕ) (slug strap : Text) (lines rows : List CartItem)
    → pieces_at user slug strap (upsert_many lines rows)
      ≡ pieces_at user slug strap rows + pieces_at user slug strap lines
unfolding upsert_many
pieces_at-upsert_many user slug strap [] rows = unfold pieces_at in omega arith
pieces_at-upsert_many user slug strap (l ∷ lines) rows =
    let ih = pieces_at-upsert_many user slug strap lines (upsert l rows) in
    let step = pieces_at-upsert user slug strap l rows in
    let split : pieces_at user slug strap (l ∷ lines)
        ≡ pieces_in user slug strap l + pieces_at user slug strap lines =
      unfold pieces_at in refl in
    omega (arith, ih, step, split)

-- The rows of a merge: the lines that are fit, with the prices of the products that are shown.
abbrev pub merged_lines : ℕ → Option (List CartInput) → Db → List CartItem
merged_lines user raw db =
    let items = take 50 (get_or raw []) in
    cart_batch user items (lookup_price (input_slugs items) db.products)

-- A merge loses no piece: of each product with each strap, every user's cart holds afterwards what it held before and what the fit lines bring.
pub merge_guest_cart-pieces :
    (user owner : ℕ) (slug strap : Text) (raw : Option (List CartInput)) (db : Db)
    → pieces_at owner slug strap (merge_guest_cart user raw db).1.cart_items
      ≡ pieces_at owner slug strap db.cart_items
        + pieces_at owner slug strap (merged_lines user raw db)
unfolding merge_guest_cart
merge_guest_cart-pieces user owner slug strap raw db =
    pieces_at-upsert_many owner slug strap (merged_lines user raw db) db.cart_items

count-sum :
    (p : CartItem → Bool) (rows : List CartItem) → count_where p rows ≡ sum_by (one_if p) rows
count-sum p [] = refl
count-sum p (r ∷ rows) = ap (λ n. one_if p r + n) (count-sum p rows)

take_where-none :
    (p : CartItem → Bool) (rows : List CartItem) → take_where p rows ≡ none → count_where p rows ≡ 0
take_where-none p [] e = refl
take_where-none p (r ∷ rows) e = elim (Option-cases (take_where p rows)) [
  | inl none_left ↦ ground (arith, take_where-none p rows none_left)
  | inr (found, got) ↦ absurd (ground arith)
]

-- The table's unique key.
abbrev pub HasUniqueRows : List CartItem → Type 0
HasUniqueRows rows =
    (user : ℕ) (slug strap : Text) → count_where (is_cart_row user slug strap) rows ≤ 1

upsert-HasUniqueRows :
    (line : CartItem) (rows : List CartItem) → HasUniqueRows rows → HasUniqueRows (upsert line rows)
unfolding upsert
upsert-HasUniqueRows line rows once user slug strap =
    let p = is_cart_row user slug strap in
    let q = is_cart_row line.user_id line.product_slug line.strap in
    elim (Option-cases (take_where q rows)) [
      | inl none_there ↦ rw none_there (
          ground (
            arith,
            take_where-none q rows none_there,
            once user slug strap,
            text_eq_iff line.product_slug slug,
            text_eq_iff line.strap strap,
          ))
      | inr (found, got) ↦
          let h = take_where-some q (one_if p) rows found.0 found.1 got in
          rw got (ground (arith, h.1, count-sum p rows, count-sum p found.1, once user slug strap))
    ]

upsert_many-HasUniqueRows :
    (lines rows : List CartItem) → HasUniqueRows rows → HasUniqueRows (upsert_many lines rows)
unfolding upsert_many
upsert_many-HasUniqueRows [] rows once = once
upsert_many-HasUniqueRows (l ∷ lines) rows once =
    upsert_many-HasUniqueRows lines (upsert l rows) (upsert-HasUniqueRows l rows once)

-- A merge keeps the table's key: if no cart had two rows for one product with one strap before, none has afterwards.
pub merge_guest_cart-HasUniqueRows :
    (user : ℕ) (raw : Option (List CartInput)) (db : Db)
    → HasUniqueRows db.cart_items
    → HasUniqueRows (merge_guest_cart user raw db).1.cart_items
unfolding merge_guest_cart
merge_guest_cart-HasUniqueRows user raw db once =
    upsert_many-HasUniqueRows (merged_lines user raw db) db.cart_items once

clamp_qty-bounds : (q : Option Number) → (1 ≤ clamp_qty q) × (clamp_qty q ≤ 99)
unfolding clamp_qty
clamp_qty-bounds none = (omega arith, omega arith)
clamp_qty-bounds (some nan) = (omega arith, omega arith)
clamp_qty-bounds (some infinity) = (omega arith, omega arith)
clamp_qty-bounds (some neg_infinity) = (omega arith, omega arith)
clamp_qty-bounds (some (finite z)) = (omega arith, omega arith)

-- A client's line that is fit is stored for the user with 1 to 99 pieces, at the price of the product that the lookup found under its slug.
pub normalize_line_lem :
    (user : ℕ) (it : CartInput) (found : List Product) (line : CartItem)
    → normalize_line user it found ≡ some line
    → (line.user_id ≡ user)
      × (1 ≤ line.qty)
      × (line.qty ≤ 99)
      × (p : Product) × (find_where (has_slug line.product_slug) found ≡ some p)
      × (line.price_usd ≡ (line_price p.price_usd (some line.strap)).price_usd)
      × (line.price_vnd ≡ (line_price p.price_usd (some line.strap)).price_vnd)
unfolding normalize_line
normalize_line_lem user it found line e =
    elim (Option-cases (find_where (has_slug (input_slug it)) found)) [
      | inl missing ↦ absurd (ground arith)
      | inr (p, there) ↦
          let same : cart_line user it (trim (get_or it.name [])) p ≡ line = ground arith in
          let fair = clamp_qty-bounds it.qty in
          rw (← same) (refl, fair.0, fair.1, p, there, refl, refl)
    ]
