-- ===== src/Cart.antt =====
-- backend/src/common/cart.ts, over `PrismaCartStorage` (backend/src/common/cart-storage.ts) and the
-- price lookup of backend/src/cart/cart.controller.ts.
pub mod Laws
use clock.Base.{
  Bool, List, Number, Option, [], clamp, filter, finite, get_or, if◌then◌else◌, infinity, is_empty,
  none, some, take, ℕ, ◌&&◌, ◌+◌, ◌==◌, ◌||◌, ◌∷◌,
}
use clock.Db.{CartItem, Db, Product}
use clock.Db.Rows.{delete_where, find_where}
use clock.Db.Tables.{clear_cart_rows}
use clock.Inventory.{has_slug}
use clock.Orders.Create.Lines.{engraving_of, standard_strap}
use clock.Pricing.{line_price}
use clock.Text.{Text, includes, text_eq, trim}
use clock.Vnpay.{non_empty_or}

-- `clampQty`
unfoldable pub clamp_qty : Option Number → ℕ
clamp_qty (some (finite z)) = clamp 1 99 z
clamp_qty (some infinity) = 99
clamp_qty _ = 1

-- The row of one strap of one product in a user's cart: the table's unique key.
abbrev pub is_cart_row : ℕ → Text → Text → CartItem → Bool
is_cart_row user slug strap r =
    r.user_id == user && (text_eq r.product_slug slug && text_eq r.strap strap)

abbrev pub more_pieces : ℕ → CartItem → CartItem
more_pieces n r = record r { qty = r.qty + n }

-- The first row that meets a test, and the table without it.
abbrev pub take_where : {A : Type 0} → (A → Bool) → List A → Option (A × List A)
take_where p [] = none
take_where p (x ∷ xs) =
    let rest = take_where p xs in
    if p x then some (x, xs) else elim rest [ none ↦ none | some (y, ys) ↦ some (y, x ∷ ys) ]

-- The table keeps the row that changed last in front, as `list` reads it (`updatedAt` descending).
abbrev pub put_row : CartItem → Option (CartItem × List CartItem) → List CartItem → List CartItem
put_row line none rows = line ∷ rows
put_row line (some (r, rest)) rows = more_pieces line.qty r ∷ rest

-- `upsert`: a row with the key gets the pieces of the line; else the line is a new row.
unfoldable pub upsert : CartItem → List CartItem → List CartItem
upsert line rows =
    put_row line (take_where (is_cart_row line.user_id line.product_slug line.strap) rows) rows

-- `upsertMany`, one transaction
unfoldable pub upsert_many : List CartItem → List CartItem → List CartItem
upsert_many [] rows = rows
upsert_many (l ∷ lines) rows = upsert_many lines (upsert l rows)

-- `list`, of a user
abbrev pub cart_of : ℕ → List CartItem → List CartItem
cart_of user rows = filter (λ (r : CartItem). r.user_id == user) rows

-- `updateQty`: the row moves to the front with the new quantity.
abbrev pub set_front : ℕ → Option (CartItem × List CartItem) → List CartItem → List CartItem
set_front n none rows = rows
set_front n (some (r, rest)) rows = record r { qty = n } ∷ rest

unfoldable pub update_qty : ℕ → Text → Text → ℕ → List CartItem → List CartItem
update_qty user slug strap n rows = set_front n (take_where (is_cart_row user slug strap) rows) rows

unfoldable pub remove_row : ℕ → Text → Text → List CartItem → List CartItem
remove_row user slug strap rows = delete_where (is_cart_row user slug strap) rows

-- What a client sends of a line.
pub record CartInput : Type 0 where
  pub slug : Option Text
  pub name : Option Text
  pub image : Option Text
  pub strap : Option Text
  pub engraving : Option Text
  pub qty : Option Number

abbrev pub input_slug : CartInput → Text
input_slug it = trim (get_or it.slug [])

-- `where: { slug: { in: slugs }, inBoutique: true }`
abbrev pub is_shown : List Text → Product → Bool
is_shown slugs p = includes slugs p.slug && p.in_boutique

unfoldable pub lookup_price : List Text → List Product → List Product
lookup_price slugs products = filter (is_shown slugs) products

-- `String(it.strap ?? DEFAULT_STRAP) || DEFAULT_STRAP`
abbrev pub strap_of : Option Text → Text
strap_of strap = non_empty_or (get_or strap standard_strap) standard_strap

abbrev pub cart_line : ℕ → CartInput → Text → Product → CartItem
cart_line user it name p =
    let price = line_price p.price_usd (some (strap_of it.strap)) in
    record {
      user_id = user;
      product_slug = input_slug it;
      name = take 200 name;
      price_usd = price.price_usd;
      price_vnd = price.price_vnd;
      image = get_or it.image [];
      strap = strap_of it.strap;
      engraving = engraving_of it.engraving;
      qty = clamp_qty it.qty;
    }

-- `normalizeLine`, for the row of `user`; `none` is `{ ok: false }`.
unfoldable pub normalize_line : ℕ → CartInput → List Product → Option CartItem
normalize_line user it found =
    let name = trim (get_or it.name []) in
    if is_empty (input_slug it) || is_empty name
    then none
    else elim (find_where (has_slug (input_slug it)) found) [
      | none ↦ none
      | some p ↦ some (cart_line user it name p)
    ]

pub data CartOutcome : Type 0 where
  cart_is : List CartItem → CartOutcome
  -- the errors, all with status 400
  missing_item not_for_sale missing_slug : CartOutcome

abbrev pub with_rows : List CartItem → Db → Db
with_rows rows db = record db { cart_items = rows }

-- The answer with the user's cart.
abbrev pub answer_cart : ℕ → Db → CartOutcome × Db
answer_cart user db = (cart_is (cart_of user db.cart_items), db)

unfoldable pub get_cart : ℕ → Db → List CartItem
get_cart user db = cart_of user db.cart_items

unfoldable pub add_to_cart : ℕ → CartInput → Db → CartOutcome × Db
add_to_cart user raw db =
    let found = lookup_price (input_slug raw ∷ []) db.products in
    if is_empty (input_slug raw) then (missing_item, db) else elim (normalize_line user raw found) [
      | none ↦ (not_for_sale, db)
      | some line ↦ answer_cart user (with_rows (upsert line db.cart_items) db)
    ]

-- The code's further test, that the quantity is finite, always holds.
unfoldable pub update_cart_qty :
    ℕ → Option Text → Option Text → Option Number → Db → CartOutcome × Db
update_cart_qty user slug strap qty db =
    if is_empty (get_or slug [])
    then (missing_slug, db)
    else answer_cart user (
        with_rows (update_qty user (get_or slug []) (get_or strap []) (clamp_qty qty) db.cart_items)
          db)

unfoldable pub remove_from_cart : ℕ → Option Text → Option Text → Db → CartOutcome × Db
remove_from_cart user slug strap db =
    if is_empty (get_or slug [])
    then (missing_slug, db)
    else answer_cart user
        (with_rows (remove_row user (get_or slug []) (get_or strap []) db.cart_items) db)

unfoldable pub clear_cart : ℕ → Db → CartOutcome × Db
clear_cart user db = answer_cart user (clear_cart_rows user db)

unfoldable pub input_slugs : List CartInput → List Text
input_slugs [] = []
input_slugs (i ∷ items) =
    if is_empty (input_slug i) then input_slugs items else input_slug i ∷ input_slugs items

-- The lines that are fit to be stored.
unfoldable pub cart_batch : ℕ → List CartInput → List Product → List CartItem
cart_batch user [] found = []
cart_batch user (i ∷ items) found =
    let rest = cart_batch user items found in
    elim (normalize_line user i found) [ none ↦ rest | some line ↦ line ∷ rest ]

-- `none` is what is no array.
unfoldable pub merge_guest_cart : ℕ → Option (List CartInput) → Db → CartOutcome × Db
merge_guest_cart user raw db =
    let items = take 50 (get_or raw []) in
    let found = lookup_price (input_slugs items) db.products in
    answer_cart user (with_rows (upsert_many (cart_batch user items found) db.cart_items) db)
