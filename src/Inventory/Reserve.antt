-- ===== src/Inventory/Reserve.antt =====
-- When the conditional decrement of `OrdersService.create` goes through.
use clock.Base.{
  All, List, Option, [], arith, if◌then◌else◌, none, refl, some, ℕ, ◌<◌, ◌↔◌, ◌∷◌, ◌≡◌, ◌≤◌,
}
use clock.Db.{OrderItem, Product}
use clock.Db.Rows.{count_where, update_where}
use clock.Inventory.{in_stock, real_slug, reserve, reserve_slug, take_stock}
use clock.Inventory.Laws.{reserve_slug_lem, stock_of-reserve}
use clock.Inventory.Measures.{qty_of, rows_of, slug_is, stock_of}
use clock.Text.{Text, text_eq_refl}

stock_of-no_rows :
    (t : Text) (products : List Product) → rows_of t products ≡ 0 → stock_of t products ≡ 0
unfolding stock_of rows_of
stock_of-no_rows t [] h = refl
stock_of-no_rows t (p ∷ products) h = ground (arith, stock_of-no_rows t products)

short_of_stock :
    (t : Text) (n : ℕ) (products : List Product)
    → 1 ≤ n
    → rows_of t products ≤ 1
    → count_where (in_stock t n) products ≡ 0
    → stock_of t products < n
unfolding stock_of rows_of
short_of_stock t n [] positive one none_fits = omega arith
short_of_stock t n (p ∷ products) positive one none_fits =
    let alone : rows_of t products ≡ 0 → stock_of t products ≡ 0 = stock_of-no_rows t products in
    ground (arith, short_of_stock t n products, alone)

reserve_slug_fits :
    (o : Option Text) (n : ℕ) (products : List Product)
    → 1 ≤ n
    → ((s : Text) → rows_of s products ≤ 1)
    → ((s : Text) → (if slug_is s o then n else 0) ≤ stock_of s products)
    → (left : List Product) × (reserve_slug o n products ≡ some left)
reserve_slug_fits none n products positive one enough = (products, refl)
reserve_slug_fits (some t) n products positive one enough = (
  update_where (in_stock t n) (take_stock n) products,
  ground (arith, short_of_stock t n products positive (one t), enough t, text_eq_refl t),
)

reserve-cons :
    (l : OrderItem) (lines : List OrderItem) (products next left : List Product)
    → reserve_slug (real_slug l.product_slug) l.qty products ≡ some next
    → reserve lines next ≡ some left
    → reserve (l ∷ lines) products ≡ some left
unfolding reserve
reserve-cons l lines products next left taken rest = ground arith

reserve_fits :
    (lines : List OrderItem) (products : List Product)
    → All (λ l. 1 ≤ l.qty) lines
    → ((s : Text) → rows_of s products ≤ 1)
    → ((s : Text) → qty_of s lines ≤ stock_of s products)
    → (left : List Product) × (reserve lines products ≡ some left)
unfolding reserve qty_of
reserve_fits [] products positive one enough = (products, refl)
reserve_fits (l ∷ lines) products positive one enough =
    let o = real_slug l.product_slug in
    let (next, taken) =
      reserve_slug_fits o l.qty products positive.0 one (λ s. ground (arith, enough s)) in
    let after = λ (s : Text). reserve_slug_lem s o l.qty products next taken (one s) in
    let (left, rest) =
      reserve_fits lines next positive.1 (λ s. ground (arith, one s, (after s).1))
        (λ s. ground (arith, enough s, (after s).0)) in
    (left, reserve-cons l lines products next left taken rest)

-- Where each line asks for at least one piece and no slug has two rows, the lines of an order can be taken, one after the other, exactly when each product has as many pieces in stock as all lines together ask for.
pub reserve_iff :
    (lines : List OrderItem) (products : List Product)
    → All (λ l. 1 ≤ l.qty) lines
    → ((s : Text) → rows_of s products ≤ 1)
    → ((left : List Product) × (reserve lines products ≡ some left))
      ↔ ((s : Text) → qty_of s lines ≤ stock_of s products)
reserve_iff lines products positive one = (
  λ (left, e). λ s. omega (arith, (stock_of-reserve s lines products left e (one s)).0),
  reserve_fits lines products positive one,
)
