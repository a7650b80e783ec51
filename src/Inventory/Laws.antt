-- ===== src/Inventory/Laws.antt =====
-- The loops move exactly the quantities of the lines, and move nothing else.
use clock.Base.{
  List, Option, Option-cases, [], ap, arith, if◌then◌else◌, inl, inr, none, refl, some, ℕ, ◌*◌, ◌+◌,
  ◌∙◌, ◌∷◌, ◌≡◌, ◌≤◌,
}
use clock.Db.{OrderItem, Product}
use clock.Db.Rows.{count_where, update_where}
use clock.Inventory.{
  add_stock, has_slug, in_stock, real_slug, reserve, reserve_slug, restock, restock_slug,
  take_stock,
}
use clock.Inventory.Measures.{qty_of, rows_of, slug_is, stock_of}
use clock.Text.{Text, text_eq, text_eq_iff}

module _ (s t : Text) (n : ℕ) where
  stock_of-add_stock :
      (products : List Product)
      → stock_of s (update_where (has_slug t) (add_stock n) products)
        ≡ stock_of s products + (if text_eq t s then n * rows_of s products else 0)
  unfolding stock_of rows_of
  stock_of-add_stock [] = ground arith
  stock_of-add_stock (p ∷ products) = ground (
    arith,
    text_eq_iff p.slug t,
    text_eq_iff p.slug s,
    text_eq_iff t s,
    stock_of-add_stock products,
  )

  stock_of-take_stock :
      (products : List Product)
      → stock_of s (update_where (in_stock t n) (take_stock n) products)
          + (if text_eq t s then n * count_where (in_stock t n) products else 0)
        ≡ stock_of s products
  unfolding stock_of
  stock_of-take_stock [] = ground arith
  stock_of-take_stock (p ∷ products) = ground (
    arith,
    text_eq_iff p.slug t,
    text_eq_iff p.slug s,
    text_eq_iff t s,
    stock_of-take_stock products,
  )

  rows_of-add_stock :
      (products : List Product)
      → rows_of s (update_where (has_slug t) (add_stock n) products) ≡ rows_of s products
  unfolding rows_of
  rows_of-add_stock [] = refl
  rows_of-add_stock (p ∷ products) = ground (arith, rows_of-add_stock products)

  rows_of-take_stock :
      (products : List Product)
      → rows_of s (update_where (in_stock t n) (take_stock n) products) ≡ rows_of s products
  unfolding rows_of
  rows_of-take_stock [] = refl
  rows_of-take_stock (p ∷ products) = ground (arith, rows_of-take_stock products)

  count-in_stock-le-rows_of :
      (products : List Product) → t ≡ s → count_where (in_stock t n) products ≤ rows_of s products
  unfolding rows_of
  count-in_stock-le-rows_of [] e = omega arith
  count-in_stock-le-rows_of (p ∷ products) e =
      ground
        (arith, text_eq_iff p.slug t, text_eq_iff p.slug s, count-in_stock-le-rows_of products e)

-- Putting the pieces of one line back.
restock_slug_lem :
    (s : Text) (o : Option Text) (n : ℕ) (products : List Product)
    → (stock_of s (restock_slug o n products)
        ≡ stock_of s products + (if slug_is s o then n * rows_of s products else 0))
      × (rows_of s (restock_slug o n products) ≡ rows_of s products)
restock_slug_lem s none n products = (omega arith, refl)
restock_slug_lem s (some t) n products =
    (stock_of-add_stock s t n products, rows_of-add_stock s t n products)

pub rows_of-restock :
    (s : Text) (lines : List OrderItem) (products : List Product)
    → rows_of s (restock lines products) ≡ rows_of s products
unfolding restock
rows_of-restock s [] products = refl
rows_of-restock s (l ∷ lines) products =
    let next = restock_slug (real_slug l.product_slug) l.qty products in
    rows_of-restock s lines next ∙ (restock_slug_lem s (real_slug l.product_slug) l.qty products).1

-- The restock of an order's lines puts back exactly the lines' quantities of each product that has one row.
pub stock_of-restock :
    (s : Text) (lines : List OrderItem) (products : List Product)
    → rows_of s products ≡ 1
    → stock_of s (restock lines products) ≡ stock_of s products + qty_of s lines
unfolding restock qty_of
stock_of-restock s [] products one = omega arith
stock_of-restock s (l ∷ lines) products one =
    let o = real_slug l.product_slug in
    let h = restock_slug_lem s o l.qty products in
    let ih = stock_of-restock s lines (restock_slug o l.qty products) (h.1 ∙ one) in
    ground (arith, h.0, ih, ap (λ r. l.qty * r) one)

mul-eq_of_one : (n c : ℕ) → c ≡ 1 → n * c ≡ n
mul-eq_of_one n c e = rw e (omega arith)

-- Taking the pieces of one line.
pub reserve_slug_lem :
    (s : Text) (o : Option Text) (n : ℕ) (products left : List Product)
    → reserve_slug o n products ≡ some left
    → rows_of s products ≤ 1
    → (stock_of s left + (if slug_is s o then n else 0) ≡ stock_of s products)
      × (rows_of s left ≡ rows_of s products)
reserve_slug_lem s none n products left e one = ground arith
reserve_slug_lem s (some t) n products left e one = ground (
  arith,
  text_eq_iff t s,
  stock_of-take_stock s t n products,
  rows_of-take_stock s t n products,
  count-in_stock-le-rows_of s t n products,
  mul-eq_of_one n (count_where (in_stock t n) products),
)

-- A reservation that succeeds takes exactly the lines' quantities of each product.
pub stock_of-reserve :
    (s : Text) (lines : List OrderItem) (products left : List Product)
    → reserve lines products ≡ some left
    → rows_of s products ≤ 1
    → (stock_of s left + qty_of s lines ≡ stock_of s products)
      × (rows_of s left ≡ rows_of s products)
unfolding reserve qty_of
stock_of-reserve s [] products left e one = ground arith
stock_of-reserve s (l ∷ lines) products left e one =
    elim (Option-cases (reserve_slug (real_slug l.product_slug) l.qty products)) [
      | inl out ↦ ground arith
      | inr (next, taken) ↦
          let h = reserve_slug_lem s (real_slug l.product_slug) l.qty products next taken one in
          ground (arith, h.0, h.1, stock_of-reserve s lines next left)
    ]

rows_of-reserve_slug :
    (s : Text) (o : Option Text) (n : ℕ) (products left : List Product)
    → reserve_slug o n products ≡ some left
    → rows_of s left ≡ rows_of s products
rows_of-reserve_slug s none n products left e = ground arith
rows_of-reserve_slug s (some t) n products left e =
    ground (arith, rows_of-take_stock s t n products)

pub rows_of-reserve :
    (s : Text) (lines : List OrderItem) (products left : List Product)
    → reserve lines products ≡ some left
    → rows_of s left ≡ rows_of s products
unfolding reserve
rows_of-reserve s [] products left e = ground arith
rows_of-reserve s (l ∷ lines) products left e =
    elim (Option-cases (reserve_slug (real_slug l.product_slug) l.qty products)) [
      | inl out ↦ ground arith
      | inr (next, taken) ↦ ground (
        arith,
        rows_of-reserve_slug s (real_slug l.product_slug) l.qty products next taken,
        rows_of-reserve s lines next left,
      )
    ]
