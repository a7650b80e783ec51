-- ===== src/Orders/View/Laws.antt =====
-- The pages of a user's orders.
use clock.Base.{
  List, Number, [], ap, arith, drop, finite, infinity, max, nan, neg_infinity, negsuc, pos, refl,
  suc, sym, take, zero, ℕ, ◌*◌, ◌++◌, ◌+◌, ◌-◌, ◌∙◌, ◌∷◌, ◌≡◌, ◌≤◌,
}
use clock.Db.{Db, Order}
use clock.Db.Monad.{Result, err, ok}
use clock.Orders.View.{MinePage, mine, orders_of, safe_limit, safe_page}

take_nil : (n : ℕ) → take {A = Order} n [] ≡ []
take_nil zero = refl
take_nil (suc n) = refl

take-split :
    (m n : ℕ) (orders : List Order) → take m orders ++ take n (drop m orders) ≡ take (m + n) orders
take-split zero n orders = let same : 0 + n ≡ n = omega arith in rw same refl
take-split (suc m) n [] = take_nil n ∙ sym (take_nil (suc m + n))
take-split (suc m) n (o ∷ orders) =
    let same : suc m + n ≡ suc (m + n) = omega arith in
    rw same (ap (λ l. o ∷ l) (take-split m n orders))

abbrev items_of : Result MinePage × Db → List Order
items_of (ok p, db) = p.items
items_of (err e, db) = []

-- The first `n` pages, one after the other.
unfoldable pub pages : ℕ → Number → ℕ → Db → List Order
pages user limit zero db = []
pages user limit (suc n) db =
    pages user limit n db ++ items_of (mine user (finite (pos (suc n))) limit db)

safe_limit-bounds : (limit : Number) → (1 ≤ safe_limit limit) × (safe_limit limit ≤ 50)
unfolding safe_limit
safe_limit-bounds (finite (pos zero)) = (omega arith, omega arith)
safe_limit-bounds (finite (pos (suc n))) = (omega arith, omega arith)
safe_limit-bounds (finite (negsuc n)) = (omega arith, omega arith)
safe_limit-bounds nan = (omega arith, omega arith)
safe_limit-bounds infinity = (omega arith, omega arith)
safe_limit-bounds neg_infinity = (omega arith, omega arith)

pages-take :
    (user n : ℕ) (limit : Number) (db : Db)
    → pages user limit n db ≡ take (n * safe_limit limit) (orders_of user db)
unfolding mine pages safe_page
pages-take user zero limit db =
    let none_yet : 0 * safe_limit limit ≡ 0 = omega arith in rw none_yet refl
pages-take user (suc n) limit db =
    let before : max 1 (suc n) - 1 ≡ n = omega arith in
    let more : suc n * safe_limit limit ≡ n * safe_limit limit + safe_limit limit = omega arith in
    rw (pages-take user n limit db, before, more)
      (take-split (n * safe_limit limit) (safe_limit limit) (orders_of user db))

-- The pages of `mine` leave no order out and repeat none: the first n pages are the first n times the page's size of the user's orders, and a page holds 1 to 50.
pub mine-pages :
    (user n : ℕ) (limit : Number) (db : Db)
    → (pages user limit n db ≡ take (n * safe_limit limit) (orders_of user db))
      × (1 ≤ safe_limit limit)
      × (safe_limit limit ≤ 50)
mine-pages user n limit db =
    let bounds = safe_limit-bounds limit in (pages-take user n limit db, bounds.0, bounds.1)
