-- ===== src/Orders/Create/Lines/Laws.antt =====
-- Where the prices of an order come from.
use clock.Base.{Bool, List, Number, [], all, arith, is_some, refl, true, ◌∷◌, ◌≡◌}
use clock.Db.{Product}
use clock.Orders.Create.Input.{ItemInput}
use clock.Orders.Create.Lines.{draft_lines, find_product, item_slug}

-- The request with prices that the client made up.
unfoldable pub reprice : (ItemInput → Number) → List ItemInput → List ItemInput
reprice f [] = []
reprice f (i ∷ items) = record i { price_usd = f i } ∷ reprice f items

-- Each item names a product that the database found.
abbrev pub is_listed : List Product → ItemInput → Bool
is_listed rows i = is_some (find_product (item_slug i) rows)

-- The prices that the client sends count for nothing where each item names a product of the database: any other prices give the same lines, or the same refusal.
pub draft_lines-reprice :
    (f : ItemInput → Number) (rows : List Product) (items : List ItemInput)
    → all (is_listed rows) items ≡ true
    → draft_lines rows (reprice f items) ≡ draft_lines rows items
unfolding draft_lines reprice
draft_lines-reprice f rows [] h = refl
draft_lines-reprice f rows (i ∷ items) h = ground (arith, draft_lines-reprice f rows items)
