-- ===== src/Db/TableLaws.antt =====
-- Lookups in the tables.
use clock.Base.{List, [], arith, some, ℕ, ◌∷◌, ◌≡◌}
use clock.Db.{Order}
use clock.Db.Rows.{find_where}
use clock.Db.Tables.{is_order}

pub find_where-id :
    (id : ℕ) (o : Order) (orders : List Order)
    → find_where (is_order id) orders ≡ some o
    → o.id ≡ id
find_where-id id o [] h = absurd (cc)
find_where-id id o (x ∷ orders) h = ground (arith, find_where-id id o orders)
