-- ===== src/Interleaving/Orders.antt =====
-- What stays true of the table of orders: its keys, and the lines of each order.
use clock.Base.{
  Bool, Bool-cases, List, [], ap, arith, if◌then◌else◌, inl, inr, refl, some, ℕ, ◌==◌, ◌∙◌, ◌∷◌,
  ◌≡◌, ◌≤◌,
}
use clock.Db.{Db, Order}
use clock.Db.RowLaws.{count_where-update_where}
use clock.Db.Rows.{count_where, find_where, update_where}
use clock.Db.TableLaws.{find_where-id}
use clock.Db.Tables.{find_order, is_order}

-- The primary key, and the ids that the next rows will get.
pub record Keys (db : Db) : Type 0 where
  pub once : (id : ℕ) → count_where (is_order id) db.orders ≤ 1
  pub unused : (id : ℕ) → db.next_id ≤ id → count_where (is_order id) db.orders ≡ 0

-- A request holds a copy of an order that it read: the row may have changed since, but not its lines.
abbrev pub WasRead : Order → Db → Type 0
WasRead o db = (now : Order) × (find_order o.id db ≡ some now) × (now.items ≡ o.items)

-- A read gives such a copy.
pub find_order-WasRead : (id : ℕ) (o : Order) (db : Db) → find_order id db ≡ some o → WasRead o db
find_order-WasRead id o db e =
    (o, ap (λ n. find_order n db) (find_where-id id o db.orders e) ∙ e, refl)

abbrev pub FindsIn : ℕ → Order → List Order → Type 0
FindsIn id now orders =
    (later : Order) × (find_where (is_order id) orders ≡ some later) × (later.items ≡ now.items)

-- The second table has the ids of the first, and each order its lines.
pub record SameOrders (before after : List Order) : Type 0 where
  pub counts : (id : ℕ) → count_where (is_order id) after ≡ count_where (is_order id) before
  pub finds :
      (id : ℕ) (now : Order) → find_where (is_order id) before ≡ some now → FindsIn id now after

pub SameOrders-refl : (orders : List Order) → SameOrders orders orders
SameOrders-refl orders = record { counts = λ id. refl; finds = λ id now e. (now, e, refl) }

pub SameOrders-trans : (a b c : List Order) → SameOrders a b → SameOrders b c → SameOrders a c
SameOrders-trans a b c h k = record {
  counts = λ id. k.counts id ∙ h.counts id;
  finds = λ id now e.
      let (later, found, same) = h.finds id now e in
      let (last, found', same') = k.finds id later found in (last, found', same' ∙ same);
}

abbrev KeepsLines : (Order → Order) → Type 0
KeepsLines g = (o : Order) → ((g o).id ≡ o.id) × ((g o).items ≡ o.items)

module _ (p : Order → Bool) (g : Order → Order) (keep : KeepsLines g) where
  finds-cons :
      (o : Order) (orders : List Order) (id : ℕ) (now : Order)
      → (find_where (is_order id) orders ≡ some now → FindsIn id now (update_where p g orders))
      → find_where (is_order id) (o ∷ orders) ≡ some now
      → FindsIn id now (update_where p g (o ∷ orders))
  finds-cons o orders id now ih e = elim (Bool-cases (o.id == id)) [
    | inl hit ↦ (if p o then g o else o, ground (arith, keep o), ground (arith, keep o))
    | inr miss ↦
        let tail : find_where (is_order id) orders ≡ some now = ground arith in
        let (later, found, same) = ih tail in (later, ground (arith, keep o), same)
  ]

  finds-update_where :
      (orders : List Order) (id : ℕ) (now : Order)
      → find_where (is_order id) orders ≡ some now
      → FindsIn id now (update_where p g orders)
  finds-update_where [] id now e = absurd (cc)
  finds-update_where (o ∷ orders) id now e =
      finds-cons o orders id now (finds-update_where orders id now) e

  pub update_where-SameOrders : (orders : List Order) → SameOrders orders (update_where p g orders)
  update_where-SameOrders orders = record {
    counts =
        λ id. count_where-update_where p (is_order id) g orders (λ o. ap (λ n. n == id) (keep o).0);
    finds = λ id now e. finds-update_where orders id now e;
  }
