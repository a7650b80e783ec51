-- ===== src/Promotions/Laws.antt =====
-- What the operations on promotions do, branch by branch, and what they do together.
use clock.Base.{
  Bool-cases, List, Option-cases, [], arith, false, inl, inr, refl, some, true, ℕ, ℤ, ◌∙◌, ◌∷◌, ◌≡◌,
}
use clock.Db.RowLaws.{find_where-true, find_where-update_where}
use clock.Db.Rows.{update_where}
use clock.Promotions.{Listing, Promotion, Shelf, carried}
use clock.Promotions.Close.{
  close_promotion, find_listing, find_promotion, is_promotion, restore_price, restore_prices,
  set_active,
}
use clock.Promotions.Restore.{find_listing-restore_prices, put_back}
use clock.Text.{Text}

restore_price-promotions :
    (p : Promotion) (reason slug : Text) (usd : ℤ) (acc : List Text × Shelf)
    → (restore_price p reason slug usd acc).1.promotions ≡ acc.1.promotions
restore_price-promotions p reason slug usd (slugs, db) = ground arith

pub restore_prices-promotions :
    (p : Promotion) (reason : Text) (snap : List (Text × ℤ)) (acc : List Text × Shelf)
    → (restore_prices p reason snap acc).1.promotions ≡ acc.1.promotions
unfolding restore_prices
restore_prices-promotions p reason [] acc = refl
restore_prices-promotions p reason ((slug, usd) ∷ snap) acc =
    restore_prices-promotions p reason snap (restore_price p reason slug usd acc)
    ∙ restore_price-promotions p reason slug usd acc

-- Closing an active promotion puts back the prices of its snapshot, product by product, and ends it.
pub close_promotion_lem :
    (id : ℕ) (reason : Text) (db : Shelf) (p : Promotion)
    → find_promotion id db ≡ some p
    → p.active ≡ true
    → ((s : Text) (l : Listing)
        → find_listing s db ≡ some l
        → find_listing s (close_promotion id reason db).1 ≡ some (put_back p.price_snapshot l))
      × ((close_promotion id reason db).1.promotions
          ≡ update_where (is_promotion id) (set_active false) db.promotions)
unfolding close_promotion
close_promotion_lem id reason db p h a = (
  λ s l e.
      ground (arith, h, a, find_listing-restore_prices p reason p.price_snapshot ([], db) s l e),
  ground (arith, h, a, restore_prices-promotions p reason p.price_snapshot ([], db)),
)

-- A promotion that has been closed is not active.
pub close_promotion-inactive :
    (id : ℕ) (reason : Text) (db : Shelf) (n : ℕ)
    → (close_promotion id reason db).0 ≡ carried n
    → (q : Promotion) × (find_promotion id (close_promotion id reason db).1 ≡ some q)
      × (q.active ≡ false)
unfolding close_promotion
close_promotion-inactive id reason db n h = elim (Option-cases (find_promotion id db)) [
  | inl e ↦ ground (arith, h, e)
  | inr (p, e) ↦ elim (Bool-cases p.active) [
    | inl a ↦ (
      set_active false p,
      ground (
        arith,
        e,
        a,
        find_where-true (is_promotion id) db.promotions p e,
        restore_prices-promotions p reason p.price_snapshot ([], db),
        find_where-update_where (is_promotion id) (is_promotion id) (set_active false) db.promotions
            (λ q. refl),
      ),
      refl,
    )
    | inr a ↦ (p, ground (arith, e, a), a)
  ]
]

-- Closing a promotion again writes nothing, whatever the prices have become since: prices that were
-- set after the first closing are not put back.
close_promotion-twice :
    (id : ℕ) (reason again : Text) (db later : Shelf) (n : ℕ)
    → (close_promotion id reason db).0 ≡ carried n
    → later.promotions ≡ (close_promotion id reason db).1.promotions
    → close_promotion id again later ≡ (carried 0, later)
unfolding close_promotion
close_promotion-twice id reason again db later n h same =
    let (q, e, a) = close_promotion-inactive id reason db n h in
    let found : find_promotion id later ≡ some q = rw same e in ground (arith, found, a)
