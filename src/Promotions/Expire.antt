-- ===== src/Promotions/Expire.antt =====
-- The round that closes the promotions that are over (`expireDue`).
use clock.Base.{
  ==_iff, Bool-cases, List, Option-cases, [], any, ap, arith, false, filter, inl, inr, length, refl,
  some, suc, take, true, zero, ℕ, ◌==◌, ◌∷◌, ◌≡◌, ◌≤◌, ◌⊎◌,
}
use clock.Db.RowLaws.{find_where-update_where, update_row}
use clock.Db.Rows.{find_where, update_where}
use clock.Promotions.{Promotion, Shelf, carried}
use clock.Promotions.Close.{
  close_each, close_promotion, expire_due, expiry_reason, find_promotion, is_due, is_promotion,
  restore_prices, set_active,
}
use clock.Promotions.Laws.{close_promotion-inactive, close_promotion_lem}
use clock.Text.{Text}
use mathlib.Core.Path.{subst}

-- The promotion is there, and is not active.
abbrev pub IsClosed : ℕ → Shelf → Type 0
IsClosed id db = (q : Promotion) × (find_promotion id db ≡ some q) × (q.active ≡ false)

pub close_promotion-rows :
    (id : ℕ) (reason : Text) (db : Shelf)
    → ((close_promotion id reason db).1.promotions ≡ db.promotions)
      ⊎ ((close_promotion id reason db).1.promotions
          ≡ update_where (is_promotion id) (set_active false) db.promotions)
unfolding close_promotion
close_promotion-rows id reason db = elim (Option-cases (find_promotion id db)) [
  | inl e ↦ inl (ground (arith, e))
  | inr (p, e) ↦ elim (Bool-cases p.active) [
    | inl a ↦ inr ((close_promotion_lem id reason db p e a).1)
    | inr a ↦ inl (ground (arith, e, a))
  ]
]

find_promotion-close :
    (id other : ℕ) (reason : Text) (db : Shelf) (p : Promotion)
    → find_promotion id db ≡ some p
    → (q : Promotion) × (find_promotion id (close_promotion other reason db).1 ≡ some q)
      × ((q ≡ p) ⊎ (q ≡ set_active false p))
find_promotion-close id other reason db p h = elim (close_promotion-rows other reason db) [
  | inl e ↦ (p, rw e h, inl refl)
  | inr e ↦ (
    update_row (is_promotion other) (set_active false) p,
    rw e (
        ground (
          arith,
          h,
          find_where-update_where (is_promotion other) (is_promotion id) (set_active false)
              db.promotions (λ q. refl),
        )),
    ground arith,
  )
]

close_promotion-keeps :
    (id other : ℕ) (reason : Text) (db : Shelf)
    → IsClosed id db
    → IsClosed id (close_promotion other reason db).1
close_promotion-keeps id other reason db (p, h, a) =
    let (q, e, same) = find_promotion-close id other reason db p h in
    (q, e, ground (arith, a, same))

close_promotion-carried :
    (id : ℕ) (reason : Text) (db : Shelf) (p : Promotion)
    → find_promotion id db ≡ some p
    → (n : ℕ) × ((close_promotion id reason db).0 ≡ carried n)
unfolding close_promotion
close_promotion-carried id reason db p h = elim (Bool-cases p.active) [
  | inl a ↦ (length (restore_prices p reason p.price_snapshot ([], db)).0, ground (arith, h, a))
  | inr a ↦ (0, ground (arith, h, a))
]

close_each-keeps :
    (ps : List Promotion) (n id : ℕ) (db : Shelf)
    → IsClosed id db
    → IsClosed id (close_each ps n db).1
unfolding close_each
close_each-keeps [] n id db h = h
close_each-keeps (p ∷ ps) n id db h =
    close_each-keeps ps _ id _ (close_promotion-keeps id p.id expiry_reason db h)

close_each-closes :
    (ps : List Promotion) (n id : ℕ) (db : Shelf) (p : Promotion)
    → any (is_promotion id) ps ≡ true
    → find_promotion id db ≡ some p
    → IsClosed id (close_each ps n db).1
unfolding close_each
close_each-closes [] n id db p h e = absurd (ground arith)
close_each-closes (x ∷ ps) n id db p h e = elim (Bool-cases (x.id == id)) [
  | inl own ↦
      let same = (==_iff x.id id).0 own in
      let here : find_promotion x.id db ≡ some p = rw same e in
      let (m, ok_here) = close_promotion-carried x.id expiry_reason db p here in
      let closed = close_promotion-inactive x.id expiry_reason db m ok_here in
      close_each-keeps ps _ id _
        (subst (λ i. IsClosed i (close_promotion x.id expiry_reason db).1) same closed)
  | inr other ↦
      let (q, found, kept) = find_promotion-close id x.id expiry_reason db p e in
      close_each-closes ps _ id _ q (ground (arith, h, other)) found
]

take-all : {A : Type 0} (n : ℕ) (xs : List A) → length xs ≤ n → take n xs ≡ xs
take-all zero [] h = refl
take-all (suc n) [] h = refl
take-all zero (x ∷ xs) h = absurd (ground arith)
take-all (suc n) (x ∷ xs) h = ap (λ ys. x ∷ ys) (take-all n xs (omega arith))

any-filter :
    (now id : ℕ) (ps : List Promotion) (p : Promotion)
    → find_where (is_promotion id) ps ≡ some p
    → is_due now p ≡ true
    → any (is_promotion id) (filter (is_due now) ps) ≡ true
any-filter now id [] p h d = absurd (cc)
any-filter now id (x ∷ ps) p h d = ground (arith, h, d, any-filter now id ps p)

-- After a round with at most 50 promotions to close, each promotion that was active and over is there
-- and is not active.
pub expire_due-closes :
    (now id : ℕ) (db : Shelf) (p : Promotion)
    → find_promotion id db ≡ some p
    → is_due now p ≡ true
    → length (filter (is_due now) db.promotions) ≤ 50
    → IsClosed id (expire_due now db).1
unfolding expire_due
expire_due-closes now id db p h d few = rw (take-all 50 (filter (is_due now) db.promotions) few) (
    close_each-closes (filter (is_due now) db.promotions) 0 id db p
      (any-filter now id db.promotions p h d) h)
