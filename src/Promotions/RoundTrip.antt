-- ===== src/Promotions/RoundTrip.antt =====
-- The prices from the making of a promotion to its end.
use clock.Base.{
  All, Bool, Bool-cases, List, Option, [], any, ap, arith, inl, inr, some, sym, true, ℕ, ℤ, ◌∙◌,
  ◌∷◌, ◌≡◌, ◌⊎◌,
}
use clock.Db.RowLaws.{find_where-true}
use clock.Db.Rows.{find_where}
use clock.Promotions.{
  Listing, Promotion, PromotionInput, Shelf, carried, create_promotion, snapshot_of,
}
use clock.Promotions.Close.{close_promotion, find_listing, find_promotion, is_listing, same_price}
use clock.Promotions.Laws.{close_promotion_lem}
use clock.Promotions.Restore.{put_back, settle}
use clock.Text.{Text, eq_of_text_eq, includes, text_eq, text_eq_comm}

-- An entry of the product `s` has this price.
abbrev IsEntry : Text → ℤ → Text × ℤ → Type 0
IsEntry s usd e = text_eq s e.0 ≡ true → e.1 ≡ usd

abbrev is_entry : Text → Text × ℤ → Bool
is_entry s e = text_eq s e.0

same_price-eq : (a b : ℤ) → same_price a b ≡ true → a ≡ b
same_price-eq a b h = ground arith

settle-price : (usd : ℤ) (l : Listing) → (settle usd l).price_usd ≡ usd
settle-price usd l = ground (arith, same_price-eq l.price_usd usd)

settle-slug : (usd : ℤ) (l : Listing) → (settle usd l).slug ≡ l.slug
settle-slug usd l = ground arith

put_back-price :
    (s : Text) (usd : ℤ) (snap : List (Text × ℤ)) (l : Listing)
    → l.slug ≡ s
    → All (IsEntry s usd) snap
    → (any (is_entry s) snap ≡ true) ⊎ (l.price_usd ≡ usd)
    → (put_back snap l).price_usd ≡ usd
unfolding put_back
put_back-price s usd [] l own entries (inl h) = absurd (ground arith)
put_back-price s usd [] l own entries (inr h) = h
put_back-price s usd ((slug, u) ∷ snap) l own (entry, entries) h =
    elim (Bool-cases (text_eq l.slug slug)) [
      | inl e ↦
          let price = settle-price u l ∙ entry (rw (sym own) e) in
          ground (
            arith,
            e,
            put_back-price s usd snap (settle u l) (settle-slug u l ∙ own) entries (inr price),
          )
      | inr e ↦
          let left : (any (is_entry s) snap ≡ true) ⊎ (l.price_usd ≡ usd) =
            ground (arith, e, h, own) in
          ground (arith, e, put_back-price s usd snap l own entries left)
    ]

-- A snapshot holds the prices of the products.
snapshot_of-entries :
    (slugs : List Text) (s : Text) (usd : ℤ) (ls : List Listing)
    → All (λ l. text_eq l.slug s ≡ true → l.price_usd ≡ usd) ls
    → All (IsEntry s usd) (snapshot_of slugs ls)
unfolding snapshot_of
snapshot_of-entries slugs s usd [] h = tt
snapshot_of-entries slugs s usd (l ∷ ls) (h, hs) = elim (Bool-cases (includes slugs l.slug)) [
  | inl e ↦ rw e (
    λ same. h (ground (arith, same, text_eq_comm s l.slug)),
    snapshot_of-entries slugs s usd ls hs,
  )
  | inr e ↦ rw e (snapshot_of-entries slugs s usd ls hs)
]

snapshot_of-any :
    (slugs : List Text) (s : Text) (ls : List Listing) (l : Listing)
    → includes slugs s ≡ true
    → find_where (is_listing s) ls ≡ some l
    → any (is_entry s) (snapshot_of slugs ls) ≡ true
unfolding snapshot_of
snapshot_of-any slugs s [] l h e = absurd (cc)
snapshot_of-any slugs s (x ∷ ls) l h e = elim (Bool-cases (text_eq x.slug s)) [
  | inl same ↦
      let listed : includes slugs x.slug ≡ true = rw (eq_of_text_eq x.slug s same) h in
      ground (arith, listed, same, text_eq_comm s x.slug)
  | inr other ↦ ground (arith, other, snapshot_of-any slugs s ls l h (ground (arith, e, other)))
]

-- Slugs are a primary key.
abbrev pub HasUniqueSlugs : Shelf → Type 0
HasUniqueSlugs db =
    (s : Text) (l : Listing)
    → find_listing s db ≡ some l
    → All (λ x. text_eq x.slug s ≡ true → x ≡ l) db.listings

All-map :
    {P Q : Listing → Type 0}
    → ((l : Listing) → P l → Q l)
    → (ls : List Listing) → All P ls
    → All Q ls
All-map f [] h = tt
All-map f (l ∷ ls) (h, hs) = (f l h, All-map f ls hs)

create_promotion-row :
    (body : PromotionInput) (by : Option ℕ) (now : ℕ) (db : Shelf) (p : Promotion)
    → (create_promotion body by now db).0 ≡ carried p
    → (p.active ≡ true) × (p.price_snapshot ≡ snapshot_of p.listing_slugs db.listings)
unfolding create_promotion
create_promotion-row body by now db p h = (ground arith, ground arith)

-- A product of a promotion has, when the promotion is closed, the price that it had when the
-- promotion was made, whatever its price has been in between.
pub create_promotion-close_promotion :
    (body : PromotionInput) (by : Option ℕ) (now : ℕ) (reason : Text) (db later : Shelf)
    (p : Promotion) (s : Text) (old cur : Listing)
    → HasUniqueSlugs db
    → (create_promotion body by now db).0 ≡ carried p
    → includes p.listing_slugs s ≡ true
    → find_listing s db ≡ some old
    → find_promotion p.id later ≡ some p
    → find_listing s later ≡ some cur
    → (l : Listing) × (find_listing s (close_promotion p.id reason later).1 ≡ some l)
      × (l.price_usd ≡ old.price_usd)
create_promotion-close_promotion body by now reason db later p s old cur unique h listed before
      found after =
    let (active, snap) = create_promotion-row body by now db p h in
    let entries = snapshot_of-entries p.listing_slugs s old.price_usd db.listings (
      All-map (λ l same e. ap (λ (l : Listing). l.price_usd) (same e)) db.listings
        (unique s old before)) in
    let some_entry = snapshot_of-any p.listing_slugs s db.listings old listed before in
    let own = eq_of_text_eq _ _ (find_where-true (is_listing s) later.listings cur after) in
    (
      put_back p.price_snapshot cur,
      (close_promotion_lem p.id reason later p found active).0 s cur after,
      rw snap (put_back-price s old.price_usd _ cur own entries (inl some_entry)),
    )
