-- ===== src/Promotions/Apart.antt =====
-- No product is in two running promotions: the state that `createPromotion` guards.
use clock.Base.{
  All, Bool-cases, List, Option, Option-cases, [], arith, false, filter, inl, inr, is_empty, none,
  not, true, ℕ, ◌++◌, ◌+◌, ◌==◌, ◌||◌, ◌∷◌, ◌≡◌, ◌≤◌, ◌⊎◌,
}
use clock.Db.Rows.{find_where, update_where}
use clock.Promotions.{
  Promotion, PromotionInput, Shelf, create_promotion, cut_name, find_clash, fit_dates, fit_discount,
  is_running, new_promotion, non_blank, shares_slug,
}
use clock.Promotions.Close.{close_promotion, is_promotion, set_active}
use clock.Promotions.Expire.{close_promotion-rows}
use clock.Text.{Text}

-- An earlier promotion and a later one, both running, share no product.
abbrev pub IsApart : ℕ → Promotion → Promotion → Type 0
IsApart now p q =
    is_running now p ≡ true → is_running now q ≡ true → shares_slug q.listing_slugs p ≡ false

abbrev pub AllApart : ℕ → List Promotion → Type 0
AllApart now [] = Unit {0}
AllApart now (p ∷ ps) = All (IsApart now p) ps × AllApart now ps

All-update_where :
    (P : Promotion → Type 0) (id : ℕ) (ps : List Promotion)
    → ((p : Promotion) → P p → P (set_active false p))
    → All P ps
    → All P (update_where (is_promotion id) (set_active false) ps)
All-update_where P id [] f h = tt
All-update_where P id (p ∷ ps) f (h, hs) = elim (Bool-cases (p.id == id)) [
  | inl e ↦ rw e (f p h, All-update_where P id ps f hs)
  | inr e ↦ rw e (h, All-update_where P id ps f hs)
]

All-imp :
    {P Q : Promotion → Type 0}
    → ((p : Promotion) → P p → Q p)
    → (ps : List Promotion) → All P ps
    → All Q ps
All-imp f [] h = tt
All-imp f (p ∷ ps) (h, hs) = (f p h, All-imp f ps hs)

-- A promotion that is ended is apart from all.
AllApart-ended :
    (now id : ℕ) (ps : List Promotion)
    → AllApart now ps
    → AllApart now (update_where (is_promotion id) (set_active false) ps)
AllApart-ended now id [] h = tt
AllApart-ended now id (p ∷ ps) (h, hs) =
    let later : All (IsApart now p) (update_where (is_promotion id) (set_active false) ps) =
      All-update_where (IsApart now p) id ps (λ q a x y. absurd (ground arith)) h in
    elim (Bool-cases (p.id == id)) [
      | inl e ↦
          rw e (All-imp (λ q a x y. absurd (ground arith)) _ later, AllApart-ended now id ps hs)
      | inr e ↦ rw e (later, AllApart-ended now id ps hs)
    ]

AllApart-later :
    (now later : ℕ) (ps : List Promotion) → now ≤ later → AllApart now ps → AllApart later ps
AllApart-later now later [] l h = tt
AllApart-later now later (p ∷ ps) l (h, hs) =
    (All-imp (λ q a x y. a (ground arith) (ground arith)) ps h, AllApart-later now later ps l hs)

All-append :
    (P : Promotion → Type 0) (ps : List Promotion) (q : Promotion)
    → All P ps
    → P q
    → All P (ps ++ (q ∷ []))
All-append P [] q h hq = (hq, tt)
All-append P (p ∷ ps) q (h, hs) hq = (h, All-append P ps q hs hq)

AllApart-append :
    (now : ℕ) (ps : List Promotion) (q : Promotion)
    → find_where (shares_slug q.listing_slugs) (filter (is_running now) ps) ≡ none
    → AllApart now ps
    → AllApart now (ps ++ (q ∷ []))
AllApart-append now [] q n h = (tt, tt)
AllApart-append now (p ∷ ps) q n (h, hs) = (
  All-append (IsApart now p) ps q h (λ x y. ground (arith, n, x)),
  AllApart-append now ps q (ground (arith, n)) hs,
)

create_promotion-rows :
    (body : PromotionInput) (by : Option ℕ) (now : ℕ) (db : Shelf)
    → ((create_promotion body by now db).1 ≡ db)
      ⊎ ((q : Promotion) × ((create_promotion body by now db).1.promotions
            ≡ db.promotions ++ (q ∷ []))
          × (find_where (shares_slug q.listing_slugs) (filter (is_running now) db.promotions)
              ≡ none))
unfolding create_promotion find_clash
create_promotion-rows body by now db =
    let slugs = filter non_blank body.listing_slugs in
    elim (Option-cases (fit_dates body.starts_at body.ends_at)) [
      | inl d ↦ inl (ground (arith, d))
      | inr (dates, d) ↦ elim (Option-cases (find_clash slugs now db)) [
        | inr (c, e) ↦ inl (ground (arith, d, e))
        | inl e ↦
            elim (Bool-cases (
              (is_empty (cut_name body.name) || is_empty slugs)
              || not (fit_discount body.discount_pct))) [
                | inl bad ↦ inl (ground (arith, d, e, bad))
                | inr good ↦ inr (new_promotion body dates by db, ground (arith, d, e, good), e)
              ]
      ]
    ]

create_promotion-AllApart :
    (body : PromotionInput) (by : Option ℕ) (now later : ℕ) (db : Shelf)
    → now ≤ later
    → AllApart now db.promotions
    → AllApart later (create_promotion body by now db).1.promotions
create_promotion-AllApart body by now later db l h = elim (create_promotion-rows body by now db) [
  | inl e ↦ rw e (AllApart-later now later _ l h)
  | inr (q, e, n) ↦ rw e (AllApart-later now later _ l (AllApart-append now db.promotions q n h))
]

close_promotion-AllApart :
    (id : ℕ) (reason : Text) (now : ℕ) (db : Shelf)
    → AllApart now db.promotions
    → AllApart now (close_promotion id reason db).1.promotions
close_promotion-AllApart id reason now db h = elim (close_promotion-rows id reason db) [
  | inl e ↦ rw e h
  | inr e ↦ rw e (AllApart-ended now id db.promotions h)
]

-- What the service is asked for: to make a promotion, or to close one, each so many milliseconds after
-- the request before
pub data PromotionStep : Type 0 where
  promotion_made : ℕ → PromotionInput → Option ℕ → PromotionStep
  promotion_closed : ℕ → ℕ → Text → PromotionStep

-- The time after the requests, and the tables
unfoldable pub promotion_steps : List PromotionStep → ℕ × Shelf → ℕ × Shelf
unfolding create_promotion close_promotion
promotion_steps [] w = w
promotion_steps (promotion_made wait body by ∷ ss) (now, db) =
    promotion_steps ss (now + wait, (create_promotion body by (now + wait) db).1)
promotion_steps (promotion_closed wait id reason ∷ ss) (now, db) =
    promotion_steps ss (now + wait, (close_promotion id reason db).1)

-- After any sequence of requests that make promotions and close them, at any times one after another,
-- no product is in two promotions that run then, if this was so at first. To set a closed promotion
-- active again is not among these requests.
pub promotion_steps-AllApart :
    (ss : List PromotionStep) (now : ℕ) (db : Shelf)
    → AllApart now db.promotions
    → let (later, db') = promotion_steps ss (now, db) in AllApart later db'.promotions
unfolding promotion_steps
promotion_steps-AllApart [] now db h = h
promotion_steps-AllApart (promotion_made wait body by ∷ ss) now db h =
    let later = now + wait in
    let db' = (create_promotion body by later db).1 in
    let start = AllApart-later now later db.promotions (omega arith) h in
    promotion_steps-AllApart ss later db'
      (create_promotion-AllApart body by later later db (omega arith) start)
promotion_steps-AllApart (promotion_closed wait id reason ∷ ss) now db h =
    let later = now + wait in
    let db' = (close_promotion id reason db).1 in
    promotion_steps-AllApart ss later db' (
      close_promotion-AllApart id reason later db
        (AllApart-later now later db.promotions (omega arith) h))
