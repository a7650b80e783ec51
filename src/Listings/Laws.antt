-- ===== src/Listings/Laws.antt =====
-- What the table of products keeps, whatever the back office makes and changes.
use clock.Admin.Orders.{reference}
use clock.Base.{
  All, Bool, Bool-cases, List, [], any, ap, arith, false, if◌then◌else◌, inl, inr, length, none,
  pos, refl, sym, true, ℕ, ◌*◌, ◌<◌, ◌∷◌, ◌≡◌, ◌≤◌,
}
use clock.Db.Rows.{count_where, update_where}
use clock.Listings.{ProductListing, has_listing_slug, is_duplicate}
use clock.Listings.Update.{is_taken}
use clock.Pricing.{line_price, strap_delta, strap_options}
use clock.Text.{Text, eq_of_text_eq, text_eq, text_eq_iff}

abbrev pub has_reference : Text → ProductListing → Bool
has_reference r p = text_eq p.reference r

-- A price in dollars above 0 with its price in dong, and a name of at most 200 letters
abbrev pub IsPriced : ProductListing → Type 0
IsPriced p = (0 < p.price_usd) × (p.price_vnd ≡ p.price_usd * 25_200) × (length p.name ≤ 200)

pub record IsCatalogue (rows : List ProductListing) : Type 0 where
  pub priced : All IsPriced rows
  pub slugs : (s : Text) → count_where (has_listing_slug s) rows ≤ 1
  pub references : (r : Text) → count_where (has_reference r) rows ≤ 1

pub line_price-vnd :
    (n : ℕ)
    → ((line_price (pos n) none).price_usd ≡ n) × ((line_price (pos n) none).price_vnd ≡ n * 25_200)
unfolding line_price strap_delta strap_options
line_price-vnd n = (omega arith, omega arith)

none_counted :
    (slug reference : Text) (rows : List ProductListing)
    → any (is_duplicate slug reference) rows ≡ false
    → (count_where (has_listing_slug slug) rows ≡ 0)
      × (count_where (has_reference reference) rows ≡ 0)
none_counted slug reference [] h = (refl, refl)
none_counted slug reference (p ∷ rows) h =
    let (s, r) = none_counted slug reference rows (ground (arith, h)) in
    (ground (arith, h, s), ground (arith, h, r))

count-other :
    (s t : Text) (rows : List ProductListing)
    → text_eq s t ≡ true
    → count_where (has_listing_slug t) rows ≡ count_where (has_listing_slug s) rows
count-other s t rows e =
    ap (λ (x : Text). count_where (has_listing_slug x) rows) (sym (eq_of_text_eq s t e))

count_reference-other :
    (s t : Text) (rows : List ProductListing)
    → text_eq s t ≡ true
    → count_where (has_reference t) rows ≡ count_where (has_reference s) rows
count_reference-other s t rows e =
    ap (λ (x : Text). count_where (has_reference x) rows) (sym (eq_of_text_eq s t e))

-- A new row that no row is like
pub cons-IsCatalogue :
    (p : ProductListing) (rows : List ProductListing)
    → IsPriced p
    → any (is_duplicate p.slug p.reference) rows ≡ false
    → IsCatalogue rows
    → IsCatalogue (p ∷ rows)
cons-IsCatalogue p rows good new h =
    let (no_slug, no_reference) = none_counted p.slug p.reference rows new in
    record {
      priced = (good, h.priced);
      slugs = λ s. ground (arith, no_slug, h.slugs s, count-other p.slug s rows);
      references = λ r.
          ground (arith, no_reference, h.references r, count_reference-other p.reference r rows);
    }

-- A change that keeps the slug and gives the reference `get_or reference`
module _ (s : Text) (f : ProductListing → ProductListing)
    (keeps : (p : ProductListing) → (f p).slug ≡ p.slug) where
  pub count_slug-update :
      (t : Text) (rows : List ProductListing)
      → count_where (has_listing_slug t) (update_where (has_listing_slug s) f rows)
        ≡ count_where (has_listing_slug t) rows
  count_slug-update t [] = refl
  count_slug-update t (p ∷ rows) = ground (arith, keeps p, count_slug-update t rows)

  pub count_reference-same :
      (r : Text) (rows : List ProductListing)
      → ((p : ProductListing) → (f p).reference ≡ p.reference)
      → count_where (has_reference r) (update_where (has_listing_slug s) f rows)
        ≡ count_where (has_reference r) rows
  count_reference-same r [] same = refl
  count_reference-same r (p ∷ rows) same = ground (arith, same p, count_reference-same r rows same)

  pub count_reference-new :
      (r r' : Text) (rows : List ProductListing)
      → ((p : ProductListing) → (f p).reference ≡ r')
      → any (is_taken s r') rows ≡ false
      → count_where (has_reference r) (update_where (has_listing_slug s) f rows) ≤ (
          if text_eq r' r
          then count_where (has_listing_slug s) rows
          else count_where (has_reference r) rows)
  count_reference-new r r' [] new free = ground arith
  count_reference-new r r' (p ∷ rows) new free = ground (
    arith,
    new p,
    count_reference-new r r' rows new (ground (arith, free)),
    text_eq_iff r' r,
    text_eq_iff p.reference r,
    free,
  )

  pub update-IsPriced :
      (rows : List ProductListing)
      → ((p : ProductListing) → IsPriced p → IsPriced (f p))
      → All IsPriced rows
      → All IsPriced (update_where (has_listing_slug s) f rows)
  update-IsPriced [] good h = tt
  update-IsPriced (p ∷ rows) good (q, h) = elim (Bool-cases (has_listing_slug s p)) [
    | inl this ↦ rw this (good p q, update-IsPriced rows good h)
    | inr other ↦ rw other (q, update-IsPriced rows good h)
  ]
