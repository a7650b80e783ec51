-- ===== src/Db/RowLaws.antt =====
-- Sums and counts over a table under an update of the rows that match.
use clock.Base.{
  Bool, List, [], arith, false, filter, if◌then◌else◌, length, none, refl, some, true, ℕ, ◌++◌, ◌+◌,
  ◌∷◌, ◌≡◌, ◌≢◌, ◌≤◌,
}
use clock.Db.Rows.{count_where, delete_where, find_where, sum_by, update_where}

module _ {ℓ} {A : Type ℓ} where
  -- A sum over the updated rows: what the matching rows gave is replaced by what they give now.
  pub sum_by-update_where :
      (f : A → ℕ) (p : A → Bool) (g : A → A) (xs : List A)
      → sum_by f (update_where p g xs) + sum_by f (filter p xs)
        ≡ sum_by f xs + sum_by (λ x. f (g x)) (filter p xs)
  sum_by-update_where f p g [] = refl
  sum_by-update_where f p g (x ∷ xs) = ground (arith, sum_by-update_where f p g xs)

  pub count_where-update_where :
      (p q : A → Bool) (g : A → A) (xs : List A)
      → ((x : A) → q (g x) ≡ q x)
      → count_where q (update_where p g xs) ≡ count_where q xs
  count_where-update_where p q g [] h = refl
  count_where-update_where p q g (x ∷ xs) h =
      ground (arith, h x, count_where-update_where p q g xs h)

  pub filter-nil : (p : A → Bool) (xs : List A) → count_where p xs ≡ 0 → filter p xs ≡ []
  filter-nil p [] h = refl
  filter-nil p (x ∷ xs) h = ground (arith, filter-nil p xs)

  pub update_where_nil :
      (p : A → Bool) (g : A → A) (xs : List A) → count_where p xs ≡ 0 → update_where p g xs ≡ xs
  update_where_nil p g [] h = refl
  update_where_nil p g (x ∷ xs) h = ground (arith, update_where_nil p g xs)

  -- Where at most one row meets `q`, and `p` is `q` and more, the rows that meet `p` are none or the one that `q` finds.
  pub filter-find_where :
      (p q : A → Bool) (xs : List A) (x : A)
      → ((y : A) → p y ≡ true → q y ≡ true)
      → count_where q xs ≤ 1
      → find_where q xs ≡ some x
      → filter p xs ≡ (if p x then x ∷ [] else [])
  filter-find_where p q [] x sub one e = cc
  filter-find_where p q (y ∷ xs) x sub one e =
      ground (arith, sub y, sub x, filter-none, filter-find_where p q xs x sub)
    where
      none_left : (zs : List A) → count_where q zs ≡ 0 → filter p zs ≡ []
      none_left [] h = refl
      none_left (z ∷ zs) h = ground (arith, sub z, none_left zs)

      filter-none : count_where q xs ≡ 0 → filter p xs ≡ []
      filter-none = none_left xs

  pub count_where-eq-length : (p : A → Bool) (xs : List A) → count_where p xs ≡ length (filter p xs)
  count_where-eq-length p [] = refl
  count_where-eq-length p (x ∷ xs) = ground (arith, count_where-eq-length p xs)

  -- A row that was found and meets `p` is counted.
  pub count_where-find_where :
      (p q : A → Bool) (xs : List A) (x : A)
      → find_where q xs ≡ some x
      → p x ≡ true
      → count_where p xs ≢ 0
  count_where-find_where p q [] x e h = cc
  count_where-find_where p q (y ∷ xs) x e h = ground (arith, count_where-find_where p q xs x)

  abbrev pub update_row : (A → Bool) → (A → A) → A → A
  update_row p g x = if p x then g x else x

  -- A lookup by what an update leaves alone finds the row, updated.
  pub find_where-update_where :
      (p q : A → Bool) (g : A → A) (xs : List A)
      → ((x : A) → q (g x) ≡ q x)
      → find_where q (update_where p g xs)
        ≡ elim (find_where q xs) [ none ↦ none | some x ↦ some (update_row p g x) ]
  find_where-update_where p q g [] h = refl
  find_where-update_where p q g (x ∷ xs) h = ground (arith, h x, find_where-update_where p q g xs h)

  pub find_where-delete_where :
      (p : A → Bool) (xs : List A) → find_where p (delete_where p xs) ≡ none
  find_where-delete_where p [] = refl
  find_where-delete_where p (x ∷ xs) = ground (arith, find_where-delete_where p xs)

  -- A deletion leaves alone what it does not mean.
  pub find_where-delete_other :
      (p q : A → Bool) (xs : List A)
      → ((x : A) → q x ≡ true → p x ≡ false)
      → find_where q (delete_where p xs) ≡ find_where q xs
  find_where-delete_other p q [] h = refl
  find_where-delete_other p q (x ∷ xs) h = ground (arith, h x, find_where-delete_other p q xs h)

  pub find_where-true : (p : A → Bool) (xs : List A) (x : A) → find_where p xs ≡ some x → p x ≡ true
  find_where-true p [] x h = cc
  find_where-true p (y ∷ xs) x h = ground (arith, find_where-true p xs x)

  -- What is found with one more row at the end
  pub find_where-append :
      (p : A → Bool) (xs : List A) (new : A)
      → p new ≡ false
      → find_where p (xs ++ (new ∷ [])) ≡ find_where p xs
  find_where-append p [] new h = ground arith
  find_where-append p (x ∷ xs) new h = ground (arith, find_where-append p xs new h)
