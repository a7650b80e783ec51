-- ===== src/Checkout/Sorting.antt =====
-- The fingerprint of a cart does not depend on the order of its lines.
use clock.Base.{List, [], ap, arith, false, map, refl, true, ◌++◌, ◌∙◌, ◌∷◌, ◌≡◌}
use clock.Checkout.{
  CartLine, checkout_fingerprint, hash_text, insert_text, join_bars, line_part, sort_texts,
  text_leb, to_base36,
}
use clock.Text.{Text, codes}
use mathlib.Core.List.{Perm, Permᴰ}
use mathlib.Core.Logic.{∥∥₁_elim}

text_leb_total : (s t : Text) → text_leb s t ≡ false → text_leb t s ≡ true
unfolding text_leb
text_leb_total [] t h = cc
text_leb_total (c ∷ s) [] h = refl
text_leb_total (c ∷ s) (d ∷ t) h = ground (arith, h, text_leb_total s t)

text_leb_antisym : (s t : Text) → text_leb s t ≡ true → text_leb t s ≡ true → s ≡ t
unfolding text_leb
text_leb_antisym [] [] h k = refl
text_leb_antisym [] (d ∷ t) h k = cc
text_leb_antisym (c ∷ s) [] h k = cc
text_leb_antisym (c ∷ s) (d ∷ t) h k = ground (arith, h, k, text_leb_antisym s t)

text_leb_trans : (s t u : Text) → text_leb s t ≡ true → text_leb t u ≡ true → text_leb s u ≡ true
unfolding text_leb
text_leb_trans [] t u h k = refl
text_leb_trans (c ∷ s) [] u h k = cc
text_leb_trans (c ∷ s) (d ∷ t) [] h k = cc
text_leb_trans (c ∷ s) (d ∷ t) (e ∷ u) h k = ground (arith, h, k, text_leb_trans s t u)

insert_text_comm :
    (s t : Text) (l : List Text) → insert_text s (insert_text t l) ≡ insert_text t (insert_text s l)
unfolding insert_text
insert_text_comm s t [] = ground (arith, text_leb_total s t, text_leb_antisym s t)
insert_text_comm s t (x ∷ l) = ground (
  arith,
  insert_text_comm s t l,
  text_leb_total s t,
  text_leb_antisym s t,
  text_leb_total s x,
  text_leb_total t x,
  text_leb_trans s t x,
  text_leb_trans t s x,
  text_leb_trans s x t,
  text_leb_trans t x s,
)

sort_texts-perm : (ss ts : List Text) → Permᴰ ss ts → sort_texts ss ≡ sort_texts ts
unfolding sort_texts
sort_texts-perm _ _ Permᴰ.nil = refl
sort_texts-perm _ _ (Permᴰ.cons {a = s} {b = t} {l₁ = ss} {l₂ = ts} e p) =
    cc (e, sort_texts-perm ss ts p)
sort_texts-perm _ _ (Permᴰ.swap {a = s} {b = t} {a' = u} {b' = v} {l = l} e f) =
    cc (e, f, insert_text_comm s t (sort_texts l))
sort_texts-perm _ _ (Permᴰ.trans {l₁ = ss} {l₂ = ts} {l₃ = us} p q) =
    sort_texts-perm ss ts p ∙ sort_texts-perm ts us q

map-perm : (f : CartLine → Text) (xs ys : List CartLine) → Permᴰ xs ys → Permᴰ (map f xs) (map f ys)
map-perm f _ _ Permᴰ.nil = Permᴰ.nil
map-perm f _ _ (Permᴰ.cons {l₁ = xs} {l₂ = ys} e p) = Permᴰ.cons (ap f e) (map-perm f xs ys p)
map-perm f _ _ (Permᴰ.swap e e') = Permᴰ.swap (ap f e) (ap f e')
map-perm f _ _ (Permᴰ.trans {l₁ = xs} {l₂ = ys} {l₃ = zs} p q) =
    Permᴰ.trans (map-perm f xs ys p) (map-perm f ys zs q)

fingerprint_of_texts :
    (xs ys : List CartLine)
    → sort_texts (map line_part xs) ≡ sort_texts (map line_part ys)
    → checkout_fingerprint xs ≡ checkout_fingerprint ys
unfolding checkout_fingerprint
fingerprint_of_texts xs ys e =
    ap (λ (l : List Text). codes "fp" ++ to_base36 7 (hash_text 0 (join_bars l)) []) e

-- The fingerprint of a cart is the same in whatever order its lines stand.
pub checkout_fingerprint-perm :
    (xs ys : List CartLine) → Perm xs ys → checkout_fingerprint xs ≡ checkout_fingerprint ys
checkout_fingerprint-perm xs ys p =
    let same : (d : Permᴰ xs ys) → checkout_fingerprint xs ≡ checkout_fingerprint ys = λ d.
      fingerprint_of_texts xs ys
        (sort_texts-perm (map line_part xs) (map line_part ys) (map-perm line_part xs ys d)) in
    ∥∥₁_elim p (hlevel) same
