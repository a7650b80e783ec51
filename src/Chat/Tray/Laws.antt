-- ===== src/Chat/Tray/Laws.antt =====
-- The tray holds at most six pieces, and no piece twice.
use clock.AgentEvents.{Suggestion}
use clock.Base.{
  Bool, Bool-cases, List, [], any, ap, arith, drop, false, filter, inl, inr, length, refl, suc,
  true, zero, ℕ, ◌++◌, ◌-◌, ◌||◌, ◌∙◌, ◌∷◌, ◌≡◌, ◌≤◌,
}
use clock.Chat.Stream.Laws.{append_assoc}
use clock.Chat.Tray.{add_to_tray, has_product_slug, is_fresh, slug_of}
use clock.Text.{Text, eq_of_text_eq, text_eq, text_eq_refl}
use mathlib.Core.Path.{subst}

abbrev pub IsDistinct : List Suggestion → Type 0
IsDistinct [] = Unit
IsDistinct (e ∷ es) = (any (has_product_slug (slug_of e)) es ≡ false) × IsDistinct es

any-filter :
    (slug : Text) (p : Suggestion → Bool) (es : List Suggestion)
    → any (has_product_slug slug) es ≡ false
    → any (has_product_slug slug) (filter p es) ≡ false
any-filter slug p [] h = refl
any-filter slug p (e ∷ es) h = ground (arith, any-filter slug p es)

filter-IsDistinct :
    (p : Suggestion → Bool) (es : List Suggestion) → IsDistinct es → IsDistinct (filter p es)
filter-IsDistinct p [] h = tt
filter-IsDistinct p (e ∷ es) (new, h) = elim (Bool-cases (p e)) [
  | inl kept ↦ rw kept (any-filter (slug_of e) p es new, filter-IsDistinct p es h)
  | inr gone ↦ rw gone (filter-IsDistinct p es h)
]

drop-IsDistinct : (n : ℕ) (es : List Suggestion) → IsDistinct es → IsDistinct (drop n es)
drop-IsDistinct zero es h = h
drop-IsDistinct (suc n) [] h = tt
drop-IsDistinct (suc n) (e ∷ es) (new, h) = drop-IsDistinct n es h

any-append :
    (slug : Text) (xs ys : List Suggestion)
    → any (has_product_slug slug) (xs ++ ys)
      ≡ (any (has_product_slug slug) xs || any (has_product_slug slug) ys)
any-append slug [] ys = refl
any-append slug (x ∷ xs) ys = ground (arith, any-append slug xs ys)

-- No piece of the first list is in the second.
abbrev AreApart : List Suggestion → List Suggestion → Type 0
AreApart [] ys = Unit
AreApart (x ∷ xs) ys = (any (has_product_slug (slug_of x)) ys ≡ false) × AreApart xs ys

append-IsDistinct :
    (xs ys : List Suggestion)
    → IsDistinct xs
    → IsDistinct ys
    → AreApart xs ys
    → IsDistinct (xs ++ ys)
append-IsDistinct [] ys h k a = k
append-IsDistinct (x ∷ xs) ys (new, h) k (apart, a) =
    (ground (arith, any-append (slug_of x) xs ys), append-IsDistinct xs ys h k a)

fresh-differs :
    (prev : List Suggestion) (x e : Suggestion)
    → is_fresh prev e ≡ true
    → any (has_product_slug (slug_of x)) prev ≡ true
    → text_eq (slug_of e) (slug_of x) ≡ false
fresh-differs prev x e fresh old = elim (Bool-cases (text_eq (slug_of e) (slug_of x))) [
  | inl same ↦
      let seen : any (has_product_slug (slug_of e)) prev ≡ true =
        ap (λ (t : Text). any (has_product_slug t) prev)
          (eq_of_text_eq (slug_of e) (slug_of x) same)
        ∙ old in
      absurd (ground (arith, fresh, seen))
  | inr differ ↦ differ
]

-- A piece of the tray is not fresh.
any-fresh :
    (x : Suggestion) (prev es : List Suggestion)
    → any (has_product_slug (slug_of x)) prev ≡ true
    → any (has_product_slug (slug_of x)) (filter (is_fresh prev) es) ≡ false
any-fresh x prev [] h = refl
any-fresh x prev (e ∷ es) h = elim (Bool-cases (is_fresh prev e)) [
  | inl fresh ↦
      let differ = fresh-differs prev x e fresh h in
      let rest = any-fresh x prev es h in rw fresh (ground (arith, differ, rest))
  | inr old ↦ rw old (any-fresh x prev es h)
]

-- `seen` is the part of the tray that was looked at.
apart-fresh : (seen xs es : List Suggestion) → AreApart xs (filter (is_fresh (seen ++ xs)) es)
apart-fresh seen [] es = tt
apart-fresh seen (x ∷ xs) es = (
  any-fresh x (seen ++ (x ∷ xs)) es
      (ground (arith, any-append (slug_of x) seen (x ∷ xs), text_eq_refl (slug_of x))),
  subst (λ (l : List Suggestion). AreApart xs (filter (is_fresh l) es))
      (append_assoc seen (x ∷ []) xs) (apart-fresh (seen ++ (x ∷ [])) xs es),
)

length-drop : (n : ℕ) (es : List Suggestion) → length (drop n es) ≡ length es - n
length-drop zero es = omega arith
length-drop (suc n) [] = omega arith
length-drop (suc n) (e ∷ es) = omega (arith, length-drop n es)

-- If no piece stands twice in the tray, nor in the list that the agent shows, then afterwards none
-- stands twice in the tray, and the tray holds at most six pieces.
pub add_to_tray-IsDistinct :
    (prev incoming : List Suggestion)
    → IsDistinct prev
    → IsDistinct incoming
    → IsDistinct (add_to_tray prev incoming) × (length (add_to_tray prev incoming) ≤ 6)
unfolding add_to_tray
add_to_tray-IsDistinct prev incoming h k =
    let es = filter (is_fresh prev) incoming in
    (
      drop-IsDistinct (length (prev ++ es) - 6) (prev ++ es) (
          append-IsDistinct prev es h (filter-IsDistinct (is_fresh prev) incoming k)
            (apart-fresh [] prev incoming)),
      omega (arith, length-drop (length (prev ++ es) - 6) (prev ++ es)),
    )
