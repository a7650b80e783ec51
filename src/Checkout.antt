-- ===== src/Checkout.antt =====
-- src/lib/idempotency.ts: the key that goes with an order of the front end, so that the server
-- takes it once. The key is kept in the browser's storage under the fingerprint of the cart.
pub mod Sorting
pub mod Base36
pub mod Key
pub mod Accepted
pub mod Place
use clock.Base.{
  Bool, List, [], false, if◌then◌else◌, ltb, map, suc, true, zero, ℕ, ◌%◌, ◌&&◌, ◌*◌, ◌++◌, ◌+◌,
  ◌-◌, ◌/◌, ◌==◌, ◌^◌, ◌||◌, ◌∷◌,
}
use clock.Text.{Text, codes}
use clock.Vnpay.{to_digits}

-- What the fingerprint reads of a line of the cart
pub record CartLine : Type 0 where
  pub slug : Text
  pub qty : ℕ
  pub price_usd : ℕ

-- The order of `sort()` on texts: that of their code units
unfoldable pub text_leb : Text → Text → Bool
text_leb [] t = true
text_leb (c ∷ s) [] = false
text_leb (c ∷ s) (d ∷ t) = ltb c d || (c == d && text_leb s t)

unfoldable pub insert_text : Text → List Text → List Text
unfolding text_leb
insert_text s [] = s ∷ []
insert_text s (t ∷ ts) =
    let rest = insert_text s ts in if text_leb s t then s ∷ t ∷ ts else t ∷ rest

unfoldable pub sort_texts : List Text → List Text
unfolding insert_text
sort_texts [] = []
sort_texts (s ∷ ss) = insert_text s (sort_texts ss)

-- `join("|")`
unfoldable pub join_bars : List Text → Text
join_bars [] = []
join_bars (s ∷ []) = s
join_bars (s ∷ t ∷ ts) = s ++ (b'|' ∷ join_bars (t ∷ ts))

unfoldable pub line_part : CartLine → Text
unfolding to_digits
line_part i = i.slug ++ (b':' ∷ (to_digits i.qty ++ (b':' ∷ to_digits i.price_usd)))

-- `h = (Math.imul(h, 31) + c) | 0` for each unit `c`, on the 32 bits of `h` read without a sign
unfoldable pub hash_text : ℕ → Text → ℕ
hash_text h [] = h
hash_text h (c ∷ s) = hash_text ((h * 31 + c) % 2 ^ 32) s

-- The digits `0` to `9` and `a` to `z`
abbrev pub digit36 : ℕ → ℕ
digit36 d = if ltb d 10 then b'0' + d else b'a' + (d - 10)

-- `toString(36)`, before the digits that are written already
unfoldable pub to_base36 : ℕ → ℕ → Text → Text
to_base36 zero n s = s
to_base36 (suc fuel) n s =
    let rest = to_base36 fuel (n / 36) (digit36 (n % 36) ∷ s) in
    if ltb n 36 then digit36 n ∷ s else rest

-- Seven digits are enough for 32 bits.
unfoldable pub checkout_fingerprint : List CartLine → Text
unfolding sort_texts join_bars line_part hash_text to_base36
checkout_fingerprint items =
    codes "fp" ++ to_base36 7 (hash_text 0 (join_bars (sort_texts (map line_part items)))) []
