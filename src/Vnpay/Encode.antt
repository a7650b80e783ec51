-- ===== src/Vnpay/Encode.antt =====
-- `encode` of backend/src/common/vnpay.ts: `encodeURIComponent(v).replace(/%20/g, '+')`, for text of
-- the basic plane (a surrogate pair, as in an emoji, is outside the model).
use clock.Base.{
  Bool, List, [], if◌then◌else◌, leb, ltb, ℕ, ◌%◌, ◌&&◌, ◌++◌, ◌+◌, ◌-◌, ◌/◌, ◌==◌, ◌||◌, ◌∷◌,
}
use clock.Text.{Text}

-- `A-Z a-z 0-9 - _ . ! ~ * ' ( )`
unfoldable pub is_unreserved : ℕ → Bool
is_unreserved c =
    (leb b'A' c && leb c b'Z')
    || (leb b'a' c && leb c b'z')
    || (leb b'0' c && leb c b'9')
    || c == b'-'
    || c == b'_'
    || c == b'.'
    || c == b'!'
    || c == b'~'
    || c == b'*'
    || c == 39
    || c == b'('
    || c == b')'

unfoldable pub hex_digit : ℕ → ℕ
hex_digit n = if ltb n 10 then b'0' + n else b'A' + n - 10

-- A byte as `%XX`, but a space as `+`.
unfoldable pub percent : ℕ → Text
unfolding hex_digit
percent b = if b == 32 then b'+' ∷ [] else b'%' ∷ hex_digit (b / 16) ∷ hex_digit (b % 16) ∷ []

-- The bytes of UTF-8.
unfoldable pub utf8 : ℕ → List ℕ
utf8 c =
    if ltb c 0x80
    then c ∷ []
    else if ltb c 0x800
    then (0xc0 + c / 64) ∷ (0x80 + c % 64) ∷ []
    else (0xe0 + c / 4096) ∷ (0x80 + c / 64 % 64) ∷ (0x80 + c % 64) ∷ []

unfoldable pub percents : List ℕ → Text
unfolding percent
percents [] = []
percents (b ∷ bs) = percent b ++ percents bs

unfoldable pub encode : Text → Text
unfolding is_unreserved percents utf8
encode [] = []
encode (c ∷ s) = (if is_unreserved c then c ∷ [] else percents (utf8 c)) ++ encode s
