-- ===== src/Phone.antt =====
-- backend/src/common/phone.ts: contacts brought to one form, to compare who owns an order.
pub mod Laws
pub mod Ownership
use clock.Base.{
  Bool, Option, [], all, drop, false, if◌then◌else◌, is_empty, leb, length, none, some, ℕ, ◌&&◌,
  ◌==◌, ◌||◌, ◌∷◌,
}
use clock.Text.{Text, codes, is_space, starts_with, text_eq, to_lower_case, trim}

-- The class `[\s.\-()]` of the separators.
abbrev pub is_separator : ℕ → Bool
is_separator c = is_space c || c == b'.' || c == b'-' || c == b'(' || c == b')'

unfoldable pub strip_separators : Text → Text
strip_separators [] = []
strip_separators (c ∷ s) = if is_separator c then strip_separators s else c ∷ strip_separators s

abbrev pub is_digit : ℕ → Bool
is_digit c = leb b'0' c && leb c b'9'

abbrev pub is_mobile_digit : ℕ → Bool
is_mobile_digit c = c == b'3' || c == b'5' || c == b'7' || c == b'8' || c == b'9'

-- The expression `/^0(3|5|7|8|9)\d{8}$/`.
unfoldable pub is_vn_mobile : Text → Bool
is_vn_mobile [] = false
is_vn_mobile (z ∷ []) = false
is_vn_mobile (z ∷ c ∷ rest) =
    z == b'0' && is_mobile_digit c && length rest == 8 && all is_digit rest

-- The country code to the leading 0.
unfoldable pub localize : Text → Text
localize s =
    if starts_with (codes "+84") s
    then b'0' ∷ drop 3 s
    else if starts_with (codes "0084") s
    then b'0' ∷ drop 4 s
    else if starts_with (codes "84") s && length s == 11
    then b'0' ∷ drop 2 s
    else s

-- The last three lines of `normalizeVnPhone`, on a text without separators.
unfoldable pub mobile_of : Text → Option Text
mobile_of t = let s = localize t in if is_vn_mobile s then some s else none

-- `none` is `null`: no Vietnamese mobile number. A missing value is the empty text.
unfoldable pub normalize_vn_phone : Text → Option Text
normalize_vn_phone raw =
    let bare = trim raw in if is_empty bare then none else mobile_of (strip_separators bare)

-- The last lines of `sameContact`, for two texts that are not blank.
abbrev pub same_normalized : Option Text → Option Text → Text → Text → Bool
same_normalized (some px) (some py) x y = text_eq px py
same_normalized _ _ x y = text_eq (to_lower_case x) (to_lower_case y)

unfoldable pub same_contact : Text → Text → Bool
same_contact a b =
    let x = trim a in
    let y = trim b in
    if is_empty x || is_empty y
    then false
    else same_normalized (normalize_vn_phone x) (normalize_vn_phone y) x y
