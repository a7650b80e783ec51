-- ===== src/Text/Defs.antt =====
-- JavaScript strings as lists of UTF-16 code units, with the string methods that the code calls.
-- `to_lower_case` maps the letters of ASCII, of Latin-1 and of Vietnamese, in which the shop's customers
-- write; letters of other alphabets, which JavaScript's `toLowerCase` maps too, it leaves alone.
use Prim.Native.Char.{code}
use Prim.Native.String.{String}
use clock.Base.{
  Bool, List, [], false, if◌then◌else◌, is_empty, leb, map, not, true, ℕ, ◌%◌, ◌&&◌, ◌+◌, ◌==◌,
  ◌||◌, ◌∷◌,
}

abbrev pub Text : Type 0
Text = List ℕ

-- A literal. Those of the code are of the basic plane, where code points are code units.
abbrev pub codes : String → Text
codes String.[] = []
codes (String.◌∷◌ c s) = code c ∷ codes s

-- `===`
unfoldable pub text_eq : Text → Text → Bool
text_eq [] [] = true
text_eq [] (d ∷ t) = false
text_eq (c ∷ s) [] = false
text_eq (c ∷ s) (d ∷ t) = c == d && text_eq s t

-- The white space that `trim` and `\s` mean.
unfoldable pub is_space : ℕ → Bool
is_space c =
    (leb 9 c && leb c 13)
    || c == 32
    || c == 0xa0
    || c == 0x1680
    || (leb 0x2000 c && leb c 0x200a)
    || c == 0x2028
    || c == 0x2029
    || c == 0x202f
    || c == 0x205f
    || c == 0x3000
    || c == 0xfeff

unfoldable pub trim_start : Text → Text
trim_start [] = []
trim_start (c ∷ s) = let rest = trim_start s in if is_space c then rest else c ∷ s

unfoldable pub trim_end : Text → Text
trim_end [] = []
trim_end (c ∷ s) = let rest = trim_end s in if is_space c && is_empty rest then [] else c ∷ rest

unfoldable pub trim : Text → Text
trim s = trim_end (trim_start s)

-- Ă, Đ, Ĩ, Ũ, Ơ, Ư and the block of the Vietnamese letters with two marks, in which the letters in
-- upper case have the even codes; the letter in lower case is the next one.
abbrev pub is_vietnamese_upper : ℕ → Bool
is_vietnamese_upper c =
    (c == 0x102 || c == 0x110 || c == 0x128 || c == 0x168 || c == 0x1a0 || c == 0x1af)
    || (leb 0x1ea0 c && leb c 0x1ef8 && c % 2 == 0)

-- A letter beyond ASCII: those of Latin-1, where the sign × stands among them, and the Vietnamese ones
unfoldable pub lower_wide : ℕ → ℕ
lower_wide c =
    if leb 0xc0 c && leb c 0xde && not (c == 0xd7)
    then c + 32
    else if is_vietnamese_upper c
    then c + 1
    else c

unfoldable pub lower : ℕ → ℕ
unfolding lower_wide
lower c = if leb b'A' c && leb c b'Z' then c + 32 else if leb 0x80 c then lower_wide c else c

unfoldable pub to_lower_case : Text → Text
to_lower_case s = map lower s

-- `list.includes(s)`
unfoldable pub includes : List Text → Text → Bool
unfolding text_eq
includes [] s = false
includes (t ∷ ts) s = text_eq t s || includes ts s

unfoldable pub starts_with : Text → Text → Bool
starts_with [] s = true
starts_with (c ∷ p) [] = false
starts_with (c ∷ p) (d ∷ s) = c == d && starts_with p s
