-- ===== src/AgentProxy/Laws.antt =====
-- The path that is passed on, taken apart again.
use clock.AgentProxy.{backslash, clean_segments, has_char, is_dirty, join_path, normalize_sub_path}
use clock.Base.{
  All, Bool-cases, List, Option, Option-cases, [], ap, arith, false, if◌then◌else◌, inl, inr, refl,
  some, ◌++◌, ◌==◌, ◌∙◌, ◌∷◌, ◌≡◌, ◌≢◌,
}
use clock.Text.{Text, codes, text_eq, text_eq_iff}
use mathlib.Core.Path.{subst}

-- The parts of a path between its slashes; `acc` is the part begun.
unfoldable pub split_path : Text → Text → List Text
split_path acc [] = acc ∷ []
split_path acc (c ∷ s) =
    let next = split_path [] s in
    let on = split_path (acc ++ (c ∷ [])) s in if c == b'/' then acc ∷ next else on

append_assoc : (a b c : Text) → (a ++ b) ++ c ≡ a ++ (b ++ c)
append_assoc [] b c = refl
append_assoc (x ∷ a) b c = cc (append_assoc a b c)

append_nil : (a : Text) → a ++ [] ≡ a
append_nil [] = refl
append_nil (x ∷ a) = cc (append_nil a)

-- A part without a slash is taken as it is.
split_path-part :
    (acc s rest : Text)
    → has_char b'/' s ≡ false
    → split_path acc (s ++ (b'/' ∷ rest)) ≡ (acc ++ s) ∷ split_path [] rest
unfolding split_path has_char
split_path-part acc [] rest h = rw (append_nil acc) refl
split_path-part acc (c ∷ s) rest h =
    let head = append_assoc acc (c ∷ []) s in
    ground (arith, h, head, split_path-part (acc ++ (c ∷ [])) s rest)

split_path-last : (acc s : Text) → has_char b'/' s ≡ false → split_path acc s ≡ (acc ++ s) ∷ []
unfolding split_path has_char
split_path-last acc [] h = rw (append_nil acc) refl
split_path-last acc (c ∷ s) h =
    let head = append_assoc acc (c ∷ []) s in
    ground (arith, h, head, split_path-last (acc ++ (c ∷ [])) s)

split_path-join_path :
    (s : Text) (ss : List Text)
    → All (λ t. has_char b'/' t ≡ false) (s ∷ ss)
    → split_path [] (join_path (s ∷ ss)) ≡ s ∷ ss
unfolding join_path
split_path-join_path s [] (h, hs) = split_path-last [] s h
split_path-join_path s (t ∷ ss) (h, hs) =
    split_path-part [] s (join_path (t ∷ ss)) h
    ∙ ap (λ (r : List Text). s ∷ r) (split_path-join_path t ss hs)

-- No segment has a slash once it is decoded.
abbrev pub AllWhole : (Text → Option Text) → List Text → Type 0
AllWhole decode [] = Unit {0}
AllWhole decode (s ∷ ss) =
    ((t : Text) → decode s ≡ some t → has_char b'/' t ≡ false) × AllWhole decode ss

abbrev IsCleanPart : Text → Type 0
IsCleanPart t = (is_dirty t ≡ false) × (has_char b'/' t ≡ false)

clean_segments-clean :
    (decode : Text → Option Text) (ss segs : List Text)
    → AllWhole decode ss
    → clean_segments decode ss ≡ some segs
    → All IsCleanPart segs
unfolding clean_segments
clean_segments-clean decode [] segs w h =
    let same : [] ≡ segs = ground (arith, h) in subst (All IsCleanPart) same tt
clean_segments-clean decode (s ∷ ss) segs (w, ws) h = elim (Option-cases (decode s)) [
  | inl n ↦ absurd (ground (arith, h, n))
  | inr (t, d) ↦ elim (Bool-cases (is_dirty t)) [
    | inl bad ↦ absurd (ground (arith, h, d, bad))
    | inr good ↦ elim (Option-cases (clean_segments decode ss)) [
      | inl n ↦ absurd (ground (arith, h, d, good, n))
      | inr (ts, e) ↦
          let same : t ∷ ts ≡ segs = ground (arith, h, d, good, e) in
          subst (All IsCleanPart) same ((good, w t d), clean_segments-clean decode ss ts ws e)
    ]
  ]
]

whole_parts : (segs : List Text) → All IsCleanPart segs → All (λ t. has_char b'/' t ≡ false) segs
whole_parts [] h = tt
whole_parts (s ∷ ss) (h, hs) = (h.1, whole_parts ss hs)

-- A part of a path that names an entry below: it is not empty, it is neither `.` nor `..`, and it has
-- no backslash, which some hosts read as a slash.
abbrev pub IsEntry : Text → Type 0
IsEntry t = (t ≢ []) × (t ≢ codes ".") × (t ≢ codes "..") × (has_char backslash t ≡ false)

not_same : (t w : Text) → text_eq t w ≡ false → t ≢ w
not_same t w h e = absurd (ground (arith, h, (text_eq_iff t w).1 e))

clean-IsEntry : (t : Text) → is_dirty t ≡ false → IsEntry t
unfolding is_dirty
clean-IsEntry t h = (
  not_same t [] (ground (arith, h)),
  not_same t (codes ".") (ground (arith, h)),
  not_same t (codes "..") (ground (arith, h)),
  ground (arith, h),
)

clean_parts : (segs : List Text) → All IsCleanPart segs → All IsEntry segs
clean_parts [] h = tt
clean_parts (s ∷ ss) (h, hs) = (clean-IsEntry s h.0, clean_parts ss hs)

clean_segments-some :
    (decode : Text → Option Text) (s : Text) (ss : List Text)
    → clean_segments decode (s ∷ ss) ≢ some []
unfolding clean_segments
clean_segments-some decode s ss h = absurd (ground (arith, h))

-- A path that is accepted has, between its slashes, no empty part, no `.` and no `..`, and no backslash
-- in a part, if no segment has a slash once it is decoded.
pub normalize_sub_path-clean :
    (decode : Text → Option Text) (segments : List Text) (sub : Text)
    → AllWhole decode segments
    → normalize_sub_path decode segments ≡ some sub
    → All IsEntry (split_path [] sub)
unfolding normalize_sub_path
normalize_sub_path-clean decode [] sub w h = absurd (ground (arith, h))
normalize_sub_path-clean decode (s ∷ ss) sub w h =
    elim (Option-cases (clean_segments decode (s ∷ ss))) [
      | inl n ↦ absurd (ground (arith, h, n))
      | inr ([], e) ↦ absurd (clean_segments-some decode s ss e)
      | inr (t ∷ ts, e) ↦
          let clean = clean_segments-clean decode (s ∷ ss) (t ∷ ts) w e in
          let same : join_path (t ∷ ts) ≡ sub = ground (arith, h, e) in
          let parts = split_path-join_path t ts (whole_parts (t ∷ ts) clean) in
          subst (λ (p : Text). All IsEntry (split_path [] p)) same
            (rw parts (clean_parts (t ∷ ts) clean))
    ]
