-- ===== src/Chat/Tray.antt =====
-- The tray of pieces to compare: `setCompareTray` in src/app/agent/useAgentChat.tsx.
pub mod Laws
use clock.AgentEvents.{Suggestion}
use clock.Base.{
  Bool, List, Option, [], any, drop, filter, if◌then◌else◌, is_empty, length, map, none, not, some,
  ◌&&◌, ◌++◌, ◌-◌, ◌∷◌,
}
use clock.Chat.{ChatState}
use clock.Db.Rows.{delete_where}
use clock.Text.{Text, codes, text_eq}

abbrev pub slug_of : Suggestion → Text
slug_of e = elim e.product [ none ↦ [] | some p ↦ p.slug ]

abbrev pub name_of : Suggestion → Text
name_of e = elim e.product [ none ↦ [] | some p ↦ p.name ]

abbrev pub has_product_slug : Text → Suggestion → Bool
has_product_slug slug e = text_eq (slug_of e) slug

-- `e.product?.slug && !seen.has(e.product.slug)`; a missing product has the empty slug.
abbrev pub is_fresh : List Suggestion → Suggestion → Bool
is_fresh prev e = not (is_empty (slug_of e)) && not (any (has_product_slug (slug_of e)) prev)

-- `slice(-6)`
abbrev pub last_six : List Suggestion → List Suggestion
last_six xs = drop (length xs - 6) xs

unfoldable pub add_to_tray : List Suggestion → List Suggestion → List Suggestion
unfolding text_eq
add_to_tray prev incoming = last_six (prev ++ filter (is_fresh prev) incoming)

-- `removeFromTray`
unfoldable pub remove_from_tray : Text → ChatState → ChatState
unfolding text_eq
remove_from_tray slug st = record st {
  compare_tray = delete_where (has_product_slug slug) st.compare_tray;
}

-- `names` of `compareTrayNow`
abbrev pub join_names : List Text → Text
join_names [] = []
join_names (n ∷ []) = n
join_names (n ∷ m ∷ ns) = n ++ (codes ", " ++ join_names (m ∷ ns))

-- `compareTrayNow`: the message that it sends; without a name it sends none.
unfoldable pub compare_question : ChatState → Option Text
compare_question st =
    let names = join_names (map name_of st.compare_tray) in
    if is_empty names
    then none
    else some (
        codes "So sánh giúp tôi các chiếc này: "
        ++ (names ++ codes " — lập bảng ưu/nhược và gợi ý chiếc hợp nhất."))
