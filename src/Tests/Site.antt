-- ===== src/Tests/Site.antt =====
-- The public catalogue and the proxy of the agent's host at concrete inputs.
use clock.AgentEvents.{
  AgentEvent, apply_all, empty_accumulator, parse_blocks, parse_line, parse_lines, parse_sse_body,
  session_started, split_blocks, split_lines, text_delta, tool_call, turn_done,
}
use clock.AgentEvents.Laws.{IsTurn, apply_all-IsTurn}
use clock.AgentProxy.{
  clean_segments, has_char, is_dirty, is_ops_path_allowed, join_path, normalize_sub_path,
}
use clock.AgentProxy.Laws.{IsEntry, normalize_sub_path-clean, split_path}
use clock.Base.{
  All, List, Option, [], all, arith, false, if◌then◌else◌, length, nan, none, pos, refl, some, true,
  ◌++◌, ◌∷◌, ◌≡◌, ◌≤◌,
}
use clock.Catalogue.{Engine, ProductPage, ProductQuery, Watch, featured}
use clock.Catalogue.Filters.{has_filters}
use clock.Catalogue.Laws.{list-public}
use clock.Catalogue.Listing.{
  found_page, list, list_by_slugs, list_limit, list_page, list_page_of, pick,
}
use clock.Text.{Text, codes, includes, is_space, starts_with, text_eq, trim, trim_end, trim_start}

abbrev shown_watch : Watch
shown_watch = record {
  slug = codes "steel";
  name = codes "Steel";
  reference = codes "R1";
  collection = codes "classic";
  price_usd = pos 2000;
  case_material = codes "Steel";
  diameter = 3900;
  complications = [];
  condition = none;
  in_boutique = true;
}

abbrev hidden_watch : Watch
hidden_watch = record shown_watch { slug = codes "rose"; in_boutique = false }

abbrev any_query : ProductQuery
any_query = record {
  q = codes "st";
  collection = [];
  sort = featured;
  page = nan;
  limit = nan;
  movements = [];
  material = none;
  size = none;
  complications = [];
  condition = none;
  min_usd = nan;
  max_usd = nan;
}

-- An index that still knows a product that is hidden now
abbrev stale_engine : Engine
stale_engine = record {
  enabled = true;
  search_slugs = λ q n hidden. some (codes "rose" ∷ codes "steel" ∷ []);
  search_hint = λ q. none;
  order_by = λ s ws. ws;
}

abbrev first_page : ProductPage
first_page = record { items = shown_watch ∷ []; total = 2; page = 1; limit = 12; hint = none }

list-public_example :
    (all (λ (w : Watch). w.in_boutique) first_page.items ≡ true)
    × (length first_page.items ≤ 12)
    × (1 ≤ 12)
    × (12 ≤ 50)
unfolding list list_limit list_page list_page_of found_page list_by_slugs pick has_filters text_eq
    trim trim_start trim_end is_space
list-public_example =
    list-public stale_engine any_query (shown_watch ∷ hidden_watch ∷ []) first_page
      (record { keeps = λ s p ws h. h }) refl

-- A decoding that knows one text that stands for a way up
abbrev toy_decode : Text → Option Text
toy_decode s = if text_eq s (codes "..%2Fadmin") then some (codes "../admin") else some s

whole_text :
    (s : Text) → has_char b'/' s ≡ false → (t : Text) → some s ≡ some t → has_char b'/' t ≡ false
whole_text s h t e = ground (arith, h, e)

normalize_sub_path-clean_example : All IsEntry (split_path [] (codes "alerts/7"))
unfolding normalize_sub_path clean_segments is_dirty has_char join_path text_eq
normalize_sub_path-clean_example =
    normalize_sub_path-clean toy_decode (codes "alerts" ∷ codes "7" ∷ []) (codes "alerts/7")
      (whole_text (codes "alerts") refl, (whole_text (codes "7") refl, tt)) refl

-- A segment that hides a slash brings a way up past the test, under a prefix that is allowed.
hidden_way_up :
    is_ops_path_allowed
      (normalize_sub_path toy_decode (codes "alerts" ∷ codes "..%2Fadmin" ∷ []))
      (codes "GET")
    ≡ true
unfolding normalize_sub_path clean_segments is_dirty has_char join_path text_eq is_ops_path_allowed
    starts_with includes
hidden_way_up = refl

abbrev turn : List AgentEvent
turn =
    session_started (codes "s1")
    ∷ text_delta (codes "Xin ")
    ∷ tool_call (codes "get_cart") none
    ∷ text_delta (codes "chao")
    ∷ turn_done
    ∷ []

apply_all-IsTurn_example : IsTurn empty_accumulator turn (apply_all empty_accumulator turn)
apply_all-IsTurn_example = apply_all-IsTurn empty_accumulator turn

-- Two blocks, one of which is no event
parsed :
    parse_sse_body
      (λ s. some (text_delta s))
      (codes "data: a" ++ (10 ∷ 10 ∷ codes "event: x") ++ (10 ∷ codes "data:b"))
    ≡ text_delta (codes "a") ∷ text_delta (codes "b") ∷ []
unfolding parse_sse_body split_blocks parse_blocks split_lines parse_lines parse_line starts_with
    is_space
parsed = refl
