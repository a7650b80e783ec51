-- ===== src/AgentProxy.antt =====
-- Which paths of the agent's host the shop's server passes on: src/lib/agent-proxy.ts.
-- `decodeURIComponent` is a parameter, which throws on some texts.
pub mod Laws
use clock.Accounts.{and_then}
use clock.Base.{
  Bool, List, Option, [], any, false, get_or, if◌then◌else◌, is_empty, leb, map, none, not, some, ℕ,
  ◌&&◌, ◌++◌, ◌-◌, ◌==◌, ◌||◌, ◌∷◌,
}
use clock.Text.{Text, codes, includes, starts_with, text_eq, trim}

pub record OpsRoute : Type 0 where
  pub prefix : Text
  pub methods : List Text

abbrev pub ops_routes : List OpsRoute
ops_routes =
    record { prefix = codes "merchant/chat"; methods = codes "POST" ∷ [] }
    ∷ record { prefix = codes "merchant/changes"; methods = codes "GET" ∷ codes "POST" ∷ [] }
    ∷ record { prefix = codes "alerts"; methods = codes "GET" ∷ [] }
    ∷ record { prefix = codes "shop/monitor/run"; methods = codes "POST" ∷ [] }
    ∷ record { prefix = codes "activity"; methods = codes "GET" ∷ [] }
    ∷ record { prefix = codes "shop/watches"; methods = codes "GET" ∷ codes "POST" ∷ [] }
    ∷ []

unfoldable pub has_char : ℕ → Text → Bool
has_char c [] = false
has_char c (d ∷ s) = c == d || has_char c s

abbrev pub backslash : ℕ
backslash = 92

unfoldable pub is_dirty : Text → Bool
unfolding text_eq has_char
is_dirty seg =
    text_eq seg [] || text_eq seg (codes ".") || text_eq seg (codes "..") || has_char backslash seg

-- The segments decoded, if all can be and none is dirty
unfoldable pub clean_segments : (Text → Option Text) → List Text → Option (List Text)
unfolding is_dirty
clean_segments decode [] = some []
clean_segments decode (s ∷ ss) =
    let rest = clean_segments decode ss in
    elim (decode s) [
      | none ↦ none
      | some seg ↦ if is_dirty seg then none else and_then rest (λ segs. some (seg ∷ segs))
    ]

-- `.join("/")`
unfoldable pub join_path : List Text → Text
join_path [] = []
join_path (s ∷ []) = s
join_path (s ∷ t ∷ ss) = s ++ (b'/' ∷ join_path (t ∷ ss))

-- A text that cannot be decoded throws; here it gives none, as a dirty one does.
unfoldable pub normalize_sub_path : (Text → Option Text) → List Text → Option Text
unfolding clean_segments join_path
normalize_sub_path decode segments =
    if is_empty segments
    then none
    else and_then (clean_segments decode segments) (λ segs. some (join_path segs))

abbrev pub upper : ℕ → ℕ
upper c = if leb b'a' c && leb c b'z' then c - 32 else c

abbrev pub fits_route : Text → Text → OpsRoute → Bool
fits_route sub method r =
    (text_eq sub r.prefix || starts_with (r.prefix ++ (b'/' ∷ [])) sub)
    && includes r.methods (map upper method)

unfoldable pub is_ops_path_allowed : Option Text → Text → Bool
unfolding text_eq starts_with includes
is_ops_path_allowed none method = false
is_ops_path_allowed (some sub) method = not (is_empty sub) && any (fits_route sub method) ops_routes

-- `replace(/\/$/, "")`
unfoldable pub drop_last_slash : Text → Text
drop_last_slash [] = []
drop_last_slash (c ∷ s) =
    let rest = drop_last_slash s in if c == b'/' && is_empty s then [] else c ∷ rest

unfoldable pub agent_upstream_url : Text → Text → Text → Text
unfolding drop_last_slash
agent_upstream_url host sub query =
    drop_last_slash host ++ (b'/' ∷ (sub ++ (if is_empty query then [] else b'?' ∷ query)))

-- The internal host, or else this machine; never the public address.
unfoldable pub resolve_agent_upstream_host : Option Text → Text
unfolding drop_last_slash trim
resolve_agent_upstream_host env =
    let internal = trim (get_or env []) in
    if is_empty internal then codes "http://127.0.0.1:8100" else drop_last_slash internal
