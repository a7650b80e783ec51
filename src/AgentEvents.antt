-- ===== src/AgentEvents.antt =====
-- The events that the page of the shopping agent reads: src/lib/agent-events.ts. Of a component's
-- payload and of a cart only what the code reads is kept apart from the rest, a text.
-- `JSON.parse` is a parameter, with the cast to an event.
pub mod Receipt
pub mod Laws
use clock.Base.{
  Bool, List, Option, [], drop, false, filter, get_or, if◌then◌else◌, is_empty, map, none, not,
  some, true, ℕ, ◌&&◌, ◌++◌, ◌==◌, ◌∷◌,
}
use clock.Text.{Text, codes, is_space, starts_with, trim}

pub record AgentProduct : Type 0 where
  pub slug : Text
  pub name : Text

-- An element of a list of products, with its note; the product may be missing.
pub record Suggestion : Type 0 where
  pub product : Option AgentProduct
  pub note : Text

pub record UxPayload : Type 0 where
  pub items : Option (List Suggestion)
  pub entries : Option (List Suggestion)
  pub rest : Text

pub record CartSnapshot : Type 0 where
  -- the quantities of its lines
  pub quantities : List (Option ℕ)
  pub rest : Text

pub record MemoryFact : Type 0 where
  pub fact : Option Text
  pub key : Option Text
  pub value : Option Text

pub data AgentEvent : Type 0 where
  session_started : Text → AgentEvent
  text_delta : Text → AgentEvent
  -- the tool and the label
  tool_call : Text → Option Text → AgentEvent
  tool_result : AgentEvent
  progress_note : Text → AgentEvent
  ui_shown : Text → UxPayload → AgentEvent
  cart_update : CartSnapshot → AgentEvent
  change_update : Text → AgentEvent
  memory_noted : List MemoryFact → AgentEvent
  -- the ticket and the message
  handed_over : Text → Text → AgentEvent
  delegation_expired : Text → AgentEvent
  turn_complete : AgentEvent
  error_note : Text → AgentEvent
  turn_done : AgentEvent
  -- any other type
  other_event : AgentEvent

pub record TurnAccumulator : Type 0 where
  pub text : Text
  pub session_id : Option Text
  pub status : Option Text
  pub ui : List (Text × UxPayload)
  pub cart : Option CartSnapshot
  pub change : Option Text
  pub handoff : Option (Text × Text)
  pub errors : List Text
  pub is_done : Bool
  pub memory_facts : List Text

abbrev pub empty_accumulator : TurnAccumulator
empty_accumulator = record {
  text = [];
  session_id = none;
  status = none;
  ui = [];
  cart = none;
  change = none;
  handoff = none;
  errors = [];
  is_done = false;
  memory_facts = [];
}

-- A field that is no text counts as absent; the result is trimmed.
abbrev pub trimmed_field : Option Text → Text
trimmed_field o = trim (get_or o [])

unfoldable pub memory_fact_text : MemoryFact → Text
unfolding trim
memory_fact_text f =
    let fact = trimmed_field f.fact in
    let v = trimmed_field f.value in
    let k = trimmed_field f.key in
    if not (is_empty fact)
    then fact
    else if is_empty v
    then []
    else if is_empty k
    then v
    else k ++ (codes ": " ++ v)

abbrev pub is_filled : Text → Bool
is_filled t = not (is_empty t)

abbrev pub fact_texts : List MemoryFact → List Text
fact_texts facts = filter is_filled (map memory_fact_text facts)

unfoldable pub apply_event : TurnAccumulator → AgentEvent → TurnAccumulator
unfolding memory_fact_text
apply_event acc (session_started id) = record acc { session_id = some id }
apply_event acc (text_delta t) = record acc { text = acc.text ++ t }
apply_event acc (progress_note m) = record acc { status = some m }
apply_event acc (tool_call tool label) =
    if is_filled (get_or label []) then record acc { status = label } else acc
apply_event acc tool_result = record acc { status = none }
apply_event acc (ui_shown component payload) = record acc {
  ui = acc.ui ++ ((component, payload) ∷ []);
}
apply_event acc (cart_update c) = record acc { cart = some c }
apply_event acc (change_update c) = record acc { change = some c }
apply_event acc (memory_noted facts) = record acc {
  memory_facts = acc.memory_facts ++ fact_texts facts;
}
apply_event acc (handed_over ticket message) = record acc { handoff = some (ticket, message) }
apply_event acc (error_note m) = record acc { errors = acc.errors ++ (m ∷ []) }
apply_event acc turn_complete = record acc { status = none }
apply_event acc turn_done = record acc { is_done = true; status = none }
apply_event acc (delegation_expired m) = acc
apply_event acc other_event = acc

-- The events of a turn, one after the other
unfoldable pub apply_all : TurnAccumulator → List AgentEvent → TurnAccumulator
unfolding apply_event
apply_all acc [] = acc
apply_all acc (ev ∷ evs) = apply_all (apply_event acc ev) evs

-- `split("\n")`, with the line begun
unfoldable pub split_lines : Text → Text → List Text
split_lines line [] = line ∷ []
split_lines line (c ∷ s) =
    let next = split_lines [] s in
    let on = split_lines (line ++ (c ∷ [])) s in if c == b'\n' then line ∷ next else on

-- `replace(/^data:\s?/, "")` of a line that starts so
abbrev pub data_of : Text → Text
data_of line = let s = drop 5 line in elim s [ [] ↦ [] | c ∷ t ↦ if is_space c then t else c ∷ t ]

unfoldable pub parse_line : (Text → Option AgentEvent) → Text → Option AgentEvent
unfolding starts_with is_space
parse_line parse line =
    if starts_with (codes "data:") line && is_filled (data_of line)
    then parse (data_of line)
    else none

unfoldable pub parse_lines : (Text → Option AgentEvent) → List Text → List AgentEvent
unfolding parse_line
parse_lines parse [] = []
parse_lines parse (l ∷ ls) =
    let rest = parse_lines parse ls in
    elim (parse_line parse l) [ none ↦ rest | some ev ↦ ev ∷ rest ]

-- `split("\n\n")`, with the block begun
unfoldable pub split_blocks : Text → Text → List Text
split_blocks block [] = block ∷ []
split_blocks block (c ∷ []) = (block ++ (c ∷ [])) ∷ []
split_blocks block (c ∷ d ∷ s) =
    let next = split_blocks [] s in
    let on = split_blocks (block ++ (c ∷ [])) (d ∷ s) in
    if c == b'\n' && d == b'\n' then block ∷ next else on

unfoldable pub parse_blocks : (Text → Option AgentEvent) → List Text → List AgentEvent
unfolding split_lines parse_lines
parse_blocks parse [] = []
parse_blocks parse (b ∷ bs) = parse_lines parse (split_lines [] b) ++ parse_blocks parse bs

unfoldable pub parse_sse_body : (Text → Option AgentEvent) → Text → List AgentEvent
unfolding split_blocks parse_blocks
parse_sse_body parse body = parse_blocks parse (split_blocks [] body)
