-- ===== src/AgentEvents/Receipt.antt =====
-- `buildReceipt`: what the agent did in a turn. A line is given by its kind and its number.
use clock.AgentEvents.{
  AgentEvent, UxPayload, cart_update, change_update, handed_over, memory_noted, tool_call, ui_shown,
}
use clock.Base.{
  Bool, List, Option, [], false, filter, get_or, if◌then◌else◌, is_empty, length, ltb, not, take,
  true, ℕ, ◌++◌, ◌+◌, ◌||◌, ◌∷◌,
}
use clock.Db.Rows.{sum_by}
use clock.Text.{Text, codes, includes, text_eq}

pub data ReceiptLine : Type 0 where
  found_some searched_for viewed_some compared_some added_some : ℕ → ReceiptLine
  cart_changed watch_set task_saved task_completed policies_read orders_read : ReceiptLine
  remembered_some : ℕ → ReceiptLine
  handed_off change_staged : ReceiptLine
  -- the other tools, with how often each
  other_tools : List (Text × ℕ) → ReceiptLine

pub record Tally : Type 0 where
  pub tools : List (Text × ℕ)
  pub products_found : ℕ
  pub compared : ℕ
  pub cart_qty : ℕ
  pub memory_count : ℕ
  pub has_watch : Bool
  pub has_task : Bool
  pub has_task_done : Bool
  pub has_handoff : Bool
  pub has_change : Bool

abbrev pub no_tally : Tally
no_tally = record {
  tools = [];
  products_found = 0;
  compared = 0;
  cart_qty = 0;
  memory_count = 0;
  has_watch = false;
  has_task = false;
  has_task_done = false;
  has_handoff = false;
  has_change = false;
}

-- `toolCounts.set(tool, (toolCounts.get(tool) ?? 0) + 1)`; a map keeps the order of first calls
unfoldable pub count_tool : Text → List (Text × ℕ) → List (Text × ℕ)
unfolding text_eq
count_tool tool [] = (tool, 1) ∷ []
count_tool tool ((t, n) ∷ ts) =
    let rest = count_tool tool ts in if text_eq t tool then (t, n + 1) ∷ ts else (t, n) ∷ rest

unfoldable pub times_called : Text → List (Text × ℕ) → ℕ
unfolding text_eq
times_called tool [] = 0
times_called tool ((t, n) ∷ ts) = if text_eq t tool then n else times_called tool ts

unfoldable pub tally_ui : Text → UxPayload → Tally → Tally
unfolding text_eq
tally_ui component payload t =
    if text_eq component (codes "present_products")
    then record t { products_found = t.products_found + length (get_or payload.items []) }
    else if text_eq component (codes "present_comparison")
    then record t { compared = t.compared + length (get_or payload.entries []) }
    else if text_eq component (codes "watch_confirmed")
    then record t { has_watch = true }
    else if text_eq component (codes "task_saved")
    then record t { has_task = true }
    else if text_eq component (codes "task_completed")
    then record t { has_task_done = true }
    else t

abbrev pub quantity_of : Option ℕ → ℕ
quantity_of q = get_or q 0

unfoldable pub tally_event : Tally → AgentEvent → Tally
unfolding count_tool tally_ui
tally_event t (tool_call tool label) = record t { tools = count_tool tool t.tools }
tally_event t (ui_shown component payload) = tally_ui component payload t
tally_event t (cart_update c) = record t { cart_qty = sum_by quantity_of c.quantities }
tally_event t (memory_noted facts) = record t { memory_count = t.memory_count + length facts }
tally_event t (handed_over ticket message) = record t { has_handoff = true }
tally_event t (change_update c) = record t { has_change = true }
tally_event t _ = t

unfoldable pub tally_all : Tally → List AgentEvent → Tally
unfolding tally_event
tally_all t [] = t
tally_all t (ev ∷ evs) = tally_all (tally_event t ev) evs

abbrev pub line_if : Bool → ReceiptLine → List ReceiptLine
line_if b l = if b then l ∷ [] else []

abbrev pub covered_tools : List Text
covered_tools =
    codes "search_products"
    ∷ codes "get_product_details"
    ∷ codes "add_to_cart"
    ∷ codes "set_watch"
    ∷ codes "save_task"
    ∷ codes "complete_task"
    ∷ codes "search_policies"
    ∷ codes "get_orders"
    ∷ codes "get_order_status"
    ∷ []

abbrev pub is_other : Text × ℕ → Bool
is_other e = not (includes covered_tools e.0)

unfoldable pub receipt_lines : Tally → List ReceiptLine
unfolding times_called includes
receipt_lines t =
    let calls = λ (tool : Text). times_called tool t.tools in
    let rest = filter is_other t.tools in
    (if ltb 0 t.products_found
      then found_some t.products_found ∷ []
      else line_if (ltb 0 (calls (codes "search_products")))
          (searched_for (calls (codes "search_products"))))
    ++ line_if (ltb 0 (calls (codes "get_product_details")))
        (viewed_some (calls (codes "get_product_details")))
    ++ line_if (ltb 0 t.compared) (compared_some t.compared)
    ++ (if ltb 0 t.cart_qty
        then added_some t.cart_qty ∷ []
        else line_if (ltb 0 (calls (codes "add_to_cart"))) cart_changed)
    ++ line_if (t.has_watch || ltb 0 (calls (codes "set_watch"))) watch_set
    ++ line_if (t.has_task || ltb 0 (calls (codes "save_task"))) task_saved
    ++ line_if (t.has_task_done || ltb 0 (calls (codes "complete_task"))) task_completed
    ++ line_if (ltb 0 (calls (codes "search_policies"))) policies_read
    ++ line_if (ltb 0 (calls (codes "get_orders") + calls (codes "get_order_status"))) orders_read
    ++ line_if (ltb 0 t.memory_count) (remembered_some t.memory_count)
    ++ line_if t.has_handoff handed_off
    ++ line_if t.has_change change_staged
    ++ line_if (not (is_empty rest)) (other_tools rest)

unfoldable pub build_receipt : List AgentEvent → List ReceiptLine
unfolding tally_all receipt_lines
build_receipt events = take 7 (receipt_lines (tally_all no_tally events))
