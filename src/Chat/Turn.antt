-- ===== src/Chat/Turn.antt =====
-- `send` of src/app/agent/useAgentChat.tsx: one message, and the events of its answer.
pub mod Laws
pub mod Send
use clock.AgentEvents.{
  AgentEvent, Suggestion, UxPayload, cart_update, change_update, delegation_expired, error_note,
  fact_texts, handed_over, is_filled, memory_fact_text, memory_noted, other_event, progress_note,
  session_started, text_delta, tool_call, tool_result, turn_complete, turn_done, ui_shown,
}
use clock.AgentEvents.Receipt.{build_receipt}
use clock.Base.{
  Bool, List, Option, [], false, get_or, if◌then◌else◌, is_empty, none, not, some, true, ◌&&◌, ◌++◌,
  ◌||◌, ◌∷◌,
}
use clock.Chat.{
  Bubble, ChatState, UxNode, cart_card, change_card, from_assistant, from_user, handoff_card,
  is_shop, memory_chip, patch_last, say, ux_event,
}
use clock.Chat.Delegation.{TicketReply, patch, ticket_expired}
use clock.Chat.Stream.{read_chunks}
use clock.Chat.Tray.{add_to_tray}
use clock.Text.{Text, codes, text_eq, trim}

abbrev pub add_ux : UxNode → Bubble → Bubble
add_ux node b = record b { ux = b.ux ++ (node ∷ []) }

-- The pieces that a component shows, for the tray
unfoldable pub shown_pieces : Text → UxPayload → List Suggestion
unfolding text_eq
shown_pieces component payload =
    if text_eq component (codes "present_products")
    then get_or payload.items []
    else if text_eq component (codes "present_comparison")
    then get_or payload.entries []
    else []

-- `if (incoming.length > 0)`
abbrev pub tray_after : List Suggestion → List Suggestion → List Suggestion
tray_after prev incoming = if is_empty incoming then prev else add_to_tray prev incoming

-- One event of the answer, with those of the turn so far, this one included, and the reply to a
-- renewal of the ticket if the event asks for one
unfoldable pub on_event : TicketReply → List AgentEvent → AgentEvent → ChatState → ChatState
unfolding patch_last shown_pieces add_to_tray memory_fact_text ticket_expired build_receipt
on_event got turn (session_started id) st = record st { session_id = some id }
on_event got turn (text_delta t) st = patch (λ b. record b { text = b.text ++ t }) st
on_event got turn (progress_note m) st = record st { status_line = some m }
on_event got turn (tool_call tool label) st =
    if is_filled (get_or label []) then record st { status_line = label } else st
on_event got turn (ui_shown component payload) st =
    record (patch (add_ux (ux_event component payload)) st) {
      compare_tray = tray_after st.compare_tray (shown_pieces component payload);
    }
on_event got turn (cart_update c) st = patch (add_ux (cart_card c)) st
on_event got turn (change_update c) st = patch (add_ux (change_card c)) st
on_event got turn (memory_noted facts) st =
    if is_empty (fact_texts facts) then st else patch (add_ux (memory_chip (fact_texts facts))) st
on_event got turn (handed_over id m) st = patch (add_ux (handoff_card id m)) st
on_event got turn (error_note m) st =
    patch (λ b. record b { text = b.text ++ ((10 ∷ 10 ∷ codes "⚠ ") ++ m) }) st
on_event got turn (delegation_expired m) st = ticket_expired m got st
on_event got turn turn_complete st =
    patch (λ b. record b { is_done = true; receipt = build_receipt turn }) st
on_event got turn turn_done st =
    patch (λ b. record b { is_done = true; receipt = build_receipt turn }) st
on_event got turn tool_result st = st
on_event got turn other_event st = st

-- The events of an answer in order; `seen` are those before them.
unfoldable pub on_events : TicketReply → List AgentEvent → List AgentEvent → ChatState → ChatState
unfolding on_event
on_events got seen [] st = st
on_events got seen (ev ∷ evs) st =
    on_events got (seen ++ (ev ∷ [])) evs (on_event got (seen ++ (ev ∷ [])) ev st)

-- What the agent's host does with a message: the pieces of the body that arrive, and whether it
-- fails after them. An answer that is no success has no pieces and fails.
pub record HostAnswer : Type 0 where
  pub pieces : List Text
  pub fails : Bool
  -- to the renewal that an expired ticket asks for
  pub renewal : TicketReply

abbrev pub question : Text → Bubble
question t = record { speaker = from_user; text = t; ux = []; is_done = true; receipt = [] }

abbrev pub open_answer : Bubble
open_answer = record { speaker = from_assistant; text = []; ux = []; is_done = false; receipt = [] }

abbrev pub begin_turn : Text → ChatState → ChatState
begin_turn t st = record st {
  busy = true;
  messages = st.messages ++ (question t ∷ open_answer ∷ []);
}

abbrev pub failure_text : Text → Text
failure_text note = (10 ∷ 10 ∷ codes "⚠ ") ++ note

-- The handler of a failure
abbrev pub failed_bubble : Text → List AgentEvent → Bubble → Bubble
failed_bubble note turn b = record b {
  is_done = true;
  receipt = build_receipt turn;
  text = b.text ++ failure_text note;
}

-- What is done at the end in any case
abbrev pub end_turn : ChatState → ChatState
end_turn st = record st { busy = false; status_line = none }

-- `send`; `note` is the text on the host that was not reached.
unfoldable pub send : (Text → Option AgentEvent) → Text → HostAnswer → Text → ChatState → ChatState
unfolding trim read_chunks on_events build_receipt patch_last
send parse note answer raw st =
    let t = trim raw in
    let evs = (read_chunks parse [] answer.pieces).0 in
    let streamed = on_events answer.renewal [] evs (begin_turn t st) in
    if is_empty t || st.busy
    then st
    else if not (is_shop st.role) && not (get_or st.as_admin false)
    then record st {
      messages =
          st.messages
          ++ (say (
                codes
                  "Khu vực vận hành chỉ dành cho tài khoản admin. Hãy đăng nhập bằng tài khoản quản trị.")
              ∷ []);
    }
    else end_turn (if answer.fails then patch (failed_bubble note evs) streamed else streamed)
