-- ===== src/Chat/Delegation.antt =====
-- The ticket of src/app/agent/useAgentChat.tsx, with which the agent acts for the user: the
-- switch, and the renewal in the background, whose answer comes later.
pub mod Laws
use clock.Base.{
  Bool, Option, [], false, if◌then◌else◌, is_some, none, not, some, true, ℕ, ◌&&◌, ◌++◌, ◌||◌, ◌∷◌,
}
use clock.Chat.{
  AgentRole, Bubble, ChatState, arm_refresh, grant_button, is_shop, patch_last, say, shop,
}
use clock.Text.{Text, codes}

-- The answer of `/auth/delegation` and `/auth/delegation/refresh`
pub data TicketReply : Type 0 where
  -- the token and `expires_in`, if it is a number
  ticket_granted : Text → Option ℕ → TicketReply
  ticket_refused : TicketReply
  -- the call throws
  host_unreachable : TicketReply

abbrev pub drop_ticket : ChatState → ChatState
drop_ticket st = record st { ticket = none; act_as_me = false }

abbrev pub hold_ticket : Text → Option ℕ → ChatState → ChatState
hold_ticket token expires_in st = arm_refresh expires_in (record st { ticket = some token })

-- `toggleDelegation`, and whether it sends a request: switched off, it is off at once; switched on, it
-- changes nothing yet.
unfoldable pub press_switch : ChatState → ChatState × Bool
press_switch st =
    if st.act_as_me then (record (drop_ticket st) { timer = none }, false) else (st, true)

-- The reply to that request arrives; a call that throws is not caught. What has happened since it was
-- sent is not looked at.
unfoldable pub answer_switch : TicketReply → ChatState → ChatState
unfolding arm_refresh
answer_switch (ticket_granted token expires_in) st = record (hold_ticket token expires_in st) {
  act_as_me = true;
}
answer_switch ticket_refused st = record st {
  messages =
      st.messages ++ (say (codes "Cần đăng nhập trước khi cho concierge hành động hộ bạn.") ∷ []);
}
answer_switch host_unreachable st = st

-- The timer goes off: the ticket that the renewal sends, if there is one
unfoldable pub renewal_due : ChatState → Option Text
renewal_due st = st.ticket

-- The reply to a renewal arrives. What has happened since it was sent is not looked at.
unfoldable pub renewed : TicketReply → ChatState → ChatState
unfolding arm_refresh
renewed (ticket_granted token expires_in) st = hold_ticket token expires_in st
renewed ticket_refused st = drop_ticket st
renewed host_unreachable st = arm_refresh (some 120) st

abbrev pub warned : Text → Bubble → Bubble
warned message b = record b { is_done = true; text = b.text ++ ((10 ∷ 10 ∷ codes "⚠ ") ++ message) }

abbrev pub offered : Text → Bubble → Bubble
offered message b = record (warned message b) { ux = b.ux ++ (grant_button ∷ []) }

abbrev pub renewal_note : Text
renewal_note = codes " (Đã tự gia hạn — bạn gửi lại tin nhắn nhé.)"

abbrev pub patch : (Bubble → Bubble) → ChatState → ChatState
patch f st = record st { messages = patch_last f st.messages }

-- The ticket is lost in the midst of a turn, and the last bubble offers to give another one.
abbrev pub lose_ticket : Text → ChatState → ChatState
lose_ticket message st = patch (offered message) (drop_ticket st)

-- The reply to a renewal that was sent in the midst of a turn arrives: the last bubble says what came
-- of it. What has happened since it was sent is not looked at.
unfoldable pub renewed_in_turn : Text → TicketReply → ChatState → ChatState
unfolding arm_refresh patch_last
renewed_in_turn message (ticket_granted token expires_in) st =
    patch (warned (message ++ renewal_note)) (hold_ticket token expires_in st)
renewed_in_turn message ticket_refused st = lose_ticket message st
renewed_in_turn message host_unreachable st = lose_ticket message st

-- The ticket is refused in the midst of a turn: without a ticket there is nothing to renew; with one, a
-- renewal is sent, and this is the state once its reply is there, if nothing happens in between.
unfoldable pub ticket_expired : Text → TicketReply → ChatState → ChatState
unfolding renewed_in_turn patch_last
ticket_expired message got st = elim st.ticket [
  | none ↦ lose_ticket message st
  | some old ↦ renewed_in_turn message got st
]

-- `forgetSession`, with whether the host answers well; the timer stays.
unfoldable pub forget_session : Bool → ChatState → ChatState × Bool
forget_session answered st =
    if not (is_some st.session_id) || st.busy || not answered
    then (st, false)
    else (record (drop_ticket st) { session_id = none; messages = []; compare_tray = [] }, true)

-- `switchRole`
unfoldable pub switch_role : AgentRole → ChatState → ChatState
switch_role r st = record st { role = r; messages = []; session_id = none; compare_tray = [] }

-- The answer of `/auth/me` arrives: a user who is no admin cannot stay with the back office.
unfoldable pub set_me : Option Bool → ChatState → ChatState
set_me user st =
    let leaves = not (is_shop st.role) && elim user [ none ↦ false | some b ↦ not b ] in
    if leaves
    then record st { as_admin = user; role = shop; messages = []; session_id = none }
    else record st { as_admin = user }
