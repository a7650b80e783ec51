-- ===== src/Chat/Delegation/Laws.antt =====
-- The ticket with which the agent acts for the user: when it is held. A request and its reply are two
-- steps, with any others in between.
use clock.Base.{
  Bool, List, Option, [], all, ap, arith, false, if◌then◌else◌, is_some, none, not, refl, some, suc,
  true, ℕ, ◌+◌, ◌-◌, ◌==◌, ◌∙◌, ◌∷◌, ◌≡◌,
}
use clock.Chat.{ChatState, arm_refresh}
use clock.Chat.Delegation.{
  TicketReply, answer_switch, drop_ticket, forget_session, lose_ticket, press_switch, renewal_due,
  renewed, renewed_in_turn, ticket_granted,
}
use clock.Text.{Text}
use mathlib.Core.Path.{subst}

-- The requests that wait for their reply
pub record Waiting : Type 0 where
  pub switches : ℕ
  pub renewals : ℕ
  pub in_turn : ℕ

abbrev pub nothing_waits : Waiting
nothing_waits = record { switches = 0; renewals = 0; in_turn = 0 }

-- What can happen to the ticket
pub data TicketStep : Type 0 where
  -- the switch; to switch on is a request
  switch_pressed : TicketStep
  switch_answered : TicketReply → TicketStep
  -- the timer goes off, and the request goes out
  timer_fired : TicketStep
  renewal_answered : TicketReply → TicketStep
  -- an expired ticket in a turn; if there is one, a request goes out
  expired_in_turn : Text → TicketStep
  in_turn_answered : Text → TicketReply → TicketStep
  session_forgotten : Bool → TicketStep

-- The chat, and what waits for its reply. A reply comes only to a request.
unfoldable pub ticket_step : TicketStep → ChatState × Waiting → ChatState × Waiting
unfolding press_switch answer_switch renewal_due renewed renewed_in_turn forget_session
ticket_step switch_pressed (st, w) =
    let (st', asks) = press_switch st in
    (st', if asks then record w { switches = w.switches + 1 } else w)
ticket_step (switch_answered got) (st, w) =
    if w.switches == 0
    then (st, w)
    else (answer_switch got st, record w { switches = w.switches - 1 })
ticket_step timer_fired (st, w) = elim (renewal_due st) [
  | none ↦ (st, w)
  | some old ↦ (st, record w { renewals = w.renewals + 1 })
]
ticket_step (renewal_answered got) (st, w) =
    if w.renewals == 0 then (st, w) else (renewed got st, record w { renewals = w.renewals - 1 })
ticket_step (expired_in_turn m) (st, w) = elim st.ticket [
  | none ↦ (lose_ticket m st, w)
  | some old ↦ (st, record w { in_turn = w.in_turn + 1 })
]
ticket_step (in_turn_answered m got) (st, w) =
    if w.in_turn == 0
    then (st, w)
    else (renewed_in_turn m got st, record w { in_turn = w.in_turn - 1 })
ticket_step (session_forgotten good) (st, w) = ((forget_session good st).0, w)

unfoldable pub ticket_steps : List TicketStep → ChatState × Waiting → ChatState × Waiting
unfolding ticket_step
ticket_steps [] now = now
ticket_steps (s ∷ ss) now = ticket_steps ss (ticket_step s now)

-- The page shows that the agent acts for the user only while it holds a ticket.
abbrev pub IsHonest : ChatState → Type 0
IsHonest st = st.act_as_me ≡ true → is_some st.ticket ≡ true

ticket_step-IsHonest :
    (s : TicketStep) (st : ChatState) (w : Waiting)
    → IsHonest st
    → IsHonest (ticket_step s (st, w)).0
unfolding ticket_step press_switch answer_switch renewal_due renewed renewed_in_turn forget_session
    arm_refresh
ticket_step-IsHonest switch_pressed st w h = ground (arith, h)
ticket_step-IsHonest (switch_answered got) st w h = ground (arith, h)
ticket_step-IsHonest timer_fired st w h = ground (arith, h)
ticket_step-IsHonest (renewal_answered got) st w h = ground (arith, h)
ticket_step-IsHonest (expired_in_turn m) st w h = ground (arith, h)
ticket_step-IsHonest (in_turn_answered m got) st w h = ground (arith, h)
ticket_step-IsHonest (session_forgotten good) st w h = ground (arith, h)

-- Whatever happens to the ticket and in whatever order, the page shows that the agent acts for the
-- user only while it holds a ticket, if this was so before.
pub ticket_steps-IsHonest :
    (ss : List TicketStep) (st : ChatState) (w : Waiting)
    → IsHonest st
    → IsHonest (ticket_steps ss (st, w)).0
unfolding ticket_steps
ticket_steps-IsHonest [] st w h = h
ticket_steps-IsHonest (s ∷ ss) st w h =
    let (st', w') = ticket_step s (st, w) in
    ticket_steps-IsHonest ss st' w' (ticket_step-IsHonest s st w h)

abbrev pub is_switch : TicketStep → Bool
is_switch switch_pressed = true
is_switch _ = false

-- No ticket, and no request that could bring one
abbrev IsOff : ChatState × Waiting → Type 0
IsOff (st, w) = (st.ticket ≡ none) × (w.switches ≡ 0) × (w.renewals ≡ 0) × (w.in_turn ≡ 0)

ticket_step-IsOff :
    (s : TicketStep) (st : ChatState) (w : Waiting)
    → is_switch s ≡ false
    → IsOff (st, w)
    → IsOff (ticket_step s (st, w))
unfolding ticket_step renewal_due forget_session
ticket_step-IsOff switch_pressed st w h (off, a, b, c) = cc
ticket_step-IsOff (switch_answered got) st w h (off, a, b, c) =
    let same : (st, w) ≡ ticket_step (switch_answered got) (st, w) = ground (arith, a) in
    subst IsOff same (off, a, b, c)
ticket_step-IsOff timer_fired st w h (off, a, b, c) =
    let same : (st, w) ≡ ticket_step timer_fired (st, w) = ground (arith, off) in
    subst IsOff same (off, a, b, c)
ticket_step-IsOff (renewal_answered got) st w h (off, a, b, c) =
    let same : (st, w) ≡ ticket_step (renewal_answered got) (st, w) = ground (arith, b) in
    subst IsOff same (off, a, b, c)
ticket_step-IsOff (expired_in_turn m) st w h (off, a, b, c) =
    let same : (lose_ticket m st, w) ≡ ticket_step (expired_in_turn m) (st, w) =
      ground (arith, off) in
    subst IsOff same (refl, a, b, c)
ticket_step-IsOff (in_turn_answered m got) st w h (off, a, b, c) =
    let same : (st, w) ≡ ticket_step (in_turn_answered m got) (st, w) = ground (arith, c) in
    subst IsOff same (off, a, b, c)
ticket_step-IsOff (session_forgotten good) st w h (off, a, b, c) = (ground (arith, off), a, b, c)

abbrev no_switches : List TicketStep → Bool
no_switches ss = all (λ s. not (is_switch s)) ss

IsOff-stays :
    (ss : List TicketStep) (st : ChatState) (w : Waiting)
    → no_switches ss ≡ true
    → IsOff (st, w)
    → IsOff (ticket_steps ss (st, w))
unfolding ticket_steps
IsOff-stays [] st w h off = off
IsOff-stays (s ∷ ss) st w h off =
    let (st', w') = ticket_step s (st, w) in
    IsOff-stays ss st' w' (ground (arith, h)) (ticket_step-IsOff s st w (ground (arith, h)) off)

-- The user switches the agent's acting off. If no request for a ticket waits for its reply, the page
-- holds no ticket from then on, whatever happens, until the switch is pressed again. If one waits and
-- its reply brings a ticket, the page holds that ticket all the same: with the switch off, if it was a
-- renewal in the background or in a turn, and with the switch on again, if it was an earlier request
-- of the switch.
pub press_switch-off :
    (ss : List TicketStep) (st : ChatState) (w : Waiting) (n : ℕ) (token message : Text)
    (expires_in : Option ℕ)
    → st.act_as_me ≡ true
    → no_switches ss ≡ true
    → let got = ticket_granted token expires_in in
      let renewal =
        ticket_steps
          (switch_pressed ∷ renewal_answered got ∷ [])
          (st, record w { renewals = suc n }) in
      let in_turn =
        ticket_steps
          (switch_pressed ∷ in_turn_answered message got ∷ [])
          (st, record w { in_turn = suc n }) in
      let switch =
        ticket_steps
          (switch_pressed ∷ switch_answered got ∷ [])
          (st, record w { switches = suc n }) in
      ((ticket_steps (switch_pressed ∷ ss) (st, nothing_waits)).0.ticket ≡ none)
      × ((renewal.0.ticket ≡ some token) × (renewal.0.act_as_me ≡ false))
      × ((in_turn.0.ticket ≡ some token) × (in_turn.0.act_as_me ≡ false))
      × ((switch.0.ticket ≡ some token) × (switch.0.act_as_me ≡ true))
unfolding ticket_steps ticket_step press_switch renewed renewed_in_turn answer_switch arm_refresh
press_switch-off ss st w n token message expires_in on quiet =
    let off : press_switch st ≡ (record (drop_ticket st) { timer = none }, false) = rw on refl in
    let after : ticket_step switch_pressed (st, nothing_waits)
        ≡ (record (drop_ticket st) { timer = none }, nothing_waits) =
      rw on refl in
    (
      ap (λ now. (ticket_steps ss now).0.ticket) after
          ∙ (IsOff-stays ss (record (drop_ticket st) { timer = none }) nothing_waits quiet
              (refl, refl, refl, refl)).0,
      (ground (arith, off), ground (arith, off)),
      (ground (arith, off), ground (arith, off)),
      (ground (arith, off), ground (arith, off)),
    )
