-- ===== src/Chat/Turn/Laws.antt =====
-- What a message and its answer leave in the chat.
use clock.AgentEvents.{
  AgentEvent, cart_update, change_update, delegation_expired, error_note, fact_texts, handed_over,
  is_filled, memory_noted, other_event, progress_note, session_started, text_delta, tool_call,
  tool_result, turn_complete, turn_done, ui_shown,
}
use clock.AgentEvents.Receipt.{build_receipt}
use clock.Base.{
  Bool, Bool-cases, List, Option-cases, [], ap, arith, false, get_or, inl, inr, is_empty, refl, sym,
  true, ◌++◌, ◌||◌, ◌∙◌, ◌∷◌, ◌≡◌,
}
use clock.Chat.{
  Bubble, ChatState, UxNode, cart_card, change_card, handoff_card, memory_chip, patch_last,
  ux_event,
}
use clock.Chat.Delegation.{
  TicketReply, host_unreachable, offered, renewal_note, renewed_in_turn, ticket_expired,
  ticket_granted, ticket_refused, warned,
}
use clock.Chat.Turn.{add_ux, on_event}
use clock.Text.{Text, codes}

pub patch_last-append :
    (f : Bubble → Bubble) (xs : List Bubble) (b : Bubble)
    → patch_last f (xs ++ (b ∷ [])) ≡ xs ++ (f b ∷ [])
unfolding patch_last
patch_last-append f [] b = refl
patch_last-append f (x ∷ []) b = refl
patch_last-append f (x ∷ y ∷ xs) b =
    ap (λ (t : List Bubble). x ∷ t) (patch_last-append f (y ∷ xs) b)

-- Events after which the bubble is complete
abbrev pub ends_bubble : AgentEvent → Bool
ends_bubble turn_complete = true
ends_bubble turn_done = true
ends_bubble (delegation_expired m) = true
ends_bubble _ = false

abbrev pub is_expiry : AgentEvent → Bool
is_expiry (delegation_expired m) = true
is_expiry _ = false

-- What an event adds to the text of the bubble, but for an expired ticket
abbrev pub said : AgentEvent → Text
said (text_delta t) = t
said (error_note m) = (10 ∷ 10 ∷ codes "⚠ ") ++ m
said _ = []

abbrev pub all_said : List AgentEvent → Text
all_said [] = []
all_said (ev ∷ evs) = said ev ++ all_said evs

pub append_nil : (a : Text) → a ++ [] ≡ a
append_nil [] = refl
append_nil (x ∷ a) = cc (append_nil a)

-- The last bubble of a chat was `b`, below the bubbles `xs`: what it is now. `words` were added to
-- its text, unless a ticket expired.
pub record Follows (xs : List Bubble) (b : Bubble) (ends expires : Bool) (words : Text)
    (out : ChatState) : Type 0 where
  pub bubble : Bubble
  pub messages : out.messages ≡ xs ++ (bubble ∷ [])
  pub speaker : bubble.speaker ≡ b.speaker
  pub is_done : bubble.is_done ≡ (b.is_done || ends)
  pub text : expires ≡ false → bubble.text ≡ b.text ++ words

pub stays :
    (xs : List Bubble) (b : Bubble) (out : ChatState)
    → out.messages ≡ xs ++ (b ∷ [])
    → Follows xs b false false [] out
stays xs b out h = record {
  bubble = b;
  messages = h;
  speaker = refl;
  is_done = ground arith;
  text = λ _. sym (append_nil b.text);
}

module _ (xs : List Bubble) (b : Bubble) (st : ChatState) (h : st.messages ≡ xs ++ (b ∷ [])) where
  patches :
      (f : Bubble → Bubble) (ends expires : Bool) (words : Text) (out : ChatState)
      → out.messages ≡ patch_last f st.messages
      → (f b).speaker ≡ b.speaker
      → (f b).is_done ≡ (b.is_done || ends)
      → (expires ≡ false → (f b).text ≡ b.text ++ words)
      → Follows xs b ends expires words out
  patches f ends expires words out e s d t = record {
    bubble = f b;
    messages = e ∙ ap (patch_last f) h ∙ patch_last-append f xs b;
    speaker = s;
    is_done = d;
    text = t;
  }

  draws :
      (node : UxNode) (out : ChatState)
      → out.messages ≡ patch_last (add_ux node) st.messages
      → Follows xs b false false [] out
  draws node out e =
      patches (add_ux node) false false [] out e refl (ground arith) (λ _. sym (append_nil b.text))

  closes :
      (turn : List AgentEvent) (out : ChatState)
      → out.messages
        ≡ patch_last (λ b. record b { is_done = true; receipt = build_receipt turn }) st.messages
      → Follows xs b true false [] out
  closes turn out e =
      patches (λ b. record b { is_done = true; receipt = build_receipt turn }) true false [] out e
        refl (ground arith) (λ _. sym (append_nil b.text))

  says :
      (words : Text) (out : ChatState)
      → out.messages ≡ patch_last (λ b. record b { text = b.text ++ words }) st.messages
      → Follows xs b false false words out
  says words out e =
      patches (λ b. record b { text = b.text ++ words }) false false words out e refl (ground arith)
        (λ _. refl)

  completes :
      (f : Bubble → Bubble) (out : ChatState)
      → out.messages ≡ patch_last f st.messages
      → (f b).speaker ≡ b.speaker
      → (f b).is_done ≡ true
      → Follows xs b true true [] out
  completes f out e s d =
      patches f true true [] out e s (ground (arith, d)) (λ x. absurd (ground (arith, x)))

  ticket_expired-Follows :
      (m : Text) (got : TicketReply) → Follows xs b true true [] (ticket_expired m got st)
  unfolding ticket_expired renewed_in_turn
  ticket_expired-Follows m got = elim (Option-cases st.ticket) [
    | inl e ↦ completes (offered m) (ticket_expired m got st) (rw e refl) refl refl
    | inr (old, e) ↦ elim got as (λ got. Follows xs b true true [] (ticket_expired m got st)) [
      | ticket_granted token n ↦
          completes (warned (m ++ renewal_note)) (ticket_expired m (ticket_granted token n) st)
            (rw e refl) refl refl
      | ticket_refused ↦
          completes (offered m) (ticket_expired m ticket_refused st) (rw e refl) refl refl
      | host_unreachable ↦
          completes (offered m) (ticket_expired m host_unreachable st) (rw e refl) refl refl
    ]
  ]

-- One event of an answer
pub on_event-Follows :
    (xs : List Bubble) (b : Bubble) (st : ChatState) (got : TicketReply) (turn : List AgentEvent)
    (ev : AgentEvent)
    → st.messages ≡ xs ++ (b ∷ [])
    → Follows xs b (ends_bubble ev) (is_expiry ev) (said ev) (on_event got turn ev st)
unfolding on_event
on_event-Follows xs b st got turn (session_started id) h = stays xs b _ h
on_event-Follows xs b st got turn (text_delta t) h = says xs b st h t _ refl
on_event-Follows xs b st got turn (progress_note m) h = stays xs b _ h
on_event-Follows xs b st got turn (tool_call tool label) h =
    elim (Bool-cases (is_filled (get_or label []))) [
      | inl filled ↦ stays xs b _ (rw filled h)
      | inr empty ↦ stays xs b _ (rw empty h)
    ]
on_event-Follows xs b st got turn (ui_shown c p) h = draws xs b st h (ux_event c p) _ refl
on_event-Follows xs b st got turn (cart_update c) h = draws xs b st h (cart_card c) _ refl
on_event-Follows xs b st got turn (change_update c) h = draws xs b st h (change_card c) _ refl
on_event-Follows xs b st got turn (memory_noted facts) h =
    elim (Bool-cases (is_empty (fact_texts facts))) [
      | inl nothing ↦ stays xs b _ (rw nothing h)
      | inr some_facts ↦ draws xs b st h (memory_chip (fact_texts facts)) _ (rw some_facts refl)
    ]
on_event-Follows xs b st got turn (handed_over id m) h = draws xs b st h (handoff_card id m) _ refl
on_event-Follows xs b st got turn (error_note m) h =
    says xs b st h ((10 ∷ 10 ∷ codes "⚠ ") ++ m) _ refl
on_event-Follows xs b st got turn (delegation_expired m) h = ticket_expired-Follows xs b st h m got
on_event-Follows xs b st got turn turn_complete h = closes xs b st h turn _ refl
on_event-Follows xs b st got turn turn_done h = closes xs b st h turn _ refl
on_event-Follows xs b st got turn tool_result h = stays xs b _ h
on_event-Follows xs b st got turn other_event h = stays xs b _ h
