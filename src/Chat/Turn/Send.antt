-- ===== src/Chat/Turn/Send.antt =====
-- What one message leaves: its own bubble and the bubble of its answer, below those before it.
use clock.AgentEvents.{AgentEvent}
use clock.Base.{
  Bool, List, Option, [], any, ap, arith, false, get_or, if◌then◌else◌, is_empty, none, not, refl,
  sym, true, ◌&&◌, ◌++◌, ◌||◌, ◌∙◌, ◌∷◌, ◌≡◌,
}
use clock.Chat.{Bubble, ChatState, from_assistant, is_shop, patch_last}
use clock.Chat.Delegation.{TicketReply, patch}
use clock.Chat.Stream.{read_chunk, read_chunks}
use clock.Chat.Stream.Laws.{append_assoc, joined, read_chunks-joined}
use clock.Chat.Turn.{
  HostAnswer, begin_turn, end_turn, failed_bubble, failure_text, on_event, on_events, open_answer,
  question, send,
}
use clock.Chat.Turn.Laws.{
  Follows, all_said, append_nil, ends_bubble, is_expiry, on_event-Follows, patch_last-append, stays,
}
use clock.Text.{Text, trim}
use mathlib.Core.Path.{subst}

Follows-seq :
    (xs : List Bubble) (b : Bubble) (e f x y : Bool) (v w : Text) (mid out : ChatState)
    → (h : Follows xs b e x v mid) → Follows xs h.bubble f y w out
    → Follows xs b (e || f) (x || y) (v ++ w) out
Follows-seq xs b e f x y v w mid out h k = record {
  bubble = k.bubble;
  messages = k.messages;
  speaker = k.speaker ∙ h.speaker;
  is_done = let p = h.is_done in let q = k.is_done in ground (arith, p, q);
  text = λ none_expired.
      k.text (ground (arith, none_expired))
      ∙ ap (λ (t : Text). t ++ w) (h.text (ground (arith, none_expired)))
      ∙ append_assoc b.text v w;
}

-- All events of an answer
pub on_events-Follows :
    (xs : List Bubble) (b : Bubble) (st : ChatState) (got : TicketReply)
    (before evs : List AgentEvent)
    → st.messages ≡ xs ++ (b ∷ [])
    → Follows xs b
        (any ends_bubble evs)
        (any is_expiry evs)
        (all_said evs)
        (on_events got before evs st)
unfolding on_events
on_events-Follows xs b st got before [] h = stays xs b st h
on_events-Follows xs b st got before (ev ∷ evs) h =
    let turn = before ++ (ev ∷ []) in
    let first = on_event-Follows xs b st got turn ev h in
    let mid = on_event got turn ev st in
    Follows-seq xs b _ _ _ _ _ _ mid _ first
      (on_events-Follows xs first.bubble mid got turn evs first.messages)

-- The chat `out` after a message `t` in the chat `st`, with the events of its answer
pub record IsSent (st out : ChatState) (t note : Text) (evs : List AgentEvent) (fails : Bool)
    : Type 0 where
  pub answer : Bubble
  pub messages : out.messages ≡ st.messages ++ (question t ∷ answer ∷ [])
  pub speaker : answer.speaker ≡ from_assistant
  pub is_done : answer.is_done ≡ (fails || any ends_bubble evs)
  pub text :
      any is_expiry evs ≡ false
      → answer.text ≡ all_said evs ++ (if fails then failure_text note else [])
  pub idle : out.busy ≡ false
  pub line : out.status_line ≡ none

closed :
    (st mid : ChatState) (t note : Text) (evs : List AgentEvent) (fails : Bool)
    → Follows
        (st.messages ++ (question t ∷ []))
        open_answer
        (any ends_bubble evs)
        (any is_expiry evs)
        (all_said evs)
        mid
    → IsSent st
        (end_turn (if fails then patch (failed_bubble note evs) mid else mid))
        t
        note
        evs
        fails
closed st mid t note evs false h = record {
  answer = h.bubble;
  messages = h.messages ∙ append_assoc st.messages (question t ∷ []) (h.bubble ∷ []);
  speaker = h.speaker;
  is_done = h.is_done;
  text = λ e. h.text e ∙ sym (append_nil (all_said evs));
  idle = refl;
  line = refl;
}
closed st mid t note evs true h =
    let f = failed_bubble note evs in
    let xs = st.messages ++ (question t ∷ []) in
    record {
      answer = f h.bubble;
      messages =
          ap (patch_last f) h.messages
          ∙ patch_last-append f xs h.bubble
          ∙ append_assoc st.messages (question t ∷ []) (f h.bubble ∷ []);
      speaker = h.speaker;
      is_done = refl;
      text = λ e. ap (λ (x : Text). x ++ failure_text note) (h.text e);
      idle = refl;
      line = refl;
    }

-- A turn that takes place, on the events that are read
abbrev turn_on : Text → HostAnswer → Text → ChatState → List AgentEvent → ChatState
turn_on note answer t st evs =
    let streamed = on_events answer.renewal [] evs (begin_turn t st) in
    end_turn (if answer.fails then patch (failed_bubble note evs) streamed else streamed)

send_runs :
    (parse : Text → Option AgentEvent) (note : Text) (answer : HostAnswer) (raw : Text)
    (st : ChatState)
    → is_empty (trim raw) ≡ false
    → st.busy ≡ false
    → (is_shop st.role || get_or st.as_admin false) ≡ true
    → send parse note answer raw st
      ≡ turn_on note answer (trim raw) st (read_chunks parse [] answer.pieces).0
unfolding send
send_runs parse note answer raw st filled idle may =
    let allowed : (not (is_shop st.role) && not (get_or st.as_admin false)) ≡ false =
      ground (arith, may) in
    ground (arith, filled, idle, allowed)

-- A message that is not empty, from a user who may write it, while no other is under way: the chat
-- gets two bubbles, the message and its answer. However the network cut the answer, its text is
-- that of its events, with a note if it failed, unless a ticket expired in it; it is complete if
-- an event says so or it failed; and the next message can be sent.
pub send_lem :
    (parse : Text → Option AgentEvent) (note : Text) (answer : HostAnswer) (raw : Text)
    (st : ChatState)
    → is_empty (trim raw) ≡ false
    → st.busy ≡ false
    → (is_shop st.role || get_or st.as_admin false) ≡ true
    → IsSent st
        (send parse note answer raw st)
        (trim raw)
        note
        (read_chunk parse [] (joined answer.pieces)).0
        answer.fails
send_lem parse note answer raw st filled idle may =
    let evs = (read_chunk parse [] (joined answer.pieces)).0 in
    let t = trim raw in
    let begun = begin_turn t st in
    let xs = st.messages ++ (question t ∷ []) in
    let h =
      on_events-Follows xs open_answer begun answer.renewal [] evs
        (sym (append_assoc st.messages (question t ∷ []) (open_answer ∷ []))) in
    let runs : send parse note answer raw st ≡ turn_on note answer t st evs =
      send_runs parse note answer raw st filled idle may
      ∙ ap (λ (p : List AgentEvent × Text). turn_on note answer t st p.0)
          (read_chunks-joined parse answer.pieces) in
    subst (λ (out : ChatState). IsSent st out t note evs answer.fails) (sym runs)
      (closed st (on_events answer.renewal [] evs begun) t note evs answer.fails h)
