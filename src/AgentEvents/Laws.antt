-- ===== src/AgentEvents/Laws.antt =====
-- What `applyEvent` makes of a list of events, as a function of all of them at once.
use clock.AgentEvents.{
  AgentEvent, CartSnapshot, MemoryFact, TurnAccumulator, UxPayload, apply_all, apply_event,
  cart_update, change_update, error_note, fact_texts, handed_over, is_filled, memory_fact_text,
  memory_noted, progress_note, session_started, text_delta, tool_call, tool_result, trimmed_field,
  turn_complete, turn_done, ui_shown,
}
use clock.Base.{
  Bool, Bool-cases, List, Option, [], any, ap, arith, false, get_or, if◌then◌else◌, inl, inr,
  is_empty, none, refl, some, sym, true, ◌++◌, ◌||◌, ◌∙◌, ◌∷◌, ◌≡◌, ◌≢◌,
}
use clock.Text.{Text, codes}
use mathlib.Core.Path.{subst}

abbrev text_part : AgentEvent → Text
text_part (text_delta t) = t
text_part _ = []

abbrev error_part : AgentEvent → List Text
error_part (error_note m) = m ∷ []
error_part _ = []

abbrev ui_part : AgentEvent → List (Text × UxPayload)
ui_part (ui_shown component payload) = (component, payload) ∷ []
ui_part _ = []

-- The facts that an event notes, as they came
abbrev noted_part : AgentEvent → List MemoryFact
noted_part (memory_noted facts) = facts
noted_part _ = []

abbrev is_turn_done : AgentEvent → Bool
is_turn_done turn_done = true
is_turn_done _ = false

abbrev session_set : AgentEvent → Option (Option Text)
session_set (session_started id) = some (some id)
session_set _ = none

abbrev cart_set : AgentEvent → Option (Option CartSnapshot)
cart_set (cart_update c) = some (some c)
cart_set _ = none

abbrev change_set : AgentEvent → Option (Option Text)
change_set (change_update c) = some (some c)
change_set _ = none

abbrev handoff_set : AgentEvent → Option (Option (Text × Text))
handoff_set (handed_over ticket message) = some (some (ticket, message))
handoff_set _ = none

-- A call that is labelled and a note set the line, an empty label does not, and a result and an end
-- clear it.
abbrev status_set : AgentEvent → Option (Option Text)
status_set (progress_note m) = some (some m)
status_set (tool_call tool (some (c ∷ label))) = some (some (c ∷ label))
status_set tool_result = some none
status_set turn_complete = some none
status_set turn_done = some none
status_set _ = none

abbrev concat_by : {A : Type 0} → (AgentEvent → List A) → List AgentEvent → List A
concat_by f [] = []
concat_by f (ev ∷ evs) = f ev ++ concat_by f evs

-- What the last event that sets it sets, or else `old`
abbrev last_by : {A : Type 0} → (AgentEvent → Option A) → A → List AgentEvent → A
last_by f old [] = old
last_by f old (ev ∷ evs) = last_by f (get_or (f ev) old) evs

-- How a fact is shown: by its own text, or else by its value, with its key and a colon in front if it
-- has one; each trimmed. A fact with neither a text nor a value is not shown.
pub data IsShownAs (f : MemoryFact) (texts : List Text) : Type 0 where
  by_text : trimmed_field f.fact ≢ [] → texts ≡ trimmed_field f.fact ∷ [] → IsShownAs f texts
  by_value :
      trimmed_field f.fact ≡ []
      → trimmed_field f.value ≢ []
      → trimmed_field f.key ≡ []
      → texts ≡ trimmed_field f.value ∷ []
      → IsShownAs f texts
  by_pair :
      trimmed_field f.fact ≡ []
      → trimmed_field f.value ≢ []
      → trimmed_field f.key ≢ []
      → texts ≡ (trimmed_field f.key ++ (codes ": " ++ trimmed_field f.value)) ∷ []
      → IsShownAs f texts
  not_shown :
      trimmed_field f.fact ≡ [] → trimmed_field f.value ≡ [] → texts ≡ [] → IsShownAs f texts

-- The texts of a list of facts, one fact after the other
abbrev pub AreShown : List MemoryFact → List Text → Type 0
AreShown [] ts = ts ≡ []
AreShown (f ∷ fs) ts =
    (texts : List Text) × (rest : List Text) × (ts ≡ texts ++ rest)
    × IsShownAs f texts
    × AreShown fs rest

-- All ten fields, without an order of steps: what is gathered is that of all events, and what is set is
-- as the last event left it.
pub record IsTurn (acc : TurnAccumulator) (evs : List AgentEvent) (out : TurnAccumulator)
    : Type 0 where
  pub text : out.text ≡ acc.text ++ concat_by text_part evs
  pub errors : out.errors ≡ acc.errors ++ concat_by error_part evs
  pub shown : out.ui ≡ acc.ui ++ concat_by ui_part evs
  pub ended : out.is_done ≡ (acc.is_done || any is_turn_done evs)
  pub facts :
      (ts : List Text) × (out.memory_facts ≡ acc.memory_facts ++ ts)
      × AreShown (concat_by noted_part evs) ts
  pub session : out.session_id ≡ last_by session_set acc.session_id evs
  pub status : out.status ≡ last_by status_set acc.status evs
  pub cart : out.cart ≡ last_by cart_set acc.cart evs
  pub change : out.change ≡ last_by change_set acc.change evs
  pub handoff : out.handoff ≡ last_by handoff_set acc.handoff evs

append_assoc : {A : Type 0} (a b c : List A) → (a ++ b) ++ c ≡ a ++ (b ++ c)
append_assoc [] b c = refl
append_assoc (x ∷ a) b c = cc (append_assoc a b c)

append_nil : {A : Type 0} (a : List A) → a ++ [] ≡ a
append_nil [] = refl
append_nil (x ∷ a) = cc (append_nil a)

append_step : {A : Type 0} (a b c d out : List A) → out ≡ d ++ c → d ≡ a ++ b → out ≡ a ++ (b ++ c)
append_step {A = A} a b c d out h k = h ∙ ap (λ (x : List A). x ++ c) k ∙ append_assoc a b c

empty_text : (t : Text) → is_empty t ≡ true → t ≡ []
empty_text [] e = refl
empty_text (c ∷ t) e = absurd (ground (arith, e))

filled_text : (t : Text) → is_empty t ≡ false → t ≢ []
filled_text [] e n = absurd (ground (arith, e))
filled_text (c ∷ t) e n = absurd (ground (arith, n))

shown-append :
    (fs gs : List MemoryFact) (ts us : List Text)
    → AreShown fs ts
    → AreShown gs us
    → AreShown (fs ++ gs) (ts ++ us)
shown-append [] gs ts us h k =
    let same : us ≡ ts ++ us = ap (λ (l : List Text). l ++ us) (sym h) in subst (AreShown gs) same k
shown-append (f ∷ fs) gs ts us (texts, rest, e, shown, h) k = (
  texts,
  rest ++ us,
  ap (λ (l : List Text). l ++ us) e ∙ append_assoc texts rest us,
  shown,
  shown-append fs gs rest us h k,
)

-- The text of one fact, if it is filled
abbrev own_texts : MemoryFact → List Text
own_texts f = if is_filled (memory_fact_text f) then memory_fact_text f ∷ [] else []

pair_filled : (k v : Text) → is_empty k ≡ false → is_empty (k ++ v) ≡ false
pair_filled [] v e = absurd (ground (arith, e))
pair_filled (c ∷ k) v e = refl

own_texts-IsShownAs : (f : MemoryFact) → IsShownAs f (own_texts f)
unfolding memory_fact_text
own_texts-IsShownAs f = elim (Bool-cases (is_empty (trimmed_field f.fact))) [
  | inr fact ↦ by_text (filled_text _ fact) (ground (arith, fact))
  | inl no_fact ↦ elim (Bool-cases (is_empty (trimmed_field f.value))) [
    | inl no_value ↦
        not_shown (empty_text _ no_fact) (empty_text _ no_value) (ground (arith, no_fact, no_value))
    | inr value ↦ elim (Bool-cases (is_empty (trimmed_field f.key))) [
      | inl no_key ↦
          by_value (empty_text _ no_fact) (filled_text _ value) (empty_text _ no_key)
            (ground (arith, no_fact, value, no_key))
      | inr key ↦
          let filled =
            pair_filled (trimmed_field f.key) (codes ": " ++ trimmed_field f.value) key in
          by_pair (empty_text _ no_fact) (filled_text _ value) (filled_text _ key)
            (ground (arith, no_fact, value, key, filled))
    ]
  ]
]

fact_texts-AreShown : (fs : List MemoryFact) → AreShown fs (fact_texts fs)
fact_texts-AreShown [] = refl
fact_texts-AreShown (f ∷ fs) =
    let split : fact_texts (f ∷ fs) ≡ own_texts f ++ fact_texts fs = ground arith in
    (own_texts f, fact_texts fs, split, own_texts-IsShownAs f, fact_texts-AreShown fs)

abbrev fact_part : AgentEvent → List Text
fact_part ev = fact_texts (noted_part ev)

-- One event adds its part.
apply_event-parts :
    (acc : TurnAccumulator) (ev : AgentEvent)
    → ((apply_event acc ev).text ≡ acc.text ++ text_part ev)
      × ((apply_event acc ev).errors ≡ acc.errors ++ error_part ev)
      × ((apply_event acc ev).memory_facts ≡ acc.memory_facts ++ fact_part ev)
      × ((apply_event acc ev).ui ≡ acc.ui ++ ui_part ev)
      × ((apply_event acc ev).is_done ≡ (acc.is_done || is_turn_done ev))
unfolding apply_event
apply_event-parts acc ev =
    let t = append_nil acc.text in
    let e = append_nil acc.errors in
    let m = append_nil acc.memory_facts in
    let u = append_nil acc.ui in
    (ground arith, ground arith, ground arith, ground arith, ground arith)

-- One event sets what it sets.
apply_event-sets :
    (acc : TurnAccumulator) (ev : AgentEvent)
    → ((apply_event acc ev).session_id ≡ get_or (session_set ev) acc.session_id)
      × ((apply_event acc ev).status ≡ get_or (status_set ev) acc.status)
      × ((apply_event acc ev).cart ≡ get_or (cart_set ev) acc.cart)
      × ((apply_event acc ev).change ≡ get_or (change_set ev) acc.change)
      × ((apply_event acc ev).handoff ≡ get_or (handoff_set ev) acc.handoff)
unfolding apply_event
apply_event-sets acc ev = (ground arith, ground arith, ground arith, ground arith, ground arith)

-- `applyEvent`, taken over the events of a turn, gives all ten fields: the text, the errors and the
-- components are those of all events in order; the facts are shown one after the other, by their text,
-- by their value, or by key and value, trimmed, and those that have neither text nor value are left
-- out; the turn is over if one event says so; and session, status line, cart, change and handoff are
-- as the last event that sets them left them.
pub apply_all-IsTurn :
    (acc : TurnAccumulator) (evs : List AgentEvent) → IsTurn acc evs (apply_all acc evs)
unfolding apply_all
apply_all-IsTurn acc [] = record {
  text = sym (append_nil acc.text);
  errors = sym (append_nil acc.errors);
  shown = sym (append_nil acc.ui);
  ended = ground arith;
  facts = ([], sym (append_nil acc.memory_facts), refl);
  session = refl;
  status = refl;
  cart = refl;
  change = refl;
  handoff = refl;
}
apply_all-IsTurn acc (ev ∷ evs) =
    let h = apply_all-IsTurn (apply_event acc ev) evs in
    let (t, e, m, u, d) = apply_event-parts acc ev in
    let (ss, st, ct, ch, hd) = apply_event-sets acc ev in
    let (ts, gained, are_shown) = h.facts in
    record {
      text = append_step acc.text (text_part ev) (concat_by text_part evs) _ _ h.text t;
      errors = append_step acc.errors (error_part ev) (concat_by error_part evs) _ _ h.errors e;
      shown = append_step acc.ui (ui_part ev) (concat_by ui_part evs) _ _ h.shown u;
      ended = let k = h.ended in ground (arith, k, d);
      facts = (
        fact_part ev ++ ts,
        append_step acc.memory_facts (fact_part ev) ts _ _ gained m,
        shown-append (noted_part ev) (concat_by noted_part evs) (fact_part ev) ts
            (fact_texts-AreShown (noted_part ev)) are_shown,
      );
      session = h.session ∙ ap (λ o. last_by session_set o evs) ss;
      status = h.status ∙ ap (λ o. last_by status_set o evs) st;
      cart = h.cart ∙ ap (λ o. last_by cart_set o evs) ct;
      change = h.change ∙ ap (λ o. last_by change_set o evs) ch;
      handoff = h.handoff ∙ ap (λ o. last_by handoff_set o evs) hd;
    }
