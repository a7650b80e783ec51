-- ===== src/Chat.antt =====
-- src/app/agent/useAgentChat.tsx: the state of the shopping agent's page. Of a component that
-- is drawn in the chat only what it shows is kept. `randomUUID`, the trace id of a turn, is left out.
pub mod Stream
pub mod Turn
pub mod Tray
pub mod Delegation
use clock.AgentEvents.{CartSnapshot, Suggestion, UxPayload}
use clock.AgentEvents.Receipt.{ReceiptLine}
use clock.Base.{Bool, List, Option, [], false, get_or, max, some, true, ℕ, ◌*◌, ◌-◌, ◌∷◌}
use clock.Text.{Text}

pub data AgentRole : Type 0 where
  shop merchant : AgentRole

abbrev pub is_shop : AgentRole → Bool
is_shop shop = true
is_shop merchant = false

pub data Speaker : Type 0 where
  from_user from_assistant : Speaker

-- What a bubble draws below its text; its key is its place in the list.
pub data UxNode : Type 0 where
  ux_event : Text → UxPayload → UxNode
  cart_card : CartSnapshot → UxNode
  change_card : Text → UxNode
  memory_chip : List Text → UxNode
  handoff_card : Text → Text → UxNode
  -- the button that asks for a new ticket
  grant_button : UxNode

pub record Bubble : Type 0 where
  pub speaker : Speaker
  pub text : Text
  pub ux : List UxNode
  pub is_done : Bool
  pub receipt : List ReceiptLine

-- `patch`, and the update in the handler of a failed turn: the last bubble is changed.
unfoldable pub patch_last : (Bubble → Bubble) → List Bubble → List Bubble
patch_last f [] = []
patch_last f (b ∷ []) = f b ∷ []
patch_last f (b ∷ c ∷ bs) = b ∷ patch_last f (c ∷ bs)

pub record ChatState : Type 0 where
  pub role : AgentRole
  pub messages : List Bubble
  pub busy : Bool
  pub status_line : Option Text
  -- is the user that is signed in, if one is, an admin?
  pub as_admin : Option Bool
  pub compare_tray : List Suggestion
  pub session_id : Option Text
  pub act_as_me : Bool
  -- `delegationRef`: the ticket that goes with a message
  pub ticket : Option Text
  -- `delegationTimerRef`: the milliseconds that the renewal was put off for, if it is planned
  pub timer : Option ℕ

abbrev pub say : Text → Bubble
say t = record { speaker = from_assistant; text = t; ux = []; is_done = true; receipt = [] }

-- `armDelegationRefresh`: `none` is an answer without a number of seconds. A plan that is there is
-- given up for the new one.
unfoldable pub arm_refresh : Option ℕ → ChatState → ChatState
arm_refresh expires_in st = record st {
  timer = some (max 30_000 ((get_or expires_in 1800 - 60) * 1000));
}
