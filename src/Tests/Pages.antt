-- ===== src/Tests/Pages.antt =====
-- The pages of the front end and the wishlist at concrete inputs.
use clock.AgentEvents.{AgentEvent, Suggestion, split_blocks, text_delta}
use clock.Base.{
  List, Option, [], arith, false, is_empty, is_some, length, none, refl, some, take, true, ℕ, ◌++◌,
  ◌||◌, ◌∷◌, ◌≡◌, ◌≤◌,
}
use clock.Chat.{ChatState, shop}
use clock.Chat.Delegation.{host_unreachable, ticket_granted, ticket_refused}
use clock.Chat.Delegation.Laws.{
  IsHonest, TicketStep, expired_in_turn, in_turn_answered, nothing_waits, press_switch-off,
  renewal_answered, switch_answered, switch_pressed, ticket_steps, ticket_steps-IsHonest,
  timer_fired,
}
use clock.Chat.Stream.{line_data, line_events, pop, read_chunk, read_chunks}
use clock.Chat.Stream.Laws.{joined, read_chunks-joined}
use clock.Chat.Tray.{add_to_tray}
use clock.Chat.Tray.Laws.{IsDistinct, add_to_tray-IsDistinct}
use clock.Chat.Turn.{HostAnswer, send}
use clock.Chat.Turn.Send.{IsSent, send_lem}
use clock.Checkout.{CartLine, checkout_fingerprint}
use clock.Checkout.Key.{is_key, is_key_unit}
use clock.Checkout.Place.{
  CheckoutState, OrderLine, link_failed, order_lost, order_refused, place_order_with, press_order,
}
use clock.Checkout.Place.Laws.{can_press, has_failed, press_order-again}
use clock.Checkout.Sorting.{checkout_fingerprint-perm}
use clock.Text.{Text, codes, includes, is_space, starts_with, text_eq, trim, trim_end, trim_start}
use clock.Wishlist.{WishlistItem, wished_slugs}
use clock.Wishlist.Client.{WishState, merge_reply_lost, sign_in}
use clock.Wishlist.Guest.{sign_in-keeps, sign_in_again}
use clock.Wishlist.Sync.{Agrees, Click, IsSlug, clicks, clicks-Agrees, on_remove, on_toggle}
use mathlib.Core.List.{Permᴰ}

abbrev toy_parse : Text → Option AgentEvent
toy_parse t = some (text_delta t)

-- A body that the network cuts in the midst of a separator
abbrev cut_body : List Text
cut_body =
    (codes "data: Xin" ++ (10 ∷ [])) ∷ ((10 ∷ []) ++ codes "data: chao") ∷ (10 ∷ 10 ∷ []) ∷ []

read_chunks-joined_example :
    read_chunks toy_parse [] cut_body ≡ read_chunk toy_parse [] (joined cut_body)
read_chunks-joined_example = read_chunks-joined toy_parse cut_body

-- Both events are read, whatever the cuts.
body_read :
    read_chunks toy_parse [] cut_body
    ≡ (text_delta (codes "Xin") ∷ text_delta (codes "chao") ∷ [], [])
unfolding read_chunks read_chunk split_blocks pop line_events line_data starts_with trim trim_start
    trim_end is_space
body_read = refl

abbrev empty_chat : ChatState
empty_chat = record {
  role = shop;
  messages = [];
  busy = false;
  status_line = none;
  as_admin = none;
  compare_tray = [];
  session_id = none;
  act_as_me = true;
  ticket = some (codes "t1");
  timer = some 1_740_000;
}

abbrev toy_answer : HostAnswer
toy_answer = record { pieces = cut_body; fails = true; renewal = ticket_refused }

hello_filled : is_empty (trim (codes "hello")) ≡ false
unfolding trim trim_start trim_end is_space
hello_filled = refl

send_lem_example :
    IsSent empty_chat
      (send toy_parse (codes "no host") toy_answer (codes "hello") empty_chat)
      (trim (codes "hello"))
      (codes "no host")
      (read_chunk toy_parse [] (joined cut_body)).0
      true
send_lem_example =
    send_lem toy_parse (codes "no host") toy_answer (codes "hello") empty_chat hello_filled refl
      refl

abbrev ticket_visit : List TicketStep
ticket_visit =
    timer_fired
    ∷ expired_in_turn (codes "expired")
    ∷ renewal_answered ticket_refused
    ∷ in_turn_answered (codes "expired") host_unreachable
    ∷ []

ticket_steps-IsHonest_example : IsHonest (ticket_steps ticket_visit (empty_chat, nothing_waits)).0
ticket_steps-IsHonest_example =
    ticket_steps-IsHonest ticket_visit empty_chat nothing_waits (λ _. refl)

press_switch-off_example :
    let got = ticket_granted (codes "t2") none in
    let renewal =
      ticket_steps
        (switch_pressed ∷ renewal_answered got ∷ [])
        (empty_chat, record nothing_waits { renewals = 1 }) in
    let in_turn =
      ticket_steps
        (switch_pressed ∷ in_turn_answered (codes "expired") got ∷ [])
        (empty_chat, record nothing_waits { in_turn = 1 }) in
    let switch =
      ticket_steps
        (switch_pressed ∷ switch_answered got ∷ [])
        (empty_chat, record nothing_waits { switches = 1 }) in
    ((ticket_steps (switch_pressed ∷ ticket_visit) (empty_chat, nothing_waits)).0.ticket ≡ none)
    × ((renewal.0.ticket ≡ some (codes "t2")) × (renewal.0.act_as_me ≡ false))
    × ((in_turn.0.ticket ≡ some (codes "t2")) × (in_turn.0.act_as_me ≡ false))
    × ((switch.0.ticket ≡ some (codes "t2")) × (switch.0.act_as_me ≡ true))
press_switch-off_example =
    press_switch-off ticket_visit empty_chat nothing_waits 0 (codes "t2") (codes "expired") none
      refl refl

abbrev suggested : Text → Suggestion
suggested s = record { product = some (record { slug = s; name = s }); note = [] }

abbrev shown_twice : List Suggestion
shown_twice = suggested (codes "gold") ∷ suggested (codes "steel") ∷ []

shown_twice-IsDistinct : IsDistinct shown_twice
unfolding text_eq
shown_twice-IsDistinct = (refl, (refl, tt))

add_to_tray-IsDistinct_example :
    IsDistinct (add_to_tray (suggested (codes "steel") ∷ []) shown_twice)
    × (length (add_to_tray (suggested (codes "steel") ∷ []) shown_twice) ≤ 6)
add_to_tray-IsDistinct_example =
    add_to_tray-IsDistinct (suggested (codes "steel") ∷ []) shown_twice (refl, tt)
      shown_twice-IsDistinct

abbrev liked : ℕ → Text → WishlistItem
liked user slug = record { user_id = user; product_slug = slug }

abbrev wish_rows : List WishlistItem
wish_rows = liked 7 (codes "gold") ∷ liked 8 (codes "steel") ∷ []

abbrev wish_page : WishState
wish_page = record { slugs = codes "gold" ∷ []; stored = codes "steel" ∷ []; user = some 7 }

abbrev wish_clicks : List Click
wish_clicks = on_toggle (codes "steel") ∷ on_remove (codes "gold") ∷ []

steel-IsSlug : IsSlug (codes "steel")
unfolding trim trim_start trim_end is_space
steel-IsSlug = (refl, refl)

gold-IsSlug : IsSlug (codes "gold")
unfolding trim trim_start trim_end is_space
gold-IsSlug = (refl, refl)

pages_agree : Agrees 7 wish_page wish_rows
unfolding wished_slugs
pages_agree s = refl

clicks-Agrees_example :
    Agrees 7
      (clicks 7 wish_clicks (wish_page, wish_rows)).0
      (clicks 7 wish_clicks (wish_page, wish_rows)).1
    × ((s : Text)
        → includes (wished_slugs 8 (clicks 7 wish_clicks (wish_page, wish_rows)).1) s
          ≡ includes (wished_slugs 8 wish_rows) s)
clicks-Agrees_example =
    clicks-Agrees 7 8 wish_clicks wish_page wish_rows (omega arith) refl
      (steel-IsSlug, (gold-IsSlug, tt)) pages_agree

sign_in-keeps_example :
    let out = sign_in 7 merge_reply_lost wish_page wish_rows in
    let both =
      includes (wished_slugs 7 wish_rows) (codes "steel")
      || includes wish_page.stored (codes "steel") in
    ((includes (wished_slugs 7 out.1) (codes "steel") || includes out.0.stored (codes "steel"))
      ≡ both)
    × (out.0 ≡ record wish_page { user = some 7 })
    × (includes (sign_in_again 7 out).0.slugs (codes "steel") ≡ both)
sign_in-keeps_example =
    sign_in-keeps 7 merge_reply_lost wish_page wish_rows (codes "steel") (steel-IsSlug, tt)
      (omega arith)

abbrev gold_line : CartLine
gold_line = record { slug = codes "gold"; qty = 1; price_usd = 9000 }

abbrev two_steel : CartLine
two_steel = record { slug = codes "steel"; qty = 2; price_usd = 1000 }

checkout_fingerprint-perm_example :
    checkout_fingerprint (gold_line ∷ two_steel ∷ [])
    ≡ checkout_fingerprint (two_steel ∷ gold_line ∷ [])
checkout_fingerprint-perm_example =
    checkout_fingerprint-perm (gold_line ∷ two_steel ∷ []) (two_steel ∷ gold_line ∷ [])
      ∣ Permᴰ.swap refl refl ∣₁

abbrev steel_order_line : OrderLine
steel_order_line = record {
  line = two_steel;
  name = codes "Steel";
  price_vnd = 25_200_000;
  image = [];
  strap = codes "Dây da cá sấu đen";
  engraving = none;
}

abbrev checkout_page : CheckoutState
checkout_page = record {
  items = steel_order_line ∷ [];
  pay = codes "vnpay";
  agreed = true;
  placed = none;
  placed_review = false;
  paid_usd = none;
  processing = false;
  order_error = [];
  store = [];
  location = none;
}

abbrev first_key : Text
first_key = codes "key-00000001"

first_key_good : is_key (take 64 first_key) ≡ true
unfolding is_key is_key_unit
first_key_good = refl

lost_press :
    has_failed
      (press_order first_key (order_lost (codes "offline")) (link_failed []) checkout_page).0
    ≡ true
unfolding press_order place_order_with
lost_press = refl

press_order-again_example :
    let (st', sent) =
      press_order first_key (order_lost (codes "offline")) (link_failed []) checkout_page in
    (is_some sent ≡ true)
    × (st'.items ≡ checkout_page.items)
    × (can_press st' ≡ true)
    × ((press_order (codes "key-00000002") (order_refused []) (link_failed []) st').1 ≡ sent)
press_order-again_example =
    press_order-again first_key (codes "key-00000002") (order_lost (codes "offline"))
      (order_refused []) (link_failed []) (link_failed []) checkout_page first_key_good refl
      lost_press
