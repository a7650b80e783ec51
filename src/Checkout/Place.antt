-- ===== src/Checkout/Place.antt =====
-- src/app/checkout/page.tsx: `placeOrder`, one press of the button. The waits that it shows
-- between its last steps are left out.
pub mod Laws
use clock.Base.{
  Bool, List, Option, [], false, if◌then◌else◌, is_empty, is_some, map, none, not, some, true, ℕ,
  ◌||◌,
}
use clock.Checkout.{CartLine, checkout_fingerprint}
use clock.Checkout.Key.{KeyStore, clear_checkout_key, get_checkout_key}
use clock.Notify.{reply}
use clock.Text.{Text, codes, text_eq}

pub record OrderLine : Type 0 where
  pub line : CartLine
  pub name : Text
  pub price_vnd : ℕ
  pub image : Text
  pub strap : Text
  pub engraving : Option Text

pub record CheckoutState : Type 0 where
  pub items : List OrderLine
  pub pay : Text
  pub agreed : Bool
  -- the code of the order that was placed
  pub placed : Option Text
  pub placed_review : Bool
  pub paid_usd : Option ℕ
  pub processing : Bool
  pub order_error : Text
  pub store : KeyStore
  -- where the browser was sent
  pub location : Option Text

-- What `POST /orders` answers. `lost` is a call that throws, with its message: the server may have
-- made the order or not.
pub data OrderReply : Type 0 where
  order_made : Text → ℕ → Bool → OrderReply
  order_refused : Text → OrderReply
  order_lost : Text → OrderReply

-- What `POST /payments/vnpay/create` answers
pub data LinkReply : Type 0 where
  link_made : Text → LinkReply
  link_failed : Text → LinkReply

abbrev pub fail_press : Text → CheckoutState → CheckoutState
fail_press message st = record st { processing = false; order_error = message }

abbrev pub fingerprint_of : CheckoutState → Text
fingerprint_of st = checkout_fingerprint (map (λ (i : OrderLine). i.line) st.items)

abbrev pub clear_key : Text → CheckoutState → CheckoutState
clear_key fp st = record st { store = clear_checkout_key fp st.store }

-- After the order is made: a payment by VNPay keeps the cart, and the key until there is a link.
unfoldable pub after_order : Text → Text → ℕ → Bool → LinkReply → CheckoutState → CheckoutState
unfolding clear_checkout_key text_eq
after_order fp code paid review link st =
    let cleared = clear_key fp (record st { items = [] }) in
    if text_eq st.pay (codes "vnpay")
    then elim link [
      | link_made url ↦ clear_key fp (record st { paid_usd = some paid; location = some url })
      | link_failed message ↦ fail_press message (record st { paid_usd = some paid })
    ]
    else record cleared {
      paid_usd = some paid;
      placed = some code;
      placed_review = review;
      processing = false;
    }

-- The answer to a press, with the key that the request carries
unfoldable pub place_order_with :
    Text → OrderReply → LinkReply → CheckoutState → CheckoutState × Option Text
unfolding checkout_fingerprint get_checkout_key after_order
place_order_with fresh reply link st =
    let fp = fingerprint_of st in
    let (key, store) = get_checkout_key fp fresh st.store in
    let sent = record st { processing = true; order_error = []; store = store } in
    elim reply [
      | order_made code paid review ↦ (after_order fp code paid review link sent, some key)
      | order_refused message ↦ (fail_press message sent, some key)
      | order_lost message ↦ (fail_press message sent, some key)
    ]

-- `fresh` is the key that is made if one is needed.
unfoldable pub press_order :
    Text → OrderReply → LinkReply → CheckoutState → CheckoutState × Option Text
unfolding place_order_with
press_order fresh reply link st =
    if is_empty st.items || is_some st.placed || st.processing
    then (st, none)
    else if not st.agreed
    then (
      record st {
        order_error =
            codes "Quý khách cần đồng ý Điều khoản & Chính sách bảo mật trước khi đặt hàng.";
      },
      none,
    )
    else place_order_with fresh reply link st
