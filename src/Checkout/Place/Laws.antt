-- ===== src/Checkout/Place/Laws.antt =====
-- A press that did not bring the order home can be repeated.
-- The press ended without an order on the page and without a way to the bank.
use clock.Base.{
  Bool, Bool-cases, List, Option, [], ap, arith, false, inl, inr, is_empty, is_some, map, not, refl,
  some, sym, take, true, ℕ, ◌&&◌, ◌||◌, ◌∙◌, ◌≡◌,
}
use clock.Checkout.{checkout_fingerprint}
use clock.Checkout.Key.{KeyStore, get_checkout_key, is_key}
use clock.Checkout.Key.Laws.{get_checkout_key-again}
use clock.Checkout.Place.{
  CheckoutState, LinkReply, OrderLine, OrderReply, after_order, fingerprint_of, link_failed,
  link_made, order_lost, order_made, order_refused, place_order_with, press_order,
}
use clock.Notify.{reply}
use clock.Text.{Text, codes, text_eq}
use mathlib.Core.Path.{subst}

abbrev pub has_failed : CheckoutState → Bool
has_failed st = not (is_some st.placed || is_some st.location)

abbrev pub can_press : CheckoutState → Bool
can_press st =
    not (is_empty st.items)
    && not (is_some st.placed || is_some st.location)
    && not st.processing
    && st.agreed

press_order-runs :
    (fresh : Text) (reply : OrderReply) (link : LinkReply) (st : CheckoutState)
    → can_press st ≡ true
    → press_order fresh reply link st ≡ place_order_with fresh reply link st
unfolding press_order
press_order-runs fresh reply link st can =
    let open_page : (is_empty st.items || is_some st.placed || st.processing) ≡ false =
      ground (arith, can) in
    let agreed : not st.agreed ≡ false = ground (arith, can) in rw (open_page, agreed) refl

place_order_with-key :
    (fresh : Text) (reply : OrderReply) (link : LinkReply) (st : CheckoutState)
    → (place_order_with fresh reply link st).1
      ≡ some (get_checkout_key (fingerprint_of st) fresh st.store).0
unfolding place_order_with
place_order_with-key fresh (order_made code paid review) link st = refl
place_order_with-key fresh (order_refused m) link st = refl
place_order_with-key fresh (order_lost m) link st = refl

record IsKept (st out : CheckoutState) (kept : KeyStore) : Type 0 where
  items : out.items ≡ st.items
  store : out.store ≡ kept
  can : can_press out ≡ true

after_order-IsKept :
    (fp code : Text) (paid : ℕ) (review : Bool) (link : LinkReply) (st : CheckoutState)
    → (not (is_empty st.items) && not (is_some st.placed || is_some st.location) && st.agreed)
      ≡ true
    → has_failed (after_order fp code paid review link st) ≡ true
    → IsKept st (after_order fp code paid review link st) st.store
unfolding after_order
after_order-IsKept fp code paid review link st can lost =
    elim (Bool-cases (text_eq st.pay (codes "vnpay"))) [
      | inl bank ↦
          elim link
              as (λ link.
                has_failed (after_order fp code paid review link st) ≡ true
                → IsKept st (after_order fp code paid review link st) st.store) [
                  | link_made url ↦ λ lost. absurd (ground (arith, bank, lost))
                  | link_failed m ↦ λ lost. record {
                    items = rw bank refl;
                    store = rw bank refl;
                    can = rw bank (ground (arith, can));
                  }
                ]
            lost
      | inr other ↦ absurd (ground (arith, other, lost))
    ]

place_order_with-IsKept :
    (fresh : Text) (reply : OrderReply) (link : LinkReply) (st : CheckoutState)
    → can_press st ≡ true
    → has_failed (place_order_with fresh reply link st).0 ≡ true
    → IsKept st
        (place_order_with fresh reply link st).0
        (get_checkout_key (fingerprint_of st) fresh st.store).1
unfolding place_order_with
place_order_with-IsKept fresh (order_made code paid review) link st can lost =
    let sent = record st {
      processing = true;
      order_error = [];
      store = (get_checkout_key (fingerprint_of st) fresh st.store).1;
    } in
    let k =
      after_order-IsKept (fingerprint_of st) code paid review link sent (ground (arith, can))
        lost in
    record { items = k.items; store = k.store; can = k.can }
place_order_with-IsKept fresh (order_refused m) link st can lost = record {
  items = refl;
  store = refl;
  can = ground (arith, can);
}
place_order_with-IsKept fresh (order_lost m) link st can lost = record {
  items = refl;
  store = refl;
  can = ground (arith, can);
}

-- A press with a cart, on a page that waits for one, sends a key. If it ends without an order on
-- the page and without a way to the bank, be the order refused, its answer lost or the link to the
-- bank refused, then the cart is as it was, the page waits again, and the next press sends the same
-- key, whatever is answered to it then, if the new key that the browser made is a key.
pub press_order-again :
    (fresh later : Text) (reply reply' : OrderReply) (link link' : LinkReply) (st : CheckoutState)
    → is_key (take 64 fresh) ≡ true
    → can_press st ≡ true
    → has_failed (press_order fresh reply link st).0 ≡ true
    → let (st', sent) = press_order fresh reply link st in
      (is_some sent ≡ true)
      × (st'.items ≡ st.items)
      × (can_press st' ≡ true)
      × ((press_order later reply' link' st').1 ≡ sent)
press_order-again fresh later reply reply' link link' st good ready lost =
    let first = press_order-runs fresh reply link st ready in
    let fp = fingerprint_of st in
    let kept = place_order_with-IsKept fresh reply link st ready (rw⁻¹ first lost) in
    let st' = (place_order_with fresh reply link st).0 in
    let sent = place_order_with-key fresh reply link st in
    let again = (get_checkout_key-again fp fresh later st.store good).0 in
    let same_name : fingerprint_of st' ≡ fp =
      ap (λ (l : List OrderLine). checkout_fingerprint (map (λ (i : OrderLine). i.line) l))
        kept.items in
    let next : (press_order later reply' link' st').1
        ≡ some (get_checkout_key fp fresh st.store).0 =
      ap (λ (p : CheckoutState × Option Text). p.1)
        (press_order-runs later reply' link' st' kept.can)
      ∙ place_order_with-key later reply' link' st'
      ∙ ap (λ (t : Text). some (get_checkout_key t later st'.store).0) same_name
      ∙ ap (λ (m : KeyStore). some (get_checkout_key fp later m).0) kept.store
      ∙ ap (λ (p : Text × KeyStore). some p.0) again in
    subst
      (λ (w : CheckoutState × Option Text).
        (is_some w.1 ≡ true)
        × (w.0.items ≡ st.items)
        × (can_press w.0 ≡ true)
        × ((press_order later reply' link' w.0).1 ≡ w.1))
      (sym first) (rw sent refl, kept.items, kept.can, next ∙ sym sent)
