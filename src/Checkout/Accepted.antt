-- ===== src/Checkout/Accepted.antt =====
-- The keys that the browser sends are keys for the server: src/lib/idempotency.ts against
-- `normalizeIdemKey` of backend/src/orders/orders.service.ts.
use clock.Base.{
  Bool-cases, [], all, ap, arith, false, if◌then◌else◌, inl, inr, none, refl, some, sym, true, ℕ,
  ◌↔◌, ◌∙◌, ◌∷◌, ◌≡◌,
}
use clock.Checkout.Key.{is_key, is_key_unit}
use clock.Orders.Create.Input.{normalize_idem_key}
use clock.Text.{Text, is_space, trim, trim_end, trim_start}
use mathlib.Core.Path.{subst}

key_unit-space : (c : ℕ) → is_key_unit c ≡ true → is_space c ≡ false
unfolding is_key_unit is_space
key_unit-space c h = ground (arith, h)

trim_end-key : (s : Text) → all is_key_unit s ≡ true → trim_end s ≡ s
unfolding trim_end
trim_end-key [] h = refl
trim_end-key (c ∷ s) h =
    let plain : is_space c ≡ false = key_unit-space c (ground (arith, h)) in
    let rest = trim_end-key s (ground (arith, h)) in rw plain (ap (λ (t : Text). c ∷ t) rest)

trim-key : (s : Text) → all is_key_unit s ≡ true → trim s ≡ s
unfolding trim trim_start
trim-key [] h = trim_end-key [] h
trim-key (c ∷ s) h =
    let plain : is_space c ≡ false = key_unit-space c (ground (arith, h)) in
    rw plain (trim_end-key (c ∷ s) h)

normalize_idem_key-trim :
    (s : Text) → normalize_idem_key (some s) ≡ (if is_key (trim s) then some (trim s) else none)
unfolding is_key is_key_unit normalize_idem_key
normalize_idem_key-trim s = refl

units : (s : Text) → is_key s ≡ true → all is_key_unit s ≡ true
unfolding is_key
units s h = ground (arith, h)

-- A key that the browser finds well formed is taken by the server as it is, and one that the server
-- takes as it is is well formed for the browser.
pub normalize_idem_key-is_key :
    (s : Text) → (is_key s ≡ true) ↔ (normalize_idem_key (some s) ≡ some s)
normalize_idem_key-is_key s = (
  λ h. let same = trim-key s (units s h) in normalize_idem_key-trim s ∙ rw same (rw h refl),
  λ e.
      let tested = sym (normalize_idem_key-trim s) ∙ e in
      elim (Bool-cases (is_key (trim s))) [
        | inl good ↦
            let same : trim s ≡ s = ground (arith, tested, good) in
            subst (λ (t : Text). is_key t ≡ true) same good
        | inr bad ↦ absurd (ground (arith, tested, bad))
      ],
)
