-- ===== src/Checkout/Key/Laws.antt =====
-- The key of a cart stays until it is cleared.
use clock.Base.{Option-cases, [], arith, inl, inr, none, refl, some, take, true, ◌∷◌, ◌≡◌}
use clock.Checkout.Key.{
  KeyStore, clear_checkout_key, get_checkout_key, get_item, is_key, remove_item, set_item,
  store_name, stored_key,
}
use clock.Text.{Text, text_eq_refl}

get_item-set_item : (k v : Text) (m : KeyStore) → get_item k (set_item k v m) ≡ some v
unfolding get_item set_item
get_item-set_item k v m = rw (text_eq_refl k) refl

get_item-remove_item : (k : Text) (m : KeyStore) → get_item k (remove_item k m) ≡ none
unfolding get_item remove_item
get_item-remove_item k [] = refl
get_item-remove_item k ((k', v) ∷ m) = ground (arith, get_item-remove_item k m)

stored_key-again :
    (k key later : Text) (store : KeyStore)
    → is_key key ≡ true
    → (stored_key k later (stored_key k key store).1 ≡ stored_key k key store)
      × (is_key (stored_key k key store).0 ≡ true)
unfolding stored_key
stored_key-again k key later store good =
    let new = get_item-set_item k key store in
    elim (Option-cases (get_item k store)) [
      | inl none_yet ↦ ground (arith, none_yet, new, good)
      | inr (old, e) ↦ ground (arith, e, new, good)
    ]

-- After a key is asked for, the same fingerprint gives the same key again and leaves the storage as
-- it is, whatever new key could be made, if the new key of the first time is a key; and once it is
-- cleared, none is stored.
pub get_checkout_key-again :
    (fp fresh later : Text) (store : KeyStore)
    → is_key (take 64 fresh) ≡ true
    → let (key, store') = get_checkout_key fp fresh store in
      (get_checkout_key fp later store' ≡ (key, store'))
      × (is_key key ≡ true)
      × (get_item (store_name fp) (clear_checkout_key fp store') ≡ none)
unfolding get_checkout_key clear_checkout_key
get_checkout_key-again fp fresh later store good =
    let k = store_name fp in
    let (again, valid) = stored_key-again k (take 64 fresh) (take 64 later) store good in
    (again, valid, get_item-remove_item k (stored_key k (take 64 fresh) store).1)
