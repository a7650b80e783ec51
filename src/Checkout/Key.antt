-- ===== src/Checkout/Key.antt =====
-- The keys in the browser's storage, and `getCheckoutKey` and `clearCheckoutKey`.
pub mod Laws
use clock.Base.{
  Bool, List, Option, [], all, filter, if◌then◌else◌, is_empty, leb, length, none, some, take, ℕ,
  ◌&&◌, ◌++◌, ◌==◌, ◌||◌, ◌∷◌,
}
use clock.Text.{Text, codes, text_eq}

-- `KeyStorage`, and the map that takes its place where the browser has no storage
abbrev pub KeyStore : Type 0
KeyStore = List (Text × Text)

unfoldable pub get_item : Text → KeyStore → Option Text
unfolding text_eq
get_item k [] = none
get_item k ((k', v) ∷ m) = let rest = get_item k m in if text_eq k' k then some v else rest

unfoldable pub remove_item : Text → KeyStore → KeyStore
unfolding text_eq
remove_item k [] = []
remove_item k ((k', v) ∷ m) =
    let rest = remove_item k m in if text_eq k' k then rest else (k', v) ∷ rest

unfoldable pub set_item : Text → Text → KeyStore → KeyStore
unfolding remove_item
set_item k v m = (k, v) ∷ remove_item k m

abbrev pub store_name : Text → Text
store_name fingerprint = codes "aurel-checkout-key:" ++ fingerprint

-- `[A-Za-z0-9_-]`
unfoldable pub is_key_unit : ℕ → Bool
is_key_unit c =
    (leb b'A' c && leb c b'Z')
    || (leb b'a' c && leb c b'z')
    || (leb b'0' c && leb c b'9')
    || c == b'_'
    || c == b'-'

-- `/^[A-Za-z0-9_-]{8,64}$/`
unfoldable pub is_key : Text → Bool
unfolding is_key_unit
is_key s = leb 8 (length s) && leb (length s) 64 && all is_key_unit s

-- `uuid.replace(/[^A-Za-z0-9_-]/g, "")`, of a UUID; where the browser makes none, `fallback`, a text
-- of the time and of a random number, is taken.
unfoldable pub fresh_key : Option Text → Text → Text
unfolding is_key_unit
fresh_key none fallback = fallback
fresh_key (some uuid) fallback = if is_empty uuid then fallback else filter is_key_unit uuid

-- The key under a name of the storage, and the storage afterwards
unfoldable pub stored_key : Text → Text → KeyStore → Text × KeyStore
unfolding get_item set_item is_key
stored_key k key store = elim (get_item k store) [
  | none ↦ (key, set_item k key store)
  | some existing ↦ if is_key existing then (existing, store) else (key, set_item k key store)
]

-- `fresh` is the key that is made if one is needed.
unfoldable pub get_checkout_key : Text → Text → KeyStore → Text × KeyStore
unfolding stored_key
get_checkout_key fingerprint fresh store = stored_key (store_name fingerprint) (take 64 fresh) store

unfoldable pub clear_checkout_key : Text → KeyStore → KeyStore
unfolding remove_item
clear_checkout_key fingerprint store = remove_item (store_name fingerprint) store
