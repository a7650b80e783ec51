-- ===== src/Orders/Create/Input.antt =====
-- The request of `OrdersService.create`, and its checks up to the empty cart.
pub mod Laws
use clock.Base.{
  Bool, List, Number, Option, [], all, false, get_or, if◌then◌else◌, is_empty, leb, length, none,
  not, some, take, ℕ, ◌&&◌, ◌==◌, ◌||◌, ◌∷◌,
}
use clock.Db.Monad.{Error, M, require, ◌>>◌}
use clock.Text.{Text, codes, includes, trim}

pub record ItemInput : Type 0 where
  pub slug : Option Text
  pub name : Option Text
  pub price_usd : Number
  pub image : Option Text
  pub strap : Option Text
  pub engraving : Option Text
  pub qty : Option Number

pub record CreateOrderInput : Type 0 where
  pub customer_name : Option Text
  pub contact : Option Text
  pub address : Option Text
  pub slot : Option Text
  -- `none` is what is no array
  pub items : Option (List ItemInput)
  pub method : Option Text
  -- `agreedTerms === true`
  pub agreed_terms : Bool
  -- the trimmed id; `none` is missing or blank
  pub payment_intent_id : Option ℕ

pub record CreateOrderOpts : Type 0 where
  pub idempotency_key : Option Text
  pub via_agent : Bool

-- NODE_ENV === 'production', and ENABLE_SIMULATED_METHODS !== '0'
pub record ShopEnv : Type 0 where
  pub is_production : Bool
  pub enable_simulated : Bool

abbrev pub vnpay : Text
vnpay = codes "vnpay"

abbrev pub deposit : Text
deposit = codes "deposit"

unfoldable pub methods : List Text
methods = codes "centurion" ∷ codes "escrow" ∷ deposit ∷ vnpay ∷ codes "cod" ∷ []

unfoldable pub simulated_methods : List Text
simulated_methods = codes "centurion" ∷ codes "escrow" ∷ deposit ∷ codes "cod" ∷ []

unfoldable pub simulated_methods_enabled : ShopEnv → Bool
simulated_methods_enabled env = if env.is_production then false else env.enable_simulated

abbrev pub is_key_char : ℕ → Bool
is_key_char c =
    (leb b'A' c && leb c b'Z')
    || (leb b'a' c && leb c b'z')
    || (leb b'0' c && leb c b'9')
    || c == b'_'
    || c == b'-'

-- `/^[A-Za-z0-9_-]{8,64}$/` on the trimmed key
unfoldable pub normalize_idem_key : Option Text → Option Text
normalize_idem_key raw =
    let k = trim (get_or raw []) in
    if leb 8 (length k) && leb (length k) 64 && all is_key_char k then some k else none

-- `String(x ?? '').trim()`
abbrev pub trimmed : Option Text → Text
trimmed x = trim (get_or x [])

-- At most 50 items.
abbrev pub cart_lines : CreateOrderInput → List ItemInput
cart_lines input = take 50 (get_or input.items [])

abbrev pub method_of : CreateOrderInput → Text
method_of input = get_or input.method vnpay

-- Name, contact and address, and the consent.
unfoldable pub check_person : CreateOrderInput → M (Unit {0})
check_person input = do
  require
      (not (
        is_empty (trimmed input.customer_name)
        || is_empty (trimmed input.contact)
        || is_empty (trimmed input.address)))
      Error.missing_contact_info
  require input.agreed_terms Error.terms_not_agreed

-- The method of payment and the cart.
unfoldable pub check_method : ShopEnv → CreateOrderInput → M (Unit {0})
check_method env input = do
  require (includes methods (method_of input)) Error.bad_method
  require
      (not (includes simulated_methods (method_of input) && not (simulated_methods_enabled env)))
      Error.demo_only
  require (not (is_empty (cart_lines input))) Error.empty_cart
