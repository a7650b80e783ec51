-- ===== src/Vnpay.antt =====
-- backend/src/common/vnpay.ts: signed payment links and the check of the gateway's callbacks.
-- `crypto.createHmac('sha512', secret)` is a parameter, `hmac secret query`, of what uses it.
pub mod Encode
pub mod Sign
use clock.Base.{
  Bool, List, Number, Option, [], finite, get_or, if◌then◌else◌, is_empty, ltb, none, pos, some,
  suc, zero, ℕ, ◌%◌, ◌&&◌, ◌*◌, ◌++◌, ◌+◌, ◌/◌, ◌||◌, ◌∷◌,
}
use clock.Text.{Text, codes, trim}
use clock.Vnpay.Sign.{sign_params}

-- What `vnpayEnv` reads from the environment.
pub record VnpayEnv : Type 0 where
  -- VNPAY_ENV === 'production'
  pub is_prod : Bool
  pub tmn_code : Text
  pub hash_secret : Text
  pub url : Option Text

abbrev pub production_url : Text
production_url = codes "https://vnpayment.vn/paymentv2/vpcpay.html"

abbrev pub sandbox_url : Text
sandbox_url = codes "https://sandbox.vnpayment.vn/paymentv2/vpcpay.html"

abbrev pub non_empty_or : Text → Text → Text
non_empty_or [] fallback = fallback
non_empty_or (c ∷ s) fallback = c ∷ s

-- The gateway's address; `none` is the throw of a production without a merchant's code.
unfoldable pub gateway_url : VnpayEnv → Option Text
gateway_url env =
    if env.is_prod && is_empty env.tmn_code
    then none
    else some (
        non_empty_or (trim (get_or env.url []))
          (if env.is_prod then production_url else sandbox_url))

-- `vnpUrlTtlMinutes`, of the environment's value, `none` if it is not set
unfoldable pub url_ttl_minutes : Option Number → ℕ
url_ttl_minutes (some (finite (pos n))) = if ltb n 10 || ltb 1440 n then 30 else n
url_ttl_minutes _ = 30

pub record PayUrlInput : Type 0 where
  pub txn_ref : Text
  pub amount_vnd : ℕ
  pub order_info : Text
  pub return_url : Text
  pub ip_addr : Text
  -- the two dates of the link, as `vnpDateVN` writes them
  pub create_date : Text
  pub expire_date : Text

-- Decimal digits, `String(n)`, by rounds of at most `fuel` digits.
unfoldable pub digits_from : ℕ → ℕ → Text → Text
digits_from zero n acc = acc
digits_from (suc fuel) n acc =
    let rest = digits_from fuel (n / 10) ((b'0' + n % 10) ∷ acc) in
    if ltb n 10 then (b'0' + n) ∷ acc else rest

-- A number has no more digits than its value plus one.
unfoldable pub to_digits : ℕ → Text
unfolding digits_from
to_digits n = digits_from (n + 1) n []

unfoldable pub pay_params : VnpayEnv → PayUrlInput → List (Text × Text)
unfolding to_digits
pay_params env input =
    (codes "vnp_Version", codes "2.1.0")
    ∷ (codes "vnp_Command", codes "pay")
    ∷ (codes "vnp_TmnCode", env.tmn_code)
    ∷ (codes "vnp_Amount", to_digits (input.amount_vnd * 100))
    ∷ (codes "vnp_CurrCode", codes "VND")
    ∷ (codes "vnp_TxnRef", input.txn_ref)
    ∷ (codes "vnp_OrderInfo", input.order_info)
    ∷ (codes "vnp_OrderType", codes "other")
    ∷ (codes "vnp_Locale", codes "vn")
    ∷ (codes "vnp_ReturnUrl", input.return_url)
    ∷ (codes "vnp_IpAddr", input.ip_addr)
    ∷ (codes "vnp_CreateDate", input.create_date)
    ∷ (codes "vnp_ExpireDate", input.expire_date)
    ∷ []

-- `none` is a throw: the environment lacks the merchant's code or the secret.
unfoldable pub build_pay_url : (Text → Text → Text) → VnpayEnv → PayUrlInput → Option Text
unfolding gateway_url pay_params sign_params
build_pay_url hmac env input = elim (gateway_url env) [
  | none ↦ none
  | some url ↦
      if is_empty env.tmn_code || is_empty env.hash_secret
      then none
      else (let (query, hash) = sign_params hmac (pay_params env input) env.hash_secret in
          some (url ++ (b'?' ∷ query ++ (codes "&vnp_SecureHash=" ++ hash))))
]
