-- ===== src/Orders/Create/Input/Laws.antt =====
-- Which methods of payment a request may name.
use clock.Base.{[], arith, false, true, ◌∷◌, ◌≡◌}
use clock.Db.{Db}
use clock.Db.Monad.{ok}
use clock.Orders.Create.Input.{
  CreateOrderInput, ShopEnv, check_method, deposit, method_of, methods, simulated_methods,
  simulated_methods_enabled, vnpay,
}
use clock.Text.{Text, codes, includes, text_eq_iff}

only_rest :
    (a b c v d m : Text)
    → includes (a ∷ b ∷ c ∷ v ∷ d ∷ []) m ≡ true
    → includes (a ∷ b ∷ c ∷ d ∷ []) m ≡ false
    → m ≡ v
unfolding includes
only_rest a b c v d m known real = ground (arith, text_eq_iff v m)

only_vnpay :
    (m : Text) → includes methods m ≡ true → includes simulated_methods m ≡ false → m ≡ vnpay
unfolding methods simulated_methods
only_vnpay m = only_rest (codes "centurion") (codes "escrow") deposit vnpay (codes "cod") m

-- In production a request that passes the check of the method is paid by VNPay: every method that only pretends to take money is refused. The check writes nothing.
pub check_method-production :
    (env : ShopEnv) (input : CreateOrderInput) (db db' : Db)
    → env.is_production ≡ true
    → check_method env input db ≡ (ok tt, db')
    → (method_of input ≡ vnpay) × (db' ≡ db)
unfolding check_method simulated_methods_enabled
check_method-production env input db db' prod e = ground (arith, only_vnpay (method_of input))
