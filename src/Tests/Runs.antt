-- ===== src/Tests/Runs.antt =====
-- Single runs of the operations.
use clock.Base.{Option, none, refl, some, ℕ, ◌≡◌}
use clock.Db.{Db, OrderStatus}
use clock.Db.Monad.{Result, err, ok}
use clock.Orders.Create.Input.{deposit, methods, simulated_methods, simulated_methods_enabled}
use clock.Orders.Create.Lines.{store_line, total_usd_of, total_vnd_of}
use clock.Orders.Create.Place.{reserve_drafts, stored_totals}
use clock.Orders.Create.Replay.{CreateOrderResult, to_create_result}
use clock.Orders.Create.Service.{create}
use clock.Pricing.{line_price, strap_delta}
use clock.Samples.{empty_shop, no_opts, toy_context, toy_request}
use clock.Text.{includes, is_space, text_eq, trim, trim_end, trim_start}

abbrev status_of : Result CreateOrderResult × Db → Option (OrderStatus × ℕ × ℕ)
status_of (ok r, db) = some (r.status, r.total_usd, r.remaining_usd)
status_of (err e, db) = none

-- A deposit order is confirmed, with a fifth of the database's price paid.
deposit_run :
    status_of (create toy_context (toy_request deposit) (some 7) no_opts empty_shop)
    ≡ some (OrderStatus.confirmed, 2000, 1600)
unfolding create trim trim_start trim_end is_space includes text_eq line_price strap_delta
    store_line total_usd_of total_vnd_of to_create_result reserve_drafts stored_totals methods
    simulated_methods simulated_methods_enabled
deposit_run = refl
