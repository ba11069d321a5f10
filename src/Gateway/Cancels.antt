-- ===== src/Gateway/Cancels.antt =====
-- What a cancellation leaves undone.
use crypto_derivative_algo_t.Prelude.{
  String, ◌≡◌, refl, ◌∙◌, sym, ap, true, string_eq, Option, none, some,
}
use crypto_derivative_algo_t.Schema.Enums.{Exchange, MarketType, OrderStatus}
use crypto_derivative_algo_t.Schema.Statuses.{is_terminal}
use crypto_derivative_algo_t.Schema.Order.{Order}
use crypto_derivative_algo_t.Failure.{
  CancelSkipReason, local_order_not_found, ApiError, Result, ok, err, exchange_api_error,
  type_error, cancel_order_skipped,
}
use crypto_derivative_algo_t.Store.Action.{World, raise, ◌>>=◌, try_except, continue}
use crypto_derivative_algo_t.Store.Tables.{Tables}
use crypto_derivative_algo_t.Gateway.Undo.{HasStatus}
use crypto_derivative_algo_t.Service.Reads.{load_order-TablesAre}
use crypto_derivative_algo_t.Service.OrderState.{load_order}
use crypto_derivative_algo_t.Gateway.Client.{ExchangeClient, CancelResult}
use crypto_derivative_algo_t.Gateway.Cancellation.{
  cancel_regular, on_regular_cancel_error, cancel_loaded, cancel_order, terminal_cancel_skip_reason,
}

-- There is nothing to cancel.
abbrev pub IsOver : Option Order → Type 0
IsOver none = Unit {0}
IsOver (some o) = is_terminal o.status ≡ true

module _ (client_for_market : Exchange → MarketType → Result ExchangeClient) where
  -- An order that is not known, or is in a terminal status, is not cancelled: the call raises
  -- CancelOrderSkipped, no table has changed, and no client was asked.
  pub finished_is_skipped :
      (order_id : String) (found : Option Order) (w w' : World)
      → load_order order_id true w ≡ (ok found, w')
      → IsOver found
      → (reason : CancelSkipReason) × (cancel_order client_for_market order_id w
          ≡ (err (cancel_order_skipped reason), w'))
        × (w'.tables ≡ w.tables)
  unfolding cancel_order ◌>>=◌ cancel_loaded raise
  finished_is_skipped order_id found w w' e over = (
    skip_reason found,
    rw e (skipped found over),
    ap (λ r. r.1.tables) (sym e) ∙ (load_order-TablesAre w.tables order_id true).keeps w refl,
  )
    where
      skip_reason : Option Order → CancelSkipReason
      skip_reason none = local_order_not_found
      skip_reason (some o) = terminal_cancel_skip_reason o.status

      skipped :
          (o : Option Order)
          → IsOver o
          → cancel_loaded client_for_market o w' ≡ (err (cancel_order_skipped (skip_reason o)), w')
      skipped none h = refl
      skipped (some o) h = rw h refl

  module _ (client : ExchangeClient) (e : ApiError) where
    -- The client refuses the cancellation of every order in this way.
    abbrev pub IsRefusing : Type 0
    IsRefusing =
        (p : Order) (v : World)
        → (v' : World) × (client.cancel_order p v ≡ (err (exchange_api_error e), v'))
          × (v'.tables ≡ v.tables)

    abbrev rest : Result Order × World → Result CancelResult × World
    rest r =
        continue r.0
          (λ p.
            try_except (cancel_regular client_for_market p)
              (on_regular_cancel_error client_for_market p))
          r.1

    abbrev StaysPending : Order → Result CancelResult × World → Type 0
    StaysPending o r =
        (r.0 ≡ err type_error) × HasStatus o.order_id OrderStatus.pending_cancel r.1.tables
