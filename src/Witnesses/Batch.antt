-- ===== src/Witnesses/Batch.antt =====
-- Properties of terminal rows and batches, at concrete inputs.
use crypto_derivative_algo_t.Prelude.{count_if, ◌≤◌, ℕ, ◌≡◌, refl, subst, string_eq, some, [], ◌∷◌}
use crypto_derivative_algo_t.Schema.Enums
use crypto_derivative_algo_t.Schema.Enums.{
  Exchange, MarketType, OrderStatus, ConditionalStatus, PositionSide, PositionAction,
}
use crypto_derivative_algo_t.Schema.Order.{Order, OrderRequest}
use crypto_derivative_algo_t.Failure.{ok-injective, ok, err}
use crypto_derivative_algo_t.Store.Tables.{order_row, find_order}
use crypto_derivative_algo_t.Service.Keeps.{Keeps, Keeps-raise}
use crypto_derivative_algo_t.Service.Agreement.{IsConsistent}
use crypto_derivative_algo_t.Gateway.Transition.{set_status}
use crypto_derivative_algo_t.Gateway.Client.{ExchangeClient}
use crypto_derivative_algo_t.Prelude.{upper}
use crypto_derivative_algo_t.Store.Action
use crypto_derivative_algo_t.Store.Redis.{is_projectable}
use crypto_derivative_algo_t.Service.OrderState
use crypto_derivative_algo_t.Service.Repository
use crypto_derivative_algo_t.Gateway.Transition
use crypto_derivative_algo_t.Gateway.Undo.{HasStatus, restore_overwrites}
use crypto_derivative_algo_t.Gateway.Cancellation.Batch.{find_key}
use crypto_derivative_algo_t.Gateway.Cancellation.Answers.{restore, restore_to}
use crypto_derivative_algo_t.Gateway.Batch.{submit_batch_orders}
use crypto_derivative_algo_t.Gateway.Leverage.{
  LeverageInfo, same_market, dedupe_symbol_leverage_updates,
}
use crypto_derivative_algo_t.Gateway.Batch.Loops.{
  find_leverage, last_leverage, asks_leverage, find_leverage-dedupe, leverage_breaks_batch,
}
use crypto_derivative_algo_t.Gateway.Batch.Consistency.{submit_batch_orders-IsConsistent}
use crypto_derivative_algo_t.Failure.{attribute_error}
use crypto_derivative_algo_t.Prelude.{List}
use crypto_derivative_algo_t.Samples.{origin, request, empty_world, holding, always_taker}
use crypto_derivative_algo_t.Samples.{filled}

abbrev levered : ℕ → OrderRequest
levered n = record request { leverage = some n }

abbrev here : LeverageInfo
here = record {
  exchange = Enums.binance;
  market_type = Enums.perp;
  symbol = "btcusdt";
  leverage = 0;
}

find_leverage-dedupe_example :
    (count_if
        (λ j. same_market j here)
        (dedupe_symbol_leverage_updates (levered 3 ∷ request ∷ levered 5 ∷ []))
      ≤ 1)
    × (find_leverage here (dedupe_symbol_leverage_updates (levered 3 ∷ request ∷ levered 5 ∷ []))
        ≡ last_leverage here (levered 3 ∷ request ∷ levered 5 ∷ []))
find_leverage-dedupe_example = find_leverage-dedupe here (levered 3 ∷ request ∷ levered 5 ∷ [])

leverage_breaks_batch_example :
    submit_batch_orders always_taker Enums.binance Enums.perp origin
      (request ∷ levered 5 ∷ [])
      empty_world
    ≡ (err attribute_error, empty_world)
unfolding asks_leverage
leverage_breaks_batch_example =
    leverage_breaks_batch always_taker Enums.binance Enums.perp origin (request ∷ levered 5 ∷ [])
      empty_world refl

batches-IsConsistent :
    (e : Exchange) (m : MarketType) (client : ExchangeClient) (orders : List Order)
    → always_taker e m ≡ ok client
    → Keeps IsConsistent (client.place_batch_orders orders)
batches-IsConsistent e m client orders h =
    subst (λ c. Keeps IsConsistent (c.place_batch_orders orders)) (ok-injective h) (Keeps-raise _)

submit_batch_orders-IsConsistent_example :
    Keeps IsConsistent
      (submit_batch_orders always_taker Enums.binance Enums.perp origin (request ∷ request ∷ []))
submit_batch_orders-IsConsistent_example =
    submit_batch_orders-IsConsistent always_taker batches-IsConsistent Enums.binance Enums.perp
      origin (request ∷ request ∷ [])

-- The order was filled while the batch waited for the exchange.
restore_overwrites_example :
    HasStatus "A1" OrderStatus.acknowledged
      (restore (("A1", OrderStatus.acknowledged) ∷ []) "A1" (some filled) (holding filled)).1.tables
unfolding find_order find_key restore restore_to Action.◌>>=◌ set_status Action.epoch_ms
    Transition.apply_status Transition.candidate_progress Transition.set_fields Action.try_except
    OrderState.transition_order OrderState.transition_rows Action.ignore_errors
    OrderState.refresh_order_projection Repository.save is_projectable upper Transition.stamp_filled
restore_overwrites_example =
    restore_overwrites (("A1", OrderStatus.acknowledged) ∷ []) "A1" filled OrderStatus.acknowledged
      (holding filled) (order_row (λ s. s) filled) refl refl refl refl
