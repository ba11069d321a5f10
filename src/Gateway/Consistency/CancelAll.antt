-- ===== src/Gateway/Consistency/CancelAll.antt =====
-- The cancellation of all open orders keeps the agreement of the tables and the projections.
use crypto_derivative_algo_t.Prelude.{String, ◌≡◌, Bool, Option, none, some, List, [], ◌∷◌}
use crypto_derivative_algo_t.Schema.Enums.{Exchange, MarketType}
use crypto_derivative_algo_t.Schema.Order.{Order}
use crypto_derivative_algo_t.Failure.{Result, ok}
use crypto_derivative_algo_t.Store.Action.{Action}
use crypto_derivative_algo_t.Service.Keeps.{Keeps, Keeps-pure, Keeps-bind, Keeps-try_except}
use crypto_derivative_algo_t.Service.Agreement.{IsConsistent}
use crypto_derivative_algo_t.Service.ListLoads.{list_open_orders_by_symbol-IsConsistent}
use crypto_derivative_algo_t.Gateway.Client.{ExchangeClient, CancelResult}
use crypto_derivative_algo_t.Gateway.Batch.{caught}
use crypto_derivative_algo_t.Gateway.Consistency.{gateway_rules, IsOrderly, with_client}
use crypto_derivative_algo_t.Gateway.Consistency.CancelBatch.{
  on_batch_cancel_error-IsConsistent, cancel_batch_orders-IsConsistent,
}
use crypto_derivative_algo_t.Gateway.Consistency.Cancel.{cancel_order-IsConsistent}
use crypto_derivative_algo_t.Gateway.Cancellation.{cancel_order}
use crypto_derivative_algo_t.Gateway.Cancellation.Chunks.{cancel_batch_orders}
use crypto_derivative_algo_t.Gateway.Cancellation.All.{
  Held, hold_latest, hold_one, hold_all, ask_client, cancel_all_matching,
  cancel_all_regular_open_orders, cancel_all_conditional_open_orders, cancel_all_open_orders,
}

hold_latest-IsConsistent :
    (may_cancel : Order → Bool) (latest : Option Order) (h : Held)
    → Keeps IsConsistent (hold_latest may_cancel latest h)
unfolding hold_latest
hold_latest-IsConsistent may_cancel none h = search gateway_rules
hold_latest-IsConsistent may_cancel (some latest) h = search gateway_rules

hold_one-IsConsistent :
    (may_cancel : Order → Bool) (o : Order) (h : Held)
    → Keeps IsConsistent (hold_one may_cancel o h)
unfolding hold_one
hold_one-IsConsistent may_cancel o h = search (gateway_rules, hold_latest-IsConsistent)

hold_all-IsConsistent :
    (may_cancel : Order → Bool) (orders : List Order) (h : Held)
    → Keeps IsConsistent (hold_all may_cancel orders h)
unfolding hold_all
hold_all-IsConsistent may_cancel [] h = search gateway_rules
hold_all-IsConsistent may_cancel (o ∷ rest) h =
    Keeps-bind _ _ (hold_one-IsConsistent may_cancel o h) (hold_all-IsConsistent may_cancel rest)

caught-IsConsistent :
    {A : Type 0} (m : Action A) → Keeps IsConsistent m → Keeps IsConsistent (caught m)
unfolding caught
caught-IsConsistent m k =
    Keeps-try_except _ _ (Keeps-bind _ _ k (λ a. Keeps-pure _)) (λ e. Keeps-pure _)

module _ (client_for_market : Exchange → MarketType → Result ExchangeClient)
    (orderly : (e : Exchange) (m : MarketType) (client : ExchangeClient)
      → client_for_market e m ≡ ok client
      → IsOrderly client) where
  cancel_all_matching-IsConsistent :
      (may_cancel : Order → Bool) (call : ExchangeClient → String → Action CancelResult)
      → ((client : ExchangeClient) (symbol : String)
          → IsOrderly client
          → Keeps IsConsistent (call client symbol))
      → (e : Exchange) (m : MarketType) (symbol : String)
      → Keeps IsConsistent (cancel_all_matching client_for_market may_cancel call e m symbol)
  unfolding cancel_all_matching ask_client
  cancel_all_matching-IsConsistent may_cancel call k e m symbol =
      Keeps-bind _ _ (list_open_orders_by_symbol-IsConsistent e m symbol _) (λ orders.
        Keeps-bind _ _ (hold_all-IsConsistent may_cancel orders _) (λ held.
          Keeps-try_except _ _
            (with_client client_for_market orderly e m _ (λ client. k client symbol))
            (on_batch_cancel_error-IsConsistent held.previous held.ids)))

  cancel_all_open_orders-IsConsistent :
      (e : Exchange) (m : MarketType) (symbol : String)
      → Keeps IsConsistent (cancel_all_open_orders client_for_market e m symbol)
  unfolding cancel_all_open_orders cancel_all_regular_open_orders cancel_all_conditional_open_orders
  cancel_all_open_orders-IsConsistent e m symbol =
      Keeps-bind _ _
        (caught-IsConsistent _
          (cancel_all_matching-IsConsistent _ _ (λ client s o. o.cancels_all s) e m _))
        (λ r.
          Keeps-bind _ _
            (caught-IsConsistent _ (
              cancel_all_matching-IsConsistent _ _ (λ client s o. o.cancels_all_conditional s) e m
                _))
            (λ c. Keeps-pure _))

  -- If the calls of every client that is found keep every order's events and version in step and its
  -- projection no newer than its row, and of the row's status if it is as new, every way to cancel
  -- does so on every path: the cancellation of one order, of a batch, and of all open orders of a
  -- symbol.
  pub cancellations-IsConsistent :
      (e : Exchange) (m : MarketType) (symbol order_id : String) (ids : List String)
      → Keeps IsConsistent (cancel_order client_for_market order_id)
        × Keeps IsConsistent (cancel_batch_orders client_for_market e m symbol ids)
        × Keeps IsConsistent (cancel_all_open_orders client_for_market e m symbol)
  cancellations-IsConsistent e m symbol order_id ids = (
    cancel_order-IsConsistent client_for_market orderly order_id,
    cancel_batch_orders-IsConsistent client_for_market orderly e m symbol ids,
    cancel_all_open_orders-IsConsistent e m symbol,
  )
