-- ===== src/Gateway/Consistency/Cancel.antt =====
-- Cancelling one order keeps the agreement of the tables and the projections.
use crypto_derivative_algo_t.Prelude.{String, ◌≡◌, Option, none, some}
use crypto_derivative_algo_t.Schema.Enums.{
  OrderRoute, regular, conditional, Exchange, MarketType, OrderStatus,
}
use crypto_derivative_algo_t.Schema.Order.{Order}
use crypto_derivative_algo_t.Failure.{Failure, exchange_api_error, Result, ok}
use crypto_derivative_algo_t.Service.Keeps.{Keeps, keeps_rules, Keeps-bind}
use crypto_derivative_algo_t.Service.Agreement.{IsConsistent}
use crypto_derivative_algo_t.Gateway.Client.{ExchangeClient}
use crypto_derivative_algo_t.Gateway.Cancellation.{
  roll_back, cancel_by_route, on_regular_cancel_error, cancel_regular, cancel_regular_order,
  on_conditional_cancel_error, cancel_conditional, cancel_conditional_order, cancel_loaded,
  cancel_order,
}
use crypto_derivative_algo_t.Gateway.Consistency.{gateway_rules, IsOrderly, with_client}

module _ (client_for_market : Exchange → MarketType → Result ExchangeClient)
    (orderly : (e : Exchange) (m : MarketType) (client : ExchangeClient)
      → client_for_market e m ≡ ok client
      → IsOrderly client) where
  cancel_regular-IsConsistent :
      (o : Order) → Keeps IsConsistent (cancel_regular client_for_market o)
  unfolding cancel_regular
  cancel_regular-IsConsistent o =
      with_client client_for_market orderly o.exchange o.market_type _
        (λ client c. Keeps-bind _ _ (c.cancels o) (λ _. search gateway_rules))

  on_regular_cancel_error-IsConsistent :
      (o : Order) (e : Failure) → Keeps IsConsistent (on_regular_cancel_error client_for_market o e)
  unfolding on_regular_cancel_error
  on_regular_cancel_error-IsConsistent o (exchange_api_error e) = search gateway_rules
  on_regular_cancel_error-IsConsistent o _ = search gateway_rules

  cancel_regular_order-IsConsistent :
      (o : Order) → Keeps IsConsistent (cancel_regular_order client_for_market o)
  unfolding cancel_regular_order
  cancel_regular_order-IsConsistent o =
      search (gateway_rules, cancel_regular-IsConsistent, on_regular_cancel_error-IsConsistent)

  cancel_conditional-IsConsistent :
      (o : Order) → Keeps IsConsistent (cancel_conditional client_for_market o)
  unfolding cancel_conditional
  cancel_conditional-IsConsistent o =
      with_client client_for_market orderly o.exchange o.market_type _
        (λ client c. Keeps-bind _ _ (c.cancels o) (λ _. search gateway_rules))

  roll_back-IsConsistent :
      (previous : OrderStatus) (latest : Option Order)
      → Keeps IsConsistent (roll_back client_for_market previous latest)
  roll_back-IsConsistent previous none = search gateway_rules
  roll_back-IsConsistent previous (some o) = search gateway_rules

  on_conditional_cancel_error-IsConsistent :
      (o : Order) (previous : OrderStatus) (e : Failure)
      → Keeps IsConsistent (on_conditional_cancel_error client_for_market o previous e)
  unfolding on_conditional_cancel_error
  on_conditional_cancel_error-IsConsistent o previous (exchange_api_error e) =
      search (gateway_rules, roll_back-IsConsistent)
  on_conditional_cancel_error-IsConsistent o previous _ = search gateway_rules

  cancel_conditional_order-IsConsistent :
      (o : Order) (previous : OrderStatus)
      → Keeps IsConsistent (cancel_conditional_order client_for_market o previous)
  unfolding cancel_conditional_order
  cancel_conditional_order-IsConsistent o previous =
      search
        (gateway_rules, cancel_conditional-IsConsistent, on_conditional_cancel_error-IsConsistent)

  by_route-IsConsistent :
      (r : Option OrderRoute) (o : Order)
      → Keeps IsConsistent (cancel_by_route client_for_market r o)
  by_route-IsConsistent (some regular) o = cancel_regular_order-IsConsistent o
  by_route-IsConsistent (some conditional) o = cancel_conditional_order-IsConsistent o o.status
  by_route-IsConsistent none o = search keeps_rules

  cancel_loaded-IsConsistent :
      (found : Option Order) → Keeps IsConsistent (cancel_loaded client_for_market found)
  unfolding cancel_loaded
  cancel_loaded-IsConsistent none = search keeps_rules
  cancel_loaded-IsConsistent (some o) = search (keeps_rules, by_route-IsConsistent)

  pub cancel_order-IsConsistent :
      (order_id : String) → Keeps IsConsistent (cancel_order client_for_market order_id)
  unfolding cancel_order
  cancel_order-IsConsistent order_id = search (gateway_rules, cancel_loaded-IsConsistent)
