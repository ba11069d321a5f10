-- ===== src/Gateway/Consistency/Submit.antt =====
-- Submitting one order keeps the agreement of the tables and the projections.
use crypto_derivative_algo_t.Prelude.{ℕ, String, ◌≡◌, Option, none, some}
use crypto_derivative_algo_t.Schema.Enums.{OrderRoute, regular, conditional, Exchange, MarketType}
use crypto_derivative_algo_t.Schema.Order.{Origin, Order, OrderRequest}
use crypto_derivative_algo_t.Failure.{Failure, exchange_api_error, Result, ok}
use crypto_derivative_algo_t.Service.Keeps.{Keeps, keeps_rules, Keeps-pure, Keeps-bind}
use crypto_derivative_algo_t.Service.Agreement.{IsConsistent}
use crypto_derivative_algo_t.Gateway.Client.{ExchangeClient, Ack}
use crypto_derivative_algo_t.Gateway.Submission.{
  acknowledge_exchange_ack, place_by_route, place_exchange_order, on_submit_error, send_order,
  apply_leverage, apply_order_request_leverage_if_present, submit_created, submit_order,
}
use crypto_derivative_algo_t.Gateway.Consistency.{gateway_rules, IsOrderly, with_client}

module _ (client_for_market : Exchange → MarketType → Result ExchangeClient)
    (orderly : (e : Exchange) (m : MarketType) (client : ExchangeClient)
      → client_for_market e m ≡ ok client
      → IsOrderly client) where
  acknowledge-IsConsistent :
      (o : Order) (ack : Ack) (client : ExchangeClient)
      → Keeps IsConsistent (acknowledge_exchange_ack o ack client)
  unfolding acknowledge_exchange_ack
  acknowledge-IsConsistent o ack client = search gateway_rules

  placed_by-IsConsistent :
      (r : Option OrderRoute) (o : Order) (client : ExchangeClient)
      → IsOrderly client
      → Keeps IsConsistent (place_by_route r client o)
  unfolding place_by_route
  placed_by-IsConsistent (some regular) o client c = Keeps-bind _ _ (c.places o) (λ _. Keeps-pure _)
  placed_by-IsConsistent (some conditional) o client c =
      Keeps-bind _ _ (c.places_conditional o) (λ _. Keeps-pure _)
  placed_by-IsConsistent none o client c = search keeps_rules

  module _ (describe : Failure → String) where
    placed-IsConsistent :
        (o : Order) → Keeps IsConsistent (place_exchange_order client_for_market describe o)
    unfolding place_exchange_order
    placed-IsConsistent o =
        with_client client_for_market orderly o.exchange o.market_type _
          (placed_by-IsConsistent o.order_route o)

    on_submit_error-IsConsistent :
        (o : Order) (e : Failure)
        → Keeps IsConsistent (on_submit_error client_for_market describe o e)
    unfolding on_submit_error
    on_submit_error-IsConsistent o (exchange_api_error e) = search gateway_rules
    on_submit_error-IsConsistent o _ = search gateway_rules

    send_order-IsConsistent :
        (o : Order) → Keeps IsConsistent (send_order client_for_market describe o)
    unfolding send_order
    send_order-IsConsistent o =
        with_client client_for_market orderly o.exchange o.market_type _
          (λ client c. search (gateway_rules, placed-IsConsistent, acknowledge-IsConsistent))

    submit_created-IsConsistent :
        (o : Order) → Keeps IsConsistent (submit_created client_for_market describe o)
    unfolding submit_created
    submit_created-IsConsistent o =
        search (gateway_rules, send_order-IsConsistent, on_submit_error-IsConsistent)

    apply_leverage-IsConsistent :
        (req : OrderRequest) (leverage : Option ℕ)
        → Keeps IsConsistent (apply_leverage client_for_market describe req leverage)
    unfolding apply_leverage
    apply_leverage-IsConsistent req none = search keeps_rules
    apply_leverage-IsConsistent req (some leverage) =
        with_client client_for_market orderly req.exchange req.market_type _
          (λ client c. c.levers req.symbol leverage)

    -- If the calls of every client that is found keep every order's events and version in step and its
    -- projection no newer than its row, and of the row's status if it is as new, the submission of
    -- an order does so on every path.
    pub submit_order-IsConsistent :
        (req : OrderRequest) (origin : Origin)
        → Keeps IsConsistent (submit_order client_for_market describe req origin)
    unfolding submit_order apply_order_request_leverage_if_present
    submit_order-IsConsistent req origin =
        search (gateway_rules, apply_leverage-IsConsistent, submit_created-IsConsistent)
