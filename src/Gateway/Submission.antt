-- ===== src/Gateway/Submission.antt =====
-- gateway/submission_service.py, for one order. The lock of an order keeps other calls of the
-- gateway away from it, but not the other writers of the store: what those do while the exchange is
-- awaited is part of the client's action.
use crypto_derivative_algo_t.Prelude.{
  ℕ, String, true, Option, none, some, List, [], ◌∷◌, if◌then◌else◌,
}
use crypto_derivative_algo_t.Schema.Enums.{
  Exchange, MarketType, OrderRoute, OrderStatus, RejectReason, regular, conditional,
}
use crypto_derivative_algo_t.Schema.Order.{Origin, Order, OrderRequest}
use crypto_derivative_algo_t.Failure.{
  Failure, Result, ok, err, value_error, exchange_api_error, is_unknown_execution,
}
use crypto_derivative_algo_t.StateMachine.Conditional
use crypto_derivative_algo_t.Store.Action.{
  Action, pure, raise, lift, ◌>>=◌, ◌>>◌, try_except, epoch_ms,
}
use crypto_derivative_algo_t.Gateway.Transition.{
  Update, submitted_ts, acknowledged_ts, exchange_order_id, exchange_conditional_id,
  exchange_conditional_status, conditional_status, raw_exchange_response, set_status, mark_rejected,
  mark_unknown, create_internal_order, sanitize_detail_msg,
}
use crypto_derivative_algo_t.Gateway.Client.{
  ExchangeClient, Ack, ConditionalAck, regular_ack, conditional_ack, map_exchange_error_to_reason,
}

conditional_fields : ConditionalAck → Result (Unit {0}) → Option String → Result (List Update)
conditional_fields a (err e) name = err e
conditional_fields a (ok u) none = err value_error
conditional_fields a (ok u) (some name) = ok (
    exchange_conditional_id a.exchange_conditional_id
    ∷ conditional_status (some a.conditional_status)
    ∷ exchange_conditional_status (some name)
    ∷ raw_exchange_response (some a.raw)
    ∷ [])

-- _acknowledge_exchange_ack: the fields that an answer sets.
unfoldable pub ack_fields : Order → ExchangeClient → Ack → Result (List Update)
unfolding conditional_fields
ack_fields o client (regular_ack a) =
    ok (exchange_order_id a.exchange_order_id ∷ raw_exchange_response (some a.raw) ∷ [])
ack_fields o client (conditional_ack a) =
    conditional_fields a
      (Conditional.assert_can_transition o.conditional_status a.conditional_status)
      (client.conditional_status_name a.conditional_status)

unfoldable pub acknowledge_exchange_ack : Order → Ack → ExchangeClient → Action Order
acknowledge_exchange_ack o ack client = do
  now ← epoch_ms
  fields ← lift (ack_fields o client ack)
  set_status o OrderStatus.acknowledged true true (acknowledged_ts (some now) ∷ fields)

unfoldable pub place_by_route : Option OrderRoute → ExchangeClient → Order → Action Ack
place_by_route (some regular) client o = do a ← client.place_order o; pure (regular_ack a)
place_by_route (some conditional) client o = do
  a ← client.place_conditional_order o
  pure (conditional_ack a)
place_by_route none client o = raise value_error

module _ (client_for_market : Exchange → MarketType → Result ExchangeClient)
    (describe : Failure → String) where
  -- _place_exchange_order
  unfoldable pub place_exchange_order : Order → Action Ack
  place_exchange_order o = do
    client ← lift (client_for_market o.exchange o.market_type)
    place_by_route o.order_route client o

  -- The two `except` clauses of `submit_order`.
  unfoldable pub on_submit_error : Order → Failure → Action Order
  on_submit_error o (exchange_api_error e) =
      if is_unknown_execution e.category
      then mark_unknown o
      else mark_rejected o (map_exchange_error_to_reason e.category) e.code (some e.message)
  on_submit_error o e =
      mark_rejected o RejectReason.internal_error none (sanitize_detail_msg (some (describe e)))

  -- The body of the `try`.
  unfoldable pub send_order : Order → Action Order
  send_order o = do
    client ← lift (client_for_market o.exchange o.market_type)
    ack ← place_exchange_order o
    acknowledge_exchange_ack o ack client

  unfoldable pub apply_leverage : OrderRequest → Option ℕ → Action (Unit {0})
  apply_leverage req none = pure tt
  apply_leverage req (some leverage) = do
    client ← lift (client_for_market req.exchange req.market_type)
    client.change_leverage req.symbol leverage

  -- _apply_order_request_leverage_if_present
  unfoldable pub apply_order_request_leverage_if_present : OrderRequest → Action (Unit {0})
  apply_order_request_leverage_if_present req = apply_leverage req req.leverage

  -- What `submit_order` does under the lock of the order.
  unfoldable pub submit_created : Order → Action Order
  submit_created o = do
    now ← epoch_ms
    sent ← set_status o OrderStatus.submitted true true (submitted_ts (some now) ∷ [])
    try_except (send_order sent) (on_submit_error sent)

  unfoldable pub submit_order : OrderRequest → Origin → Action Order
  submit_order req origin = do
    apply_order_request_leverage_if_present req
    o ← create_internal_order req origin
    submit_created o
