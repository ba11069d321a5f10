-- ===== src/Gateway/Cancellation.antt =====
-- gateway/cancellation_service.py, for one order.
pub mod Batch
pub mod Answers
pub mod Chunks
pub mod All
use crypto_derivative_algo_t.Prelude.{
  String, Bool, true, false, not, ◌&&◌, Option, none, some, [], ◌∷◌, if◌then◌else◌,
}
use crypto_derivative_algo_t.Schema.Enums.{
  Exchange, MarketType, OrderRoute, OrderStatus, ConditionalStatus, regular, conditional,
}
use crypto_derivative_algo_t.Schema.Statuses.{is_terminal, is_conditional_terminal}
use crypto_derivative_algo_t.Schema.Order.{Order}
use crypto_derivative_algo_t.Failure.{
  Failure, Result, runtime_error, type_error, exchange_api_error, cancel_order_skipped,
  is_unknown_execution, CancelSkipReason, local_order_not_found, already_cancelled, already_filled,
  already_rejected, already_expired, conditional_order_not_cancelable,
}
use crypto_derivative_algo_t.StateMachine.Conditional
use crypto_derivative_algo_t.Store.Action.{
  Action, pure, raise, lift, ◌>>=◌, ◌>>◌, try_except, epoch_ms,
}
use crypto_derivative_algo_t.Service.OrderState.{load_order}
use crypto_derivative_algo_t.Gateway.Transition.{
  cancelled_ts, conditional_status, exchange_conditional_status, raw_exchange_response, set_status,
  mark_unknown,
}
use crypto_derivative_algo_t.Gateway.Client.{ExchangeClient, CancelResult}

-- _terminal_cancel_skip_reason
unfoldable pub terminal_cancel_skip_reason : OrderStatus → CancelSkipReason
terminal_cancel_skip_reason OrderStatus.cancelled = already_cancelled
terminal_cancel_skip_reason OrderStatus.filled = already_filled
terminal_cancel_skip_reason OrderStatus.rejected = already_rejected
terminal_cancel_skip_reason OrderStatus.expired = already_expired
terminal_cancel_skip_reason _ = conditional_order_not_cancelable

may_be_cancelled : Option ConditionalStatus → Bool
may_be_cancelled none = true
may_be_cancelled (some s) = Conditional.can_transition (some s) ConditionalStatus.cancelled

-- _is_conditional_cancelable
unfoldable pub is_conditional_cancelable : Order → Bool
unfolding may_be_cancelled
is_conditional_cancelable o = elim o.order_route [
  | some conditional ↦
      not (is_conditional_terminal o.conditional_status) && may_be_cancelled o.conditional_status
  | _ ↦ false
]

module _ (client_for_market : Exchange → MarketType → Result ExchangeClient) where
  -- The `except ExchangeApiError` of `_cancel_regular_order`. After a rejection it passes the order
  -- id by position to `load_order_from_postgres`, which takes keywords only: a TypeError.
  unfoldable pub on_regular_cancel_error : Order → Failure → Action CancelResult
  on_regular_cancel_error o (exchange_api_error e) =
      if is_unknown_execution e.category
      then mark_unknown o >> raise (exchange_api_error e)
      else raise type_error
  on_regular_cancel_error o e = raise e

  -- The body of its `try`.
  unfoldable pub cancel_regular : Order → Action CancelResult
  cancel_regular o = do
    client ← lift (client_for_market o.exchange o.market_type)
    response ← client.cancel_order o
    now ← epoch_ms
    set_status o OrderStatus.cancelled true true
        (cancelled_ts (some now) ∷ raw_exchange_response (some response.raw) ∷ [])
    pure response

  -- _cancel_regular_order
  unfoldable pub cancel_regular_order : Order → Action CancelResult
  cancel_regular_order o = do
    pending ← set_status o OrderStatus.pending_cancel true true []
    try_except (cancel_regular pending) (on_regular_cancel_error pending)

  abbrev pub roll_back : OrderStatus → Option Order → Action (Unit {0})
  roll_back previous none = pure tt
  roll_back previous (some latest) =
      if is_terminal latest.status
      then pure tt
      else set_status latest previous false false [] >> pure tt

  -- The `except ExchangeApiError` of `_cancel_conditional_order`.
  unfoldable pub on_conditional_cancel_error : Order → OrderStatus → Failure → Action CancelResult
  on_conditional_cancel_error o previous (exchange_api_error e) =
      if is_unknown_execution e.category
      then mark_unknown o >> raise (exchange_api_error e)
      else (do
        latest ← load_order o.order_id true
        roll_back previous latest
        raise (exchange_api_error e))
  on_conditional_cancel_error o previous e = raise e

  -- The body of its `try`.
  unfoldable pub cancel_conditional : Order → Action CancelResult
  cancel_conditional o = do
    client ← lift (client_for_market o.exchange o.market_type)
    response ← client.cancel_order o
    now ← epoch_ms
    set_status o OrderStatus.cancelled true true (
        cancelled_ts (some now)
        ∷ conditional_status (some ConditionalStatus.cancelled)
        ∷ exchange_conditional_status response.raw_status
        ∷ raw_exchange_response (some response.raw)
        ∷ [])
    pure response

  -- _cancel_conditional_order
  unfoldable pub cancel_conditional_order : Order → OrderStatus → Action CancelResult
  cancel_conditional_order o previous =
      if is_conditional_cancelable o
      then (do
        pending ← set_status o OrderStatus.pending_cancel true true []
        try_except (cancel_conditional pending) (on_conditional_cancel_error pending previous))
      else raise (cancel_order_skipped conditional_order_not_cancelable)

  abbrev pub cancel_by_route : Option OrderRoute → Order → Action CancelResult
  cancel_by_route (some regular) o = cancel_regular_order o
  cancel_by_route (some conditional) o = cancel_conditional_order o o.status
  cancel_by_route none o = raise runtime_error

  unfoldable pub cancel_loaded : Option Order → Action CancelResult
  cancel_loaded none = raise (cancel_order_skipped local_order_not_found)
  cancel_loaded (some o) =
      if is_terminal o.status
      then raise (cancel_order_skipped (terminal_cancel_skip_reason o.status))
      else cancel_by_route o.order_route o

  -- cancel_order
  unfoldable pub cancel_order : String → Action CancelResult
  cancel_order order_id = do found ← load_order order_id true; cancel_loaded found
