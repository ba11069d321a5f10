-- ===== src/Gateway/Cancellation/All.antt =====
-- gateway/cancellation_service.py: the cancellation of all open orders of a symbol.
use crypto_derivative_algo_t.Prelude.{
  String, Bool, true, false, not, ◌&&◌, ◌||◌, Option, none, some, List, [], ◌∷◌, ◌++◌, ◌==◌,
  string_eq, if◌then◌else◌, upper,
}
use crypto_derivative_algo_t.Schema.Enums.{Exchange, MarketType, OrderStatus}
use crypto_derivative_algo_t.Schema.Statuses.{is_terminal}
use crypto_derivative_algo_t.Schema.Order.{Order}
use crypto_derivative_algo_t.Failure.{Result, ok, err}
use crypto_derivative_algo_t.Store.Action.{Action, pure, lift, ◌>>=◌, ◌>>◌, try_except}
use crypto_derivative_algo_t.Service.OrderState.{load_order}
use crypto_derivative_algo_t.Service.Lists.{list_open_orders_by_symbol}
use crypto_derivative_algo_t.Gateway.Transition.{set_status}
use crypto_derivative_algo_t.Gateway.Client.{ExchangeClient, CancelResult}
use crypto_derivative_algo_t.Gateway.Batch.{caught}
use crypto_derivative_algo_t.Gateway.Cancellation.{is_conditional_cancelable}
use crypto_derivative_algo_t.Gateway.Cancellation.Batch.{is_regular}
use crypto_derivative_algo_t.Gateway.Cancellation.Answers.{Previous}
use crypto_derivative_algo_t.Gateway.Cancellation.Chunks.{on_batch_cancel_error}

-- local_order_ids and previous_statuses
pub record Held : Type 0 where
  pub ids : List String
  pub previous : Previous

unfoldable pub hold_latest : (Order → Bool) → Option Order → Held → Action Held
hold_latest may_cancel none h = pure h
hold_latest may_cancel (some latest) h =
    if is_terminal latest.status || not (may_cancel latest) then pure h else (do
      set_status latest OrderStatus.pending_cancel true true []
      pure (record {
        ids = h.ids ++ latest.order_id ∷ [];
        previous = (latest.order_id, latest.status) ∷ h.previous;
      }))

unfoldable pub hold_one : (Order → Bool) → Order → Held → Action Held
hold_one may_cancel o h =
    if o.order_id == ""
    then pure h
    else (do latest ← load_order o.order_id true; hold_latest may_cancel latest h)

-- The loop that moves the local orders to PENDING_CANCEL.
unfoldable pub hold_all : (Order → Bool) → List Order → Held → Action Held
hold_all may_cancel [] h = pure h
hold_all may_cancel (o ∷ rest) h = do h' ← hold_one may_cancel o h; hold_all may_cancel rest h'

-- The report of `cancel_all_open_orders`: a part is its response, or the exception.
pub record AllCancelled : Type 0 where
  pub succeeded : Bool
  pub exchange : Exchange
  pub market_type : MarketType
  pub symbol : String
  pub regular : Result CancelResult
  pub conditional : Result CancelResult

abbrev pub is_ok : {A : Type 0} → Result A → Bool
is_ok (ok a) = true
is_ok (err e) = false

module _ (client_for_market : Exchange → MarketType → Result ExchangeClient) where
  unfoldable pub ask_client :
      (ExchangeClient → String → Action CancelResult)
      → Exchange
      → MarketType
      → String
      → Action CancelResult
  ask_client call exchange market_type symbol = do
    client ← lift (client_for_market exchange market_type)
    call client symbol

  -- The common text of the two methods below.
  unfoldable pub cancel_all_matching :
      (Order → Bool)
      → (ExchangeClient → String → Action CancelResult)
      → Exchange
      → MarketType
      → String
      → Action CancelResult
  cancel_all_matching may_cancel call exchange market_type symbol = do
    orders ← list_open_orders_by_symbol exchange market_type symbol true
    held ← hold_all may_cancel orders (record { ids = []; previous = [] })
    try_except (ask_client call exchange market_type symbol)
        (on_batch_cancel_error held.previous held.ids)

  unfoldable pub cancel_all_regular_open_orders :
      Exchange → MarketType → String → Action CancelResult
  cancel_all_regular_open_orders =
      cancel_all_matching (λ o. is_regular o.order_route)
        (λ client. client.cancel_all_regular_open_orders)

  unfoldable pub cancel_all_conditional_open_orders :
      Exchange → MarketType → String → Action CancelResult
  cancel_all_conditional_open_orders =
      cancel_all_matching is_conditional_cancelable
        (λ client. client.cancel_all_conditional_open_orders)

  -- Both parts are tried.
  unfoldable pub cancel_all_open_orders : Exchange → MarketType → String → Action AllCancelled
  cancel_all_open_orders exchange market_type symbol = do
    let name = upper symbol
    regular ← caught (cancel_all_regular_open_orders exchange market_type name)
    conditional ← caught (cancel_all_conditional_open_orders exchange market_type name)
    pure (record {
      succeeded = is_ok regular && is_ok conditional;
      exchange = exchange;
      market_type = market_type;
      symbol = name;
      regular = regular;
      conditional = conditional;
    })
