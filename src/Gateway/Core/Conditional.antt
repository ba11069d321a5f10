-- ===== src/Gateway/Core/Conditional.antt =====
-- gateway/core.py, for conditional orders.
use crypto_derivative_algo_t.Prelude.{
  String, true, Option, none, some, List, [], ◌∷◌, ◌++◌, or_else,
}
use crypto_derivative_algo_t.Schema.Enums.{Exchange, MarketType, ConditionalStatus}
use crypto_derivative_algo_t.Schema.Order.{Order}
use crypto_derivative_algo_t.Failure.{Failure, invalid_conditional_transition}
use crypto_derivative_algo_t.Store.Action.{Action, pure, raise, ◌>>=◌, try_except, epoch_ms}
use crypto_derivative_algo_t.Service.Lookups.{
  load_order_by_client_conditional_id, load_order_by_exchange_conditional_id,
}
use crypto_derivative_algo_t.Gateway.Transition.{
  Update, exchange_conditional_id, exchange_conditional_status, triggered_order_id,
  triggered_client_order_id, filled_quantity, avg_fill_price, detail_msg, raw_exchange_response,
  set_conditional_status,
}
use crypto_derivative_algo_t.Gateway.Core.{given_text, look_up, given, returned}

-- NormalizedConditionalOrderEvent
pub record ConditionalOrderEvent : Type 0 where
  pub exchange : Exchange
  pub market_type : MarketType
  pub client_conditional_id : Option String
  pub exchange_conditional_id : Option String
  pub target_status : ConditionalStatus
  pub exchange_conditional_status : Option String
  pub triggered_order_id : Option String
  pub triggered_client_order_id : Option String
  pub filled_quantity : Option String
  pub avg_fill_price : Option String
  pub reject_reason_text : Option String
  pub raw : String

-- ExchangeConditionalSnapshot
pub record ConditionalSnapshot : Type 0 where
  pub exchange : Exchange
  pub market_type : MarketType
  pub conditional_status : ConditionalStatus
  pub client_conditional_id : Option String
  pub exchange_conditional_id : Option String
  pub triggered_order_id : Option String
  pub triggered_client_order_id : Option String
  pub filled_quantity : Option String
  pub avg_fill_price : Option String
  pub raw_status : Option String
  pub raw : String

-- The two lookups of apply_conditional_order_event.
unfoldable pub resolve_conditional : ConditionalOrderEvent → Action (Option Order)
resolve_conditional e = do
  own ←
      look_up none (given_text e.client_conditional_id)
        (λ k. load_order_by_client_conditional_id e.exchange e.market_type k true)
  look_up own (given_text e.exchange_conditional_id)
      (λ k. load_order_by_exchange_conditional_id e.exchange e.market_type k true)

unfoldable pub conditional_fields : ConditionalOrderEvent → List Update
conditional_fields e =
    exchange_conditional_id e.exchange_conditional_id
    ∷ exchange_conditional_status e.exchange_conditional_status
    ∷ triggered_order_id e.triggered_order_id
    ∷ triggered_client_order_id e.triggered_client_order_id
    ∷ (given filled_quantity e.filled_quantity
        ++ given avg_fill_price e.avg_fill_price
        ++ detail_msg e.reject_reason_text ∷ raw_exchange_response (some e.raw) ∷ [])

-- A transition that the state machine refuses is logged, and the order is returned as it is.
unfoldable pub on_invalid_transition : Order → Failure → Action (Option Order)
on_invalid_transition o (invalid_conditional_transition current target) = pure (some o)
on_invalid_transition o e = raise e

unfoldable pub apply_conditional : ConditionalOrderEvent → Option Order → Action (Option Order)
apply_conditional e none = pure none
apply_conditional e (some o) =
    try_except
      (returned (set_conditional_status o e.target_status true true (conditional_fields e)))
      (on_invalid_transition o)

-- apply_conditional_order_event
unfoldable pub apply_conditional_order_event : ConditionalOrderEvent → Action (Option Order)
apply_conditional_order_event e = do found ← resolve_conditional e; apply_conditional e found

-- ConditionalStatus.value
unfoldable pub conditional_status_value : ConditionalStatus → String
conditional_status_value ConditionalStatus.new = "NEW"
conditional_status_value ConditionalStatus.active = "ACTIVE"
conditional_status_value ConditionalStatus.triggered = "TRIGGERED"
conditional_status_value ConditionalStatus.finished = "FINISHED"
conditional_status_value ConditionalStatus.cancelled = "CANCELLED"
conditional_status_value ConditionalStatus.expired = "EXPIRED"
conditional_status_value ConditionalStatus.rejected = "REJECTED"
conditional_status_value ConditionalStatus.unknown = "UNKNOWN"

unfoldable pub event_of_snapshot : ConditionalSnapshot → ConditionalOrderEvent
event_of_snapshot s = record {
  exchange = s.exchange;
  market_type = s.market_type;
  client_conditional_id = s.client_conditional_id;
  exchange_conditional_id = s.exchange_conditional_id;
  target_status = s.conditional_status;
  exchange_conditional_status =
      or_else (given_text s.raw_status) (some (conditional_status_value s.conditional_status));
  triggered_order_id = s.triggered_order_id;
  triggered_client_order_id = s.triggered_client_order_id;
  filled_quantity = s.filled_quantity;
  avg_fill_price = s.avg_fill_price;
  reject_reason_text = none;
  raw = s.raw;
}

-- apply_conditional_order_snapshot; the event's time is read, and then not used.
unfoldable pub apply_conditional_order_snapshot : ConditionalSnapshot → Action (Option Order)
apply_conditional_order_snapshot s = do
  event_time ← epoch_ms
  apply_conditional_order_event (event_of_snapshot s)
