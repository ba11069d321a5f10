-- ===== src/Gateway/Client.antt =====
-- The interface of apps/execution_gateway/src/execution_gateway/exchange that the services call
-- (client.py, types.py, gateway/errors.py). A client is any implementation: its answers, its
-- exceptions, and what other tasks do to the store while it is awaited, are in its actions.
use crypto_derivative_algo_t.Prelude.{ℕ, String, Bool, Option, List}
use crypto_derivative_algo_t.Schema.Enums.{OrderStatus, ConditionalStatus, RejectReason}
use crypto_derivative_algo_t.Schema.Order.{Order}
use crypto_derivative_algo_t.Failure.{
  ErrorCategory, ErrorCode, rate_limited, ip_banned, waf_blocked, insufficient_balance,
  invalid_symbol, invalid_parameter, unknown_execution, system_throttle,
}
use crypto_derivative_algo_t.Store.Action.{Action}

-- ExchangeOrderAck, in the fields that are read.
pub record OrderAck : Type 0 where
  pub client_order_id : String
  pub exchange_order_id : Option String
  pub status : OrderStatus
  pub raw : String

-- ExchangeConditionalAck
pub record ConditionalAck : Type 0 where
  pub client_conditional_id : String
  pub exchange_conditional_id : Option String
  pub conditional_status : ConditionalStatus
  pub raw : String

pub data Ack : Type 0 where
  regular_ack : OrderAck → Ack
  conditional_ack : ConditionalAck → Ack

-- ExchangeOrderReject
pub record OrderReject : Type 0 where
  pub client_order_id : String
  pub reject_reason : RejectReason
  pub message : Option String
  pub code : Option ErrorCode

-- ExchangeBatchOrderResult
pub data BatchItem : Type 0 where
  accepted : OrderAck → BatchItem
  refused : OrderReject → BatchItem

-- ExchangeCancelResult
pub record CancelResult : Type 0 where
  pub raw_status : Option String
  pub raw : String

-- An answer of the exchange to one cancellation of a batch: `code` and `message` are what the raw
-- response has under `code` and `msg`, if it is a dictionary.
pub record CancelItem : Type 0 where
  pub client_order_id : Option String
  pub exchange_order_id : Option String
  pub unknown_execution : Bool
  pub code : Option ErrorCode
  pub message : Option String
  pub raw : String

-- ExchangeExecutionClient
pub record ExchangeClient : Type 0 where
  pub place_order : Order → Action OrderAck
  pub place_conditional_order : Order → Action ConditionalAck
  pub place_batch_orders : List Order → Action (List BatchItem)
  pub cancel_order : Order → Action CancelResult
  pub cancel_batch_orders : List Order → Action (List CancelItem)
  pub cancel_all_regular_open_orders : String → Action CancelResult
  pub cancel_all_conditional_open_orders : String → Action CancelResult
  pub change_leverage : String → ℕ → Action (Unit {0})
  pub conditional_status_name : ConditionalStatus → Option String
  pub supports_batch_order : Bool
  pub max_batch_order_size : ℕ
  pub supports_batch_cancel : Bool
  pub max_batch_cancel_size : ℕ

-- _map_exchange_error_to_reason
unfoldable pub map_exchange_error_to_reason : ErrorCategory → RejectReason
map_exchange_error_to_reason unknown_execution = RejectReason.unknown_execution
map_exchange_error_to_reason rate_limited = RejectReason.rate_limited
map_exchange_error_to_reason ip_banned = RejectReason.rate_limited
map_exchange_error_to_reason waf_blocked = RejectReason.rate_limited
map_exchange_error_to_reason system_throttle = RejectReason.rate_limited
map_exchange_error_to_reason insufficient_balance = RejectReason.insufficient_balance
map_exchange_error_to_reason invalid_symbol = RejectReason.invalid_symbol
map_exchange_error_to_reason invalid_parameter = RejectReason.invalid_symbol
map_exchange_error_to_reason _ = RejectReason.exchange_rejected
