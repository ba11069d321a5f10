-- ===== src/Schema/Order.antt =====
-- `class Order` and `class OrderRequest` of packages/schemas/src/schemas/order.py. The fields of an
-- order stand in three groups, one for each way in which the storage treats them: `Origin` is kept
-- by order_intents alone, `Terms` is written once, `Progress` is what a transition rewrites (the
-- TRANSITION_UPDATE_COLUMNS of order_table.py). Decimal texts and raw responses are texts; times
-- are milliseconds.
use crypto_derivative_algo_t.Prelude.{ℕ, String, Bool, Option}
use crypto_derivative_algo_t.Schema.Enums.{
  Exchange, MarketType, OrderSide, OrderType, OrderRoute, TimeInForce, OrderSource, OrderStatus,
  ConditionalStatus, PositionSide, PositionAction, RejectReason,
}
use crypto_derivative_algo_t.Failure.{ErrorCode}

pub record Origin : Type 0 where
  pub source : OrderSource
  pub signal_id : Option String
  pub strategy_name : Option String

pub record Terms : Type 0 where
  pub exchange : Exchange
  pub market_type : MarketType
  pub symbol : String
  pub side : OrderSide
  pub order_type : OrderType
  pub order_route : Option OrderRoute
  pub time_in_force : Option TimeInForce
  pub position_side : PositionSide
  pub position_action : PositionAction
  pub quantity : String
  pub price : Option String
  pub trigger_price : Option String
  pub reduce_only : Bool
  pub close_position : Bool

pub record Progress : Type 0 where
  pub status : OrderStatus
  pub client_order_id : Option String
  pub exchange_order_id : Option String
  pub client_conditional_id : Option String
  pub exchange_conditional_id : Option String
  pub conditional_status : Option ConditionalStatus
  pub exchange_conditional_status : Option String
  pub triggered_order_id : Option String
  pub triggered_client_order_id : Option String
  pub reject_reason : Option RejectReason
  pub exchange_error_code : Option ErrorCode
  pub detail_msg : Option String
  pub filled_quantity : String
  pub avg_fill_price : String
  pub submitted_ts : Option ℕ
  pub acknowledged_ts : Option ℕ
  pub triggered_ts : Option ℕ
  pub filled_ts : Option ℕ
  pub cancelled_ts : Option ℕ
  pub expired_ts : Option ℕ
  pub updated_ts : ℕ
  pub raw_exchange_response : Option String

pub record Order : Type 0 where
  pub order_id : String
  pub origin : Origin
  pub open origin use *
  pub terms : Terms
  pub open terms use *
  pub progress : Progress
  pub open progress use *
  pub created_ts : ℕ
  pub version : ℕ

-- OrderRequest: the deprecated stop price stands beside the trigger price of the terms.
pub record OrderRequest : Type 0 where
  pub terms : Terms
  pub open terms use *
  pub stop_price : Option String
  pub leverage : Option ℕ

-- ORDER_VERSION_INITIAL
abbrev pub order_version_initial : ℕ
order_version_initial = 1
