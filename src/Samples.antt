-- ===== src/Samples.antt =====
-- One order, one request, a client of an exchange and a store, for the examples.
use crypto_derivative_algo_t.Prelude.{
  true, string_eq, upper, strip, ==_iff, arith, String, ◌≡◌, refl,
}
use crypto_derivative_algo_t.Schema.Normal.{IsWellFormed, IsNormal, normalize_terms_iff}
use crypto_derivative_algo_t.Schema.Validate.{normalize_request, prices_differ}
use crypto_derivative_algo_t.Prelude.{ℕ, ◌+◌, String, false, none, some, [], ◌∷◌}
use crypto_derivative_algo_t.Schema.Enums
use crypto_derivative_algo_t.Schema.Enums.{
  Exchange, MarketType, OrderSide, OrderType, OrderRoute, TimeInForce, OrderSource, OrderStatus,
  ConditionalStatus, PositionSide, PositionAction,
}
use crypto_derivative_algo_t.Schema.Order.{Origin, Terms, Order, OrderRequest}
use crypto_derivative_algo_t.Failure.{
  Failure, ApiError, Result, ok, exchange_api_error, exchange_rejected,
}
use crypto_derivative_algo_t.Store.Tables.{order_row, intent_row}
use crypto_derivative_algo_t.Store.Redis.{Redis}
use crypto_derivative_algo_t.Store.Action.{Oracle, World, pure, raise}
use crypto_derivative_algo_t.Service.OrderState.{created_event}
use crypto_derivative_algo_t.Gateway.Client.{ExchangeClient}

abbrev pub terms : Terms
terms = record {
  exchange = Enums.binance;
  market_type = Enums.perp;
  symbol = "BTCUSDT";
  side = Enums.buy;
  order_type = Enums.limit;
  order_route = some Enums.regular;
  time_in_force = some Enums.gtc;
  position_side = PositionSide.both;
  position_action = PositionAction.unknown;
  quantity = "0.01";
  price = some "50000";
  trigger_price = none;
  reduce_only = false;
  close_position = false;
}

abbrev pub origin : Origin
origin = record { source = Enums.manual; signal_id = none; strategy_name = none }

abbrev pub request : OrderRequest
request = record { terms = terms; stop_price = none; leverage = none }

-- A stored order in a status and of a version.
abbrev pub order_at : OrderStatus → ℕ → Order
order_at status version = record {
  order_id = "A1";
  origin = origin;
  terms = terms;
  progress = record {
    status = status;
    client_order_id = some "A1";
    exchange_order_id = none;
    client_conditional_id = none;
    exchange_conditional_id = none;
    conditional_status = none;
    exchange_conditional_status = none;
    triggered_order_id = none;
    triggered_client_order_id = none;
    reject_reason = none;
    exchange_error_code = none;
    detail_msg = none;
    filled_quantity = "0";
    avg_fill_price = "0";
    submitted_ts = none;
    acknowledged_ts = none;
    triggered_ts = none;
    filled_ts = none;
    cancelled_ts = none;
    expired_ts = none;
    updated_ts = 7;
    raw_exchange_response = none;
  };
  created_ts = 7;
  version = version;
}

abbrev pub no_redis : Redis
no_redis = record {
  live = λ _. none;
  regular_open = λ _ _ _. false;
  conditional_open = λ _ _ _. false;
  unknown = λ _ _ _. none;
  recovery = λ _ _ _. none;
  by_symbol = λ _ _ _ _. false;
}

abbrev pub steady : Oracle
steady = record {
  clock = λ n. 100 + n;
  reads = 0;
  postgres_fails = λ _. false;
  postgres_calls = 0;
  redis_fails = λ _. false;
  redis_calls = 0;
  as_numeric = λ s. s;
  new_ids = λ _. "B2";
  ids = 0;
}

abbrev pub empty_world : World
empty_world = record {
  tables = record { intents = []; orders = []; outbox = [] };
  redis = no_redis;
  oracle = steady;
}

-- A store that holds one order, just created.
abbrev pub holding : Order → World
holding o = record empty_world {
  tables = record {
    intents = intent_row o ∷ [];
    orders = order_row (λ s. s) o ∷ [];
    outbox = created_event o ∷ [];
  };
}

abbrev pub refusal : ApiError
refusal = record { category = exchange_rejected; code = none; message = "no" }

-- It accepts regular orders and refuses everything else.
abbrev pub taker : ExchangeClient
taker = record {
  place_order = λ o. pure (record {
    client_order_id = "A1";
    exchange_order_id = some "X9";
    status = OrderStatus.acknowledged;
    raw = "raw";
  });
  place_conditional_order = λ o. raise (exchange_api_error refusal);
  place_batch_orders = λ orders. raise (exchange_api_error refusal);
  cancel_order = λ o. raise (exchange_api_error refusal);
  cancel_batch_orders = λ orders. raise (exchange_api_error refusal);
  cancel_all_regular_open_orders = λ symbol. raise (exchange_api_error refusal);
  cancel_all_conditional_open_orders = λ symbol. raise (exchange_api_error refusal);
  change_leverage = λ symbol leverage. pure tt;
  conditional_status_name = λ s. none;
  supports_batch_order = false;
  max_batch_order_size = 1;
  supports_batch_cancel = true;
  max_batch_cancel_size = 2;
}

abbrev pub always_taker : Exchange → MarketType → Result ExchangeClient
always_taker e m = ok taker

abbrev pub name_failure : Failure → String
name_failure e = "failure"

abbrev pub fresh : Order
fresh = order_at OrderStatus.pending_new 1

abbrev pub filled : Order
filled = order_at OrderStatus.filled 4

pub well_formed : IsWellFormed terms
unfolding upper strip
well_formed = record {
  normal_symbol = refl;
  routed = refl;
  one_closing_flag = refl;
  priced = refl;
  triggered = refl;
  timed = λ _. refl;
  spot_metadata = λ h. cc;
  derivative_metadata = λ h. λ e. cc;
}

pub normal : IsNormal fresh
normal = record {
  terms_well_formed = well_formed;
  identified = ground (arith, ==_iff {A = String} "A1" "");
  regular_id = λ h. ground (arith, ==_iff {A = String} "A1" "");
  conditional_id = λ h. cc;
}

pub request_accepted : normalize_request request ≡ ok request
unfolding normalize_request prices_differ
request_accepted = rw ((normalize_terms_iff terms).1 well_formed) refl

abbrev pub acked : Order
acked = order_at OrderStatus.acknowledged 3
