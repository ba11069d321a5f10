-- ===== src/Binance/Router.antt =====
-- adapters/binance/binance_order_router.py and mapper/binance_order_type_mapper.py: the parameters of
-- the two requests that place an order. The adapter that sends them is not modelled.
use crypto_derivative_algo_t.Prelude.{
  String, Bool, true, false, not, ◌&&◌, Option, none, some, List, [], ◌∷◌, ◌++◌, ◌==◌, string_eq,
  if◌then◌else◌, text_or,
}
use crypto_derivative_algo_t.Schema.Enums.{
  OrderSide, OrderType, OrderRoute, TimeInForce, PositionSide, order_type_eq, order_route_eq,
  position_side_eq,
}
use crypto_derivative_algo_t.Schema.Order.{Order}
use crypto_derivative_algo_t.Failure.{Result, ok, err, value_error, raise_if, ◌>>=◌, ◌>>◌}

-- One entry of `params`.
pub record Param : Type 0 where
  pub name : String
  pub value : String

-- The `value` of an enumeration's member.
abbrev pub side_value : OrderSide → String
side_value OrderSide.buy = "BUY"
side_value OrderSide.sell = "SELL"

abbrev pub position_side_value : PositionSide → String
position_side_value PositionSide.both = "BOTH"
position_side_value PositionSide.long = "LONG"
position_side_value PositionSide.short = "SHORT"

abbrev pub time_in_force_value : TimeInForce → String
time_in_force_value TimeInForce.gtc = "GTC"
time_in_force_value TimeInForce.ioc = "IOC"
time_in_force_value TimeInForce.fok = "FOK"
time_in_force_value TimeInForce.gtx = "GTX"

-- map_binance_order_type
abbrev pub map_binance_order_type : OrderType → String
map_binance_order_type OrderType.market = "MARKET"
map_binance_order_type OrderType.limit = "LIMIT"
map_binance_order_type OrderType.stop_market = "STOP_MARKET"
map_binance_order_type OrderType.stop_limit = "STOP"

-- `if not value: raise ValueError`, and the value.
unfoldable pub required : Option String → Result String
required none = err value_error
required (some s) = if s == "" then err value_error else ok s

abbrev pub when : Bool → Param → List Param
when true p = p ∷ []
when false p = []

abbrev pub time_in_force_param : Option TimeInForce → List Param
time_in_force_param none = []
time_in_force_param (some t) = record { name = "timeInForce"; value = time_in_force_value t } ∷ []

-- The branch for a limit price, which both mappings have.
unfoldable pub limit_params : OrderType → OrderType → Order → Result (List Param)
limit_params limit_type order_type o =
    if order_type == limit_type
    then (do
      price ← required o.price
      ok (record { name = "price"; value = price } ∷ time_in_force_param o.time_in_force))
    else ok []

-- _map_regular_order_params
unfoldable pub map_regular_order_params : Order → Result (List Param)
map_regular_order_params o = do
  raise_if (not (o.order_type == OrderType.market) && not (o.order_type == OrderType.limit))
      value_error
  prices ← limit_params OrderType.limit o.order_type o
  ok (
      (record { name = "symbol"; value = o.symbol }
        ∷ record { name = "side"; value = side_value o.side }
        ∷ record { name = "type"; value = map_binance_order_type o.order_type }
        ∷ record { name = "quantity"; value = o.quantity }
        ∷ record { name = "newClientOrderId"; value = text_or o.client_order_id o.order_id }
        ∷ record { name = "positionSide"; value = position_side_value o.position_side }
        ∷ prices)
      ++ when (o.reduce_only && o.position_side == PositionSide.both)
          (record { name = "reduceOnly"; value = "true" }))

abbrev pub conditional_reduce_only : Order → List Param
conditional_reduce_only o =
    when (not o.close_position && o.reduce_only && o.position_side == PositionSide.both)
      (record { name = "reduceOnly"; value = "true" })

-- The entries, given the trigger price and those of the limit price.
unfoldable pub conditional_params : Order → String → List Param → List Param
conditional_params o trigger_price prices =
    (record { name = "algoType"; value = "CONDITIONAL" }
      ∷ record { name = "symbol"; value = o.symbol }
      ∷ record { name = "side"; value = side_value o.side }
      ∷ record { name = "positionSide"; value = position_side_value o.position_side }
      ∷ record { name = "type"; value = map_binance_order_type o.order_type }
      ∷ record { name = "triggerPrice"; value = trigger_price }
      ∷ record { name = "clientAlgoId"; value = text_or o.client_conditional_id o.order_id }
      ∷ (if o.close_position
          then record { name = "closePosition"; value = "true" }
          else record { name = "quantity"; value = o.quantity })
      ∷ prices)
    ++ conditional_reduce_only o

-- _map_conditional_order_params
unfoldable pub map_conditional_order_params : Order → Result (List Param)
map_conditional_order_params o = do
  raise_if
      (not (o.order_type == OrderType.stop_market) && not (o.order_type == OrderType.stop_limit))
      value_error
  trigger_price ← required o.trigger_price
  prices ← limit_params OrderType.stop_limit o.order_type o
  ok (conditional_params o trigger_price prices)

abbrev has_route : OrderRoute → Option OrderRoute → Bool
has_route r none = false
has_route r (some s) = s == r

-- place_regular_order, up to the call of the adapter with the parameters.
unfoldable pub regular_request : Order → Result (List Param)
regular_request o = do
  raise_if (not (has_route OrderRoute.regular o.order_route)) value_error
  map_regular_order_params o

-- place_conditional_order, likewise.
unfoldable pub conditional_request : Order → Result (List Param)
conditional_request o = do
  raise_if (not (has_route OrderRoute.conditional o.order_route)) value_error
  map_conditional_order_params o
