-- ===== src/Schema/Validate.antt =====
-- The validators of packages/schemas/src/schemas/order.py: `normalize_position_metadata_for_order`,
-- `validate_order_type_required_fields` and the two that pydantic runs after it has read an
-- OrderRequest or an Order. The parse of the fields themselves is pydantic's.
use crypto_derivative_algo_t.Prelude.{
  String, Bool, false, not, ◌&&◌, Option, none, some, ◌==◌, is_none, is_some, or_else, string_eq,
  if◌then◌else◌, upper, strip,
}
use crypto_derivative_algo_t.Schema.Enums.{
  MarketType, OrderType, OrderRoute, TimeInForce, PositionSide, PositionAction, spot, perp, futures,
  market, limit, stop_market, stop_limit, regular, conditional, order_route_eq, position_side_eq,
  position_action_eq,
}
use crypto_derivative_algo_t.Schema.Statuses.{infer_order_route}
use crypto_derivative_algo_t.Schema.Decimal.{decimal_eq}
use crypto_derivative_algo_t.Schema.Order.{Terms, Order, OrderRequest}
use crypto_derivative_algo_t.Failure.{Result, ok, value_error, ◌>>=◌, ◌>>◌, raise_if}

-- The action that a spot order carries after the first `if` of the spot branch.
abbrev spot_action : PositionAction → PositionAction
spot_action PositionAction.unknown = PositionAction.not_applicable
spot_action a = a

unfoldable pub normalize_position_metadata_for_order :
    MarketType → PositionSide → PositionAction → Result (PositionSide × PositionAction)
normalize_position_metadata_for_order spot side action = do
  raise_if (not (spot_action action == PositionAction.not_applicable)) value_error
  raise_if (not (side == PositionSide.both)) value_error
  ok (side, spot_action action)
normalize_position_metadata_for_order perp side action = do
  raise_if (action == PositionAction.not_applicable) value_error
  ok (side, action)
normalize_position_metadata_for_order futures side action = do
  raise_if (action == PositionAction.not_applicable) value_error
  ok (side, action)

-- The branch for each order type.
fields_of_type : OrderType → Option String → Option String → Option TimeInForce → Result (Unit {0})
fields_of_type market price trigger_price time_in_force = do
  raise_if (is_some price) value_error
  raise_if (is_some trigger_price) value_error
fields_of_type limit price trigger_price time_in_force = do
  raise_if (is_none price) value_error
  raise_if (is_some trigger_price) value_error
  raise_if (is_none time_in_force) value_error
fields_of_type stop_market price trigger_price time_in_force = do
  raise_if (is_none trigger_price) value_error
  raise_if (is_some price) value_error
fields_of_type stop_limit price trigger_price time_in_force = do
  raise_if (is_none trigger_price) value_error
  raise_if (is_none price) value_error
  raise_if (is_none time_in_force) value_error

unfoldable pub validate_order_type_required_fields :
    OrderType → Option String → Option String → Option TimeInForce → Bool → Bool → Result (Unit {0})
unfolding fields_of_type
validate_order_type_required_fields order_type price trigger_price time_in_force reduce_only
      close_position =
    do
      raise_if (reduce_only && close_position) value_error
      fields_of_type order_type price trigger_price time_in_force

-- The inferred route, or the given one if it is the same.
unfoldable pub check_order_route : OrderType → Option OrderRoute → Result (Option OrderRoute)
check_order_route order_type none = ok (some (infer_order_route order_type))
check_order_route order_type (some route) = do
  raise_if (not (route == infer_order_route order_type)) value_error
  ok (some route)

-- What the two validators share.
unfoldable pub normalize_terms : Terms → Result Terms
normalize_terms t = do
  route ← check_order_route t.order_type t.order_route
  metadata ← normalize_position_metadata_for_order t.market_type t.position_side t.position_action
  validate_order_type_required_fields t.order_type t.price t.trigger_price t.time_in_force
      t.reduce_only t.close_position
  ok (record t {
    symbol = upper (strip t.symbol);
    order_route = route;
    position_side = metadata.0;
    position_action = metadata.1;
  })

-- Whether both prices are given and their values differ.
unfoldable pub prices_differ : Option String → Option String → Bool
prices_differ (some trigger_price) (some stop_price) = not (decimal_eq trigger_price stop_price)
prices_differ _ _ = false

-- OrderRequest.normalize_request_after_validation
unfoldable pub normalize_request : OrderRequest → Result OrderRequest
normalize_request r = do
  raise_if (prices_differ r.trigger_price r.stop_price) value_error
  terms ← normalize_terms (record r.terms { trigger_price = or_else r.trigger_price r.stop_price })
  ok (record r { terms = terms })

-- `if not self.f: self.f = default`, where an empty text counts as missing.
unfoldable pub or_default : Option String → String → Option String
or_default none d = some d
or_default (some s) d = if s == "" then some d else some s

-- The id that `generate_order_id` gives if the order has none.
unfoldable pub given_or_fresh : String → String → String
given_or_fresh given fresh = if given == "" then fresh else given

unfoldable pub client_ids : Option OrderRoute → Order → Order
client_ids (some regular) o = record o {
  progress = record o.progress { client_order_id = or_default o.client_order_id o.order_id };
}
client_ids (some conditional) o = record o {
  progress = record o.progress {
    client_conditional_id = or_default o.client_conditional_id o.order_id;
  };
}
client_ids none o = o

-- Order.normalize_order_after_validation; an order without an id has the empty one.
unfoldable pub normalize_order : String → Order → Result Order
normalize_order fresh o = do
  terms ← normalize_terms o.terms
  ok (
      client_ids terms.order_route
        (record o { order_id = given_or_fresh o.order_id fresh; terms = terms }))
