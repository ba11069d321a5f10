-- ===== src/Schema/Statuses.antt =====
-- The sets of statuses of packages/schemas/src/schemas/order.py, as tests.
use crypto_derivative_algo_t.Prelude.{Bool, true, false, Option, none, some}
use crypto_derivative_algo_t.Schema.Enums.{
  OrderStatus, ConditionalStatus, OrderType, OrderRoute, regular, conditional,
}

-- TERMINAL_STATUSES
abbrev pub is_terminal : OrderStatus → Bool
is_terminal OrderStatus.filled = true
is_terminal OrderStatus.cancelled = true
is_terminal OrderStatus.rejected = true
is_terminal OrderStatus.expired = true
is_terminal OrderStatus.reconcile_unresolved = true
is_terminal _ = false

-- REGULAR_OPEN_STATUSES
abbrev pub is_regular_open : OrderStatus → Bool
is_regular_open OrderStatus.pending_new = true
is_regular_open OrderStatus.submitted = true
is_regular_open OrderStatus.acknowledged = true
is_regular_open OrderStatus.partially_filled = true
is_regular_open OrderStatus.pending_cancel = true
is_regular_open OrderStatus.unknown = true
is_regular_open _ = false

-- CONDITIONAL_TRACKABLE_STATUSES; `none` stands for None and for the empty text.
abbrev pub is_conditional_trackable : Option ConditionalStatus → Bool
is_conditional_trackable none = true
is_conditional_trackable (some ConditionalStatus.new) = true
is_conditional_trackable (some ConditionalStatus.active) = true
is_conditional_trackable (some ConditionalStatus.unknown) = true
is_conditional_trackable (some _) = false

-- RECOVERY_STATUSES
abbrev pub is_recovery : OrderStatus → Bool
is_recovery OrderStatus.submitted = true
is_recovery OrderStatus.pending_cancel = true
is_recovery OrderStatus.unknown = true
is_recovery _ = false

-- UNKNOWN_STATUSES
abbrev pub is_unknown : OrderStatus → Bool
is_unknown OrderStatus.unknown = true
is_unknown _ = false

-- _CONDITIONAL_ORDER_TYPES
abbrev pub is_conditional_type : OrderType → Bool
is_conditional_type OrderType.stop_market = true
is_conditional_type OrderType.stop_limit = true
is_conditional_type _ = false

-- CONDITIONAL_TERMINAL_STATUSES; None is no member.
abbrev pub is_conditional_terminal : Option ConditionalStatus → Bool
is_conditional_terminal (some ConditionalStatus.finished) = true
is_conditional_terminal (some ConditionalStatus.cancelled) = true
is_conditional_terminal (some ConditionalStatus.expired) = true
is_conditional_terminal (some ConditionalStatus.rejected) = true
is_conditional_terminal (some _) = false
is_conditional_terminal none = false

abbrev pub infer_order_route : OrderType → OrderRoute
infer_order_route OrderType.stop_market = conditional
infer_order_route OrderType.stop_limit = conditional
infer_order_route OrderType.market = regular
infer_order_route OrderType.limit = regular
