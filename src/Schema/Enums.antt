-- ===== src/Schema/Enums.antt =====
-- The enumerations of packages/schemas/src/schemas/order.py, market.py and position.py. Each has an
-- instance of `Eq`, which compares the places of the two members in the class.
use crypto_derivative_algo_t.Prelude.{ℕ, ◌≡◌, ◌↔◌, true, arith, Eq, eqb}

pub data Exchange : Type 0 where
  binance bybit okx bitget gate mexc kucoin htx kraken : Exchange

abbrev exchange_rank : Exchange → ℕ
exchange_rank Exchange.binance = 0
exchange_rank Exchange.bybit = 1
exchange_rank Exchange.okx = 2
exchange_rank Exchange.bitget = 3
exchange_rank Exchange.gate = 4
exchange_rank Exchange.mexc = 5
exchange_rank Exchange.kucoin = 6
exchange_rank Exchange.htx = 7
exchange_rank Exchange.kraken = 8

pub exchange_iff : (a b : Exchange) → (eqb (exchange_rank a) (exchange_rank b) ≡ true) ↔ (a ≡ b)
exchange_iff a b = ground arith

instance abbrev pub exchange_eq : Eq Exchange
exchange_eq = record {
  is_same = λ a b. eqb (exchange_rank a) (exchange_rank b);
  same_iff = exchange_iff;
}

pub data MarketType : Type 0 where
  spot perp futures : MarketType

abbrev market_type_rank : MarketType → ℕ
market_type_rank MarketType.spot = 0
market_type_rank MarketType.perp = 1
market_type_rank MarketType.futures = 2

pub market_type_iff :
    (a b : MarketType) → (eqb (market_type_rank a) (market_type_rank b) ≡ true) ↔ (a ≡ b)
market_type_iff a b = ground arith

instance abbrev pub market_type_eq : Eq MarketType
market_type_eq = record {
  is_same = λ a b. eqb (market_type_rank a) (market_type_rank b);
  same_iff = market_type_iff;
}

pub data OrderSide : Type 0 where
  buy sell : OrderSide

pub data OrderType : Type 0 where
  market limit stop_market stop_limit : OrderType

abbrev order_type_rank : OrderType → ℕ
order_type_rank OrderType.market = 0
order_type_rank OrderType.limit = 1
order_type_rank OrderType.stop_market = 2
order_type_rank OrderType.stop_limit = 3

pub order_type_iff :
    (a b : OrderType) → (eqb (order_type_rank a) (order_type_rank b) ≡ true) ↔ (a ≡ b)
order_type_iff a b = ground arith

instance abbrev pub order_type_eq : Eq OrderType
order_type_eq = record {
  is_same = λ a b. eqb (order_type_rank a) (order_type_rank b);
  same_iff = order_type_iff;
}

pub data OrderRoute : Type 0 where
  regular conditional : OrderRoute

abbrev order_route_rank : OrderRoute → ℕ
order_route_rank OrderRoute.regular = 0
order_route_rank OrderRoute.conditional = 1

pub order_route_iff :
    (a b : OrderRoute) → (eqb (order_route_rank a) (order_route_rank b) ≡ true) ↔ (a ≡ b)
order_route_iff a b = ground arith

instance abbrev pub order_route_eq : Eq OrderRoute
order_route_eq = record {
  is_same = λ a b. eqb (order_route_rank a) (order_route_rank b);
  same_iff = order_route_iff;
}

pub data TimeInForce : Type 0 where
  gtc ioc fok gtx : TimeInForce

pub data OrderSource : Type 0 where
  manual signal_approved strategy system recovery : OrderSource

pub data OrderStatus : Type 0 where
  pending_new submitted acknowledged partially_filled filled pending_cancel cancelled rejected
        expired unknown reconcile_unresolved :
      OrderStatus

abbrev order_status_rank : OrderStatus → ℕ
order_status_rank OrderStatus.pending_new = 0
order_status_rank OrderStatus.submitted = 1
order_status_rank OrderStatus.acknowledged = 2
order_status_rank OrderStatus.partially_filled = 3
order_status_rank OrderStatus.filled = 4
order_status_rank OrderStatus.pending_cancel = 5
order_status_rank OrderStatus.cancelled = 6
order_status_rank OrderStatus.rejected = 7
order_status_rank OrderStatus.expired = 8
order_status_rank OrderStatus.unknown = 9
order_status_rank OrderStatus.reconcile_unresolved = 10

pub order_status_iff :
    (a b : OrderStatus) → (eqb (order_status_rank a) (order_status_rank b) ≡ true) ↔ (a ≡ b)
order_status_iff a b = ground arith

instance abbrev pub order_status_eq : Eq OrderStatus
order_status_eq = record {
  is_same = λ a b. eqb (order_status_rank a) (order_status_rank b);
  same_iff = order_status_iff;
}

pub data ConditionalStatus : Type 0 where
  new active triggered finished cancelled expired rejected unknown : ConditionalStatus

abbrev conditional_status_rank : ConditionalStatus → ℕ
conditional_status_rank ConditionalStatus.new = 0
conditional_status_rank ConditionalStatus.active = 1
conditional_status_rank ConditionalStatus.triggered = 2
conditional_status_rank ConditionalStatus.finished = 3
conditional_status_rank ConditionalStatus.cancelled = 4
conditional_status_rank ConditionalStatus.expired = 5
conditional_status_rank ConditionalStatus.rejected = 6
conditional_status_rank ConditionalStatus.unknown = 7

pub conditional_status_iff :
    (a b : ConditionalStatus)
    → (eqb (conditional_status_rank a) (conditional_status_rank b) ≡ true) ↔ (a ≡ b)
conditional_status_iff a b = ground arith

instance abbrev pub conditional_status_eq : Eq ConditionalStatus
conditional_status_eq = record {
  is_same = λ a b. eqb (conditional_status_rank a) (conditional_status_rank b);
  same_iff = conditional_status_iff;
}

pub data PositionSide : Type 0 where
  both long short : PositionSide

abbrev position_side_rank : PositionSide → ℕ
position_side_rank PositionSide.both = 0
position_side_rank PositionSide.long = 1
position_side_rank PositionSide.short = 2

pub position_side_iff :
    (a b : PositionSide) → (eqb (position_side_rank a) (position_side_rank b) ≡ true) ↔ (a ≡ b)
position_side_iff a b = ground arith

instance abbrev pub position_side_eq : Eq PositionSide
position_side_eq = record {
  is_same = λ a b. eqb (position_side_rank a) (position_side_rank b);
  same_iff = position_side_iff;
}

pub data PositionAction : Type 0 where
  opening increase reduce close flip unknown not_applicable : PositionAction

abbrev position_action_rank : PositionAction → ℕ
position_action_rank PositionAction.opening = 0
position_action_rank PositionAction.increase = 1
position_action_rank PositionAction.reduce = 2
position_action_rank PositionAction.close = 3
position_action_rank PositionAction.flip = 4
position_action_rank PositionAction.unknown = 5
position_action_rank PositionAction.not_applicable = 6

pub position_action_iff :
    (a b : PositionAction)
    → (eqb (position_action_rank a) (position_action_rank b) ≡ true) ↔ (a ≡ b)
position_action_iff a b = ground arith

instance abbrev pub position_action_eq : Eq PositionAction
position_action_eq = record {
  is_same = λ a b. eqb (position_action_rank a) (position_action_rank b);
  same_iff = position_action_iff;
}

pub data RejectReason : Type 0 where
  duplicate risk_limit_exceeded insufficient_balance invalid_symbol exchange_rejected rate_limited
        internal_error unknown_execution :
      RejectReason

abbrev reject_reason_rank : RejectReason → ℕ
reject_reason_rank RejectReason.duplicate = 0
reject_reason_rank RejectReason.risk_limit_exceeded = 1
reject_reason_rank RejectReason.insufficient_balance = 2
reject_reason_rank RejectReason.invalid_symbol = 3
reject_reason_rank RejectReason.exchange_rejected = 4
reject_reason_rank RejectReason.rate_limited = 5
reject_reason_rank RejectReason.internal_error = 6
reject_reason_rank RejectReason.unknown_execution = 7

pub reject_reason_iff :
    (a b : RejectReason) → (eqb (reject_reason_rank a) (reject_reason_rank b) ≡ true) ↔ (a ≡ b)
reject_reason_iff a b = ground arith

instance abbrev pub reject_reason_eq : Eq RejectReason
reject_reason_eq = record {
  is_same = λ a b. eqb (reject_reason_rank a) (reject_reason_rank b);
  same_iff = reject_reason_iff;
}
