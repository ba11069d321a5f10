-- ===== src/Store/Redis.antt =====
-- packages/storage/src/storage/repositories/redis/order_state_repo.py: the live hashes, the indexes,
-- and the script `_UPSERT_PROJECTION_IF_NEWER_LUA`. A hash is kept as the order that its fields
-- spell; the keys are the exchange, the market type, the symbol and the order id.
use crypto_derivative_algo_t.Prelude.{
  ℕ, String, Bool, true, false, not, ◌&&◌, ◌||◌, Option, none, some, ◌==◌, string_eq, leb, or_else,
  if◌then◌else◌, upper, is_none,
}
use crypto_derivative_algo_t.Schema.Enums.{
  Exchange, MarketType, OrderRoute, ConditionalStatus, regular, conditional, exchange_eq,
  market_type_eq,
}
use crypto_derivative_algo_t.Schema.Statuses.{
  is_terminal, is_recovery, is_unknown, is_conditional_trackable,
}
use crypto_derivative_algo_t.Schema.Order.{Order, Origin, Terms, Progress}

-- A set under each key of an exchange and a market type, and a sorted set.
abbrev pub Sets : Type 0
Sets = Exchange → MarketType → String → Bool

abbrev pub Scores : Type 0
Scores = Exchange → MarketType → String → Option ℕ

pub record Live : Type 0 where
  pub order : Order
  pub expires : Bool

pub record Redis : Type 0 where
  pub live : String → Option Live
  pub regular_open : Sets
  pub conditional_open : Sets
  pub unknown : Scores
  pub recovery : Scores
  pub by_symbol : String → Sets

abbrev pub same_member : Exchange → MarketType → String → Exchange → MarketType → String → Bool
same_member e m i e' m' i' = e == e' && m == m' && i == i'

-- SADD, SREM, ZADD and ZREM of one member under one key.
unfoldable pub put_member : Exchange → MarketType → String → Bool → Sets → Sets
put_member e m i b s e' m' i' = if same_member e m i e' m' i' then b else s e' m' i'

unfoldable pub put_score : Exchange → MarketType → String → Option ℕ → Scores → Scores
put_score e m i b s e' m' i' = if same_member e m i e' m' i' then b else s e' m' i'

abbrev pub sadd : Exchange → MarketType → String → Bool → Sets → Sets
sadd e m i b s = if b then put_member e m i true s else s

abbrev pub zadd : Exchange → MarketType → String → Bool → ℕ → Scores → Scores
zadd e m i b score s = if b then put_score e m i (some score) s else s

-- HSET: a field that is None is not written, so the value that the hash has stays. The conditional
-- status is always written.
unfoldable pub merge_progress : Progress → Progress → Progress
merge_progress new old = record {
  status = new.status;
  client_order_id = or_else new.client_order_id old.client_order_id;
  exchange_order_id = or_else new.exchange_order_id old.exchange_order_id;
  client_conditional_id = or_else new.client_conditional_id old.client_conditional_id;
  exchange_conditional_id = or_else new.exchange_conditional_id old.exchange_conditional_id;
  conditional_status = new.conditional_status;
  exchange_conditional_status =
      or_else new.exchange_conditional_status old.exchange_conditional_status;
  triggered_order_id = or_else new.triggered_order_id old.triggered_order_id;
  triggered_client_order_id = or_else new.triggered_client_order_id old.triggered_client_order_id;
  reject_reason = or_else new.reject_reason old.reject_reason;
  exchange_error_code = or_else new.exchange_error_code old.exchange_error_code;
  detail_msg = or_else new.detail_msg old.detail_msg;
  filled_quantity = new.filled_quantity;
  avg_fill_price = new.avg_fill_price;
  submitted_ts = or_else new.submitted_ts old.submitted_ts;
  acknowledged_ts = or_else new.acknowledged_ts old.acknowledged_ts;
  triggered_ts = or_else new.triggered_ts old.triggered_ts;
  filled_ts = or_else new.filled_ts old.filled_ts;
  cancelled_ts = or_else new.cancelled_ts old.cancelled_ts;
  expired_ts = or_else new.expired_ts old.expired_ts;
  updated_ts = new.updated_ts;
  raw_exchange_response = or_else new.raw_exchange_response old.raw_exchange_response;
}

merge_origin : Origin → Origin → Origin
merge_origin new old = record new {
  signal_id = or_else new.signal_id old.signal_id;
  strategy_name = or_else new.strategy_name old.strategy_name;
}

merge_terms : Terms → Terms → Terms
merge_terms new old = record new {
  time_in_force = or_else new.time_in_force old.time_in_force;
  price = or_else new.price old.price;
  trigger_price = or_else new.trigger_price old.trigger_price;
}

unfoldable pub merge_hash : Order → Option Live → Order
unfolding merge_progress merge_origin merge_terms
merge_hash new none = new
merge_hash new (some old) = record new {
  origin = merge_origin new.origin old.order.origin;
  terms = merge_terms new.terms old.order.terms;
  progress = merge_progress new.progress old.order.progress;
}

-- The version in the hash, if there is a hash, is not below the incoming one.
unfoldable pub is_stale : ℕ → Option Live → Bool
is_stale incoming none = false
is_stale incoming (some old) = leb incoming old.order.version

abbrev pub is_route : OrderRoute → Option OrderRoute → Bool
is_route regular (some regular) = true
is_route conditional (some conditional) = true
is_route _ _ = false

-- The local variables of the script.
abbrev pub is_regular_open : Order → Bool
is_regular_open o = is_route regular o.order_route && not (is_terminal o.status)

abbrev pub is_conditional_open : Order → Bool
is_conditional_open o =
    is_route conditional o.order_route
    && not (is_terminal o.status)
    && is_conditional_trackable o.conditional_status

abbrev pub needs_recovery : Order → Bool
needs_recovery o = is_recovery o.status || is_conditional_open o

abbrev pub is_unknown_conditional : Option ConditionalStatus → Bool
is_unknown_conditional (some ConditionalStatus.unknown) = true
is_unknown_conditional (some _) = false
is_unknown_conditional none = false

abbrev pub is_unresolved : Order → Bool
is_unresolved o = is_unknown o.status || is_unknown_conditional o.conditional_status

set_live : String → Live → (String → Option Live) → String → Option Live
set_live k v live j = if k == j then some v else live j

set_symbol : String → Sets → (String → Sets) → String → Sets
set_symbol k v sets j = if k == j then v else sets j

-- The script from `HSET` on.
unfoldable pub write_projection : Order → Redis → Redis
unfolding set_live set_symbol
write_projection o r = record {
  live =
      set_live o.order_id
        (record { order = merge_hash o (r.live o.order_id); expires = is_terminal o.status })
        r.live;
  regular_open = sadd e m i (is_regular_open o) (put_member e m i false r.regular_open);
  conditional_open = sadd e m i (is_conditional_open o) (put_member e m i false r.conditional_open);
  unknown = zadd e m i (is_unresolved o) o.updated_ts (put_score e m i none r.unknown);
  recovery = zadd e m i (needs_recovery o) o.updated_ts (put_score e m i none r.recovery);
  by_symbol =
      set_symbol (upper o.symbol)
        (sadd e m i (not (is_terminal o.status))
          (put_member e m i false (r.by_symbol (upper o.symbol))))
        r.by_symbol;
}
  where
    e : Exchange
    e = o.exchange

    m : MarketType
    m = o.market_type

    i : String
    i = o.order_id

-- upsert_projection_if_newer, once the projection is made: whether it was applied, and the result.
unfoldable pub upsert_projection_if_newer : Order → Redis → Bool × Redis
upsert_projection_if_newer o r =
    if is_stale o.version (r.live o.order_id) then (false, r) else (true, write_projection o r)

-- OrderRedisProjection.from_order raises if a required field is None or empty.
unfoldable pub is_projectable : Order → Bool
is_projectable o =
    not (o.order_id == "") && not (upper o.symbol == "") && not (is_none o.order_route)

-- _deserialize_hash: an empty text is read as None.
abbrev pub blank : Option String → Option String
blank none = none
blank (some s) = if s == "" then none else some s

unfoldable pub read_hash : Order → Order
read_hash o = record o {
  origin = record o.origin { signal_id = blank o.signal_id; strategy_name = blank o.strategy_name };
  progress = record o.progress {
    client_order_id = blank o.client_order_id;
    exchange_order_id = blank o.exchange_order_id;
    client_conditional_id = blank o.client_conditional_id;
    exchange_conditional_id = blank o.exchange_conditional_id;
    exchange_conditional_status = blank o.exchange_conditional_status;
    triggered_order_id = blank o.triggered_order_id;
    triggered_client_order_id = blank o.triggered_client_order_id;
    detail_msg = blank o.detail_msg;
    raw_exchange_response = blank o.raw_exchange_response;
  };
}
