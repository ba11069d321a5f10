-- ===== src/Witnesses/Core.antt =====
-- Properties of the events and of reconciliation, at concrete inputs.
use crypto_derivative_algo_t.Prelude.{◌≡◌, refl, none, some, [], ◌∷◌, map, string_eq, arith}
use crypto_derivative_algo_t.Schema.Enums
use crypto_derivative_algo_t.Schema.Enums.{
  Exchange, MarketType, OrderStatus, ConditionalStatus, PositionSide, PositionAction,
}
use crypto_derivative_algo_t.Schema.Order.{Order}
use crypto_derivative_algo_t.Failure.{ok}
use crypto_derivative_algo_t.Store.Tables.{find_order, order_row}
use crypto_derivative_algo_t.Service.Keeps.{Keeps}
use crypto_derivative_algo_t.Service.Agreement.{IsConsistent}
use crypto_derivative_algo_t.Gateway.Transition.{candidate_progress, set_status}
use crypto_derivative_algo_t.Gateway.Core.{
  OrderUpdateEvent, OrderSnapshot, apply_target, update_fields,
}
use crypto_derivative_algo_t.Gateway.Core.Moves.{status_of}
use crypto_derivative_algo_t.Gateway.Core.Inputs.{
  order_update, order_snapshot, unresolved, apply_input, apply_inputs, apply_input-IsConsistent,
}
use crypto_derivative_algo_t.Gateway.Core.Streams.{Walk, updates_follow_machine, ended_orders_stay}
use crypto_derivative_algo_t.Gateway.Core.Fills.{IsFilledBy, older_fill_overwrites}
use crypto_derivative_algo_t.Samples.{order_at, holding}
use crypto_derivative_algo_t.Prelude.{upper, strip}
use crypto_derivative_algo_t.Schema.Validate.{
  given_or_fresh, client_ids, check_order_route, normalize_position_metadata_for_order,
  validate_order_type_required_fields, or_default, normalize_terms, normalize_order,
}
use crypto_derivative_algo_t.StateMachine.OrderStatus.{assert_can_transition, can_transition}
use crypto_derivative_algo_t.Store.Tables.{find_intent, update_order, joined}
use crypto_derivative_algo_t.Store.Redis.{
  is_projectable, upsert_projection_if_newer, is_stale, write_projection, merge_hash,
  merge_progress, read_hash,
}
use crypto_derivative_algo_t.Store.Action.{
  World, pure, lift, ◌>>=◌, try_except, ignore_errors, statement, redis_call, set_redis, epoch_ms,
}
use crypto_derivative_algo_t.Service.Repository.{
  find_joined, get, get_joined_order, read_live, model_validate, save,
}
use crypto_derivative_algo_t.Service.OrderState.{
  from_projection, load_order_from_postgres, from_row, refresh_order_projection, load_order,
  transition_rows, transition_order,
}
use crypto_derivative_algo_t.Gateway.Transition.{apply_status, set_fields, set_field, stamp_filled}
use crypto_derivative_algo_t.Gateway.Core.{
  apply_order_update_event, resolve_order, look_up, given_text,
}

abbrev part : OrderUpdateEvent
part = record {
  exchange = Enums.binance;
  market_type = Enums.perp;
  client_order_id = "A1";
  exchange_order_id = some "X9";
  target_status = some OrderStatus.partially_filled;
  filled_quantity = some "0.004";
  avg_fill_price = none;
  reject_reason_text = none;
}

abbrev whole : OrderUpdateEvent
whole = record part { target_status = some OrderStatus.filled; filled_quantity = some "0.01" }

abbrev expiry : OrderSnapshot
expiry = record {
  status = OrderStatus.expired;
  exchange_order_id = none;
  filled_quantity = "0";
  avg_fill_price = "0";
  raw = "raw";
}

-- A store that holds one order of version 1 agrees.
holding-IsConsistent : (status : OrderStatus) → IsConsistent (holding (order_at status 1))
unfolding find_order
holding-IsConsistent status = record {
  events_match = λ k. ground arith;
  projection_behind = λ k. ground arith;
  copies_agree = record { keyed = λ k l e. cc; same_status = λ k l r e f v. cc };
}

updates_follow_machine_example :
    (new : OrderStatus) × (status_of "A1"
        (apply_inputs
          (map order_update (part ∷ whole ∷ part ∷ []))
          (holding (order_at OrderStatus.submitted 1))).tables
      ≡ some new)
    × Walk OrderStatus.submitted new
unfolding find_order
updates_follow_machine_example =
    updates_follow_machine (part ∷ whole ∷ part ∷ []) (holding (order_at OrderStatus.submitted 1))
      "A1" OrderStatus.submitted (holding-IsConsistent OrderStatus.submitted) refl

ended_orders_stay_example :
    status_of "A1"
      (apply_inputs
        (order_update part ∷ order_snapshot "A1" expiry ∷ unresolved "A1" none none none ∷ [])
        (holding (order_at OrderStatus.filled 1))).tables
    ≡ some OrderStatus.filled
unfolding find_order
ended_orders_stay_example =
    ended_orders_stay OrderStatus.filled refl
      (order_update part ∷ order_snapshot "A1" expiry ∷ unresolved "A1" none none none ∷ [])
      (holding (order_at OrderStatus.filled 1)) "A1" (holding-IsConsistent OrderStatus.filled) refl

apply_input-IsConsistent_example : Keeps IsConsistent (apply_input (order_snapshot "A1" expiry))
apply_input-IsConsistent_example = apply_input-IsConsistent (order_snapshot "A1" expiry)

abbrev later : Order
later = record (order_at OrderStatus.partially_filled 4) {
  progress = record (order_at OrderStatus.partially_filled 4).progress {
    filled_quantity = "0.007";
  };
}

abbrev taken_back : World
taken_back = (apply_target part later (some OrderStatus.partially_filled) (holding later)).1

abbrev taken_order : Order
taken_order = record later {
  progress = record later.progress {
    exchange_order_id = some "X9";
    filled_quantity = "0.004";
    updated_ts = 100;
  };
}

part_returns :
    (apply_target part later (some OrderStatus.partially_filled) (holding later)).0
    ≡ ok (some (record taken_order { version = 5 }))
unfolding apply_target update_fields set_status epoch_ms apply_status assert_can_transition
    can_transition candidate_progress set_fields set_field stamp_filled try_except transition_order
    transition_rows find_order update_order refresh_order_projection ignore_errors save ◌>>=◌ lift
    is_projectable redis_call set_redis upper statement
part_returns = refl

older_fill_overwrites_example : IsFilledBy "A1" "0.004" taken_back.tables
unfolding find_order
older_fill_overwrites_example =
    older_fill_overwrites later (holding later) (order_row (λ s. s) later) part "0.004" _ refl refl
      refl refl refl part_returns

-- The two fills are taken, and the late one is not.
fills_test :
    status_of "A1"
      (apply_inputs
        (map order_update (part ∷ whole ∷ part ∷ []))
        (holding (order_at OrderStatus.submitted 1))).tables
    ≡ some OrderStatus.filled
unfolding apply_inputs apply_input apply_order_update_event resolve_order look_up load_order get
    redis_call from_projection load_order_from_postgres get_joined_order statement from_row
    read_live find_joined find_order find_intent joined model_validate normalize_order
    normalize_terms given_or_fresh client_ids check_order_route
    normalize_position_metadata_for_order validate_order_type_required_fields upper strip or_default
    ignore_errors save ◌>>=◌ refresh_order_projection try_except is_projectable lift set_redis
    set_status epoch_ms apply_status assert_can_transition can_transition candidate_progress
    set_fields set_field stamp_filled transition_order transition_rows update_order apply_target
    update_fields given_text pure upsert_projection_if_newer is_stale write_projection merge_hash
    merge_progress read_hash
fills_test = refl
