-- ===== src/Gateway/Consistency.antt =====
-- The services of the gateway keep the agreement of the tables and the projections, on every path:
-- here the status changes and the creation, in the children the submission and the cancellation.
pub mod Submit
pub mod Cancel
pub mod CancelBatch
pub mod CancelAll
use crypto_derivative_algo_t.Prelude.{
  ℕ, arith, String, ◌≡◌, refl, Bool, true, false, Option, none, some, List, if◌then◌else◌,
}
use crypto_derivative_algo_t.Schema.Enums.{
  OrderRoute, regular, conditional, Exchange, MarketType, OrderStatus, ConditionalStatus,
  RejectReason,
}
use crypto_derivative_algo_t.Schema.Order.{Origin, Order, OrderRequest}
use crypto_derivative_algo_t.Schema.Validate.{normalize_order, client_ids}
use crypto_derivative_algo_t.Failure.{
  Failure, is_unknown_execution, ErrorCode, exchange_api_error, stale_order_version, Result, ok,
  err, >>=-eq-ok,
}
use crypto_derivative_algo_t.Store.Action.{
  World, Action, epoch_ms, generate_order_id, pure, lift, gets, ◌>>=◌, ◌>>◌, try_except, continue,
}
use crypto_derivative_algo_t.Service.OrderState.{create_order, transition_order, load_order}
use crypto_derivative_algo_t.Service.Keeps.{
  Keeps, keeps_rules, Keeps-pure, Keeps-lift, Keeps-try_except, Keeps-bind, Keeps-lift_bind,
  Keeps-epoch_ms, Keeps-generate_order_id, Keeps-gets,
}
use crypto_derivative_algo_t.Service.Agreement.{IsConsistent, IsConsistent-storage}
use crypto_derivative_algo_t.Service.Consistency.{
  transition_order-IsConsistent, create_order-IsConsistent,
}
use crypto_derivative_algo_t.Service.Loads.{load_order-IsConsistent, normalize_order-key}
use crypto_derivative_algo_t.Gateway.Transition.{
  Update, on_stale, apply_status, set_status, apply_conditional_status, set_conditional_status,
  mark_rejected, mark_unknown, create_internal_order, internal_order,
}
use crypto_derivative_algo_t.Gateway.Client.{ExchangeClient, Ack, map_exchange_error_to_reason}
use crypto_derivative_algo_t.Gateway.Submission.{
  acknowledge_exchange_ack, place_by_route, place_exchange_order, on_submit_error, send_order,
  apply_leverage, apply_order_request_leverage_if_present, submit_created, submit_order,
}
use crypto_derivative_algo_t.Gateway.Cancellation.{
  roll_back, cancel_by_route, on_regular_cancel_error, cancel_regular, cancel_regular_order,
  on_conditional_cancel_error, cancel_conditional, cancel_conditional_order, cancel_loaded,
  cancel_order,
}

pub clock_rule : Keeps IsConsistent epoch_ms
clock_rule = Keeps-epoch_ms IsConsistent-storage

on_stale-IsConsistent : (o : Order) (e : Failure) → Keeps IsConsistent (on_stale o e)
unfolding on_stale
on_stale-IsConsistent o (stale_order_version a b c) = search (keeps_rules, load_order-IsConsistent)
on_stale-IsConsistent o _ = search keeps_rules

ruleset service_rules = (
  keeps_rules, load_order-IsConsistent, transition_order-IsConsistent, clock_rule,
  on_stale-IsConsistent,
)

apply_status-IsConsistent :
    (now : ℕ) (o : Order) (status : OrderStatus) (use_machine : Bool) (fields : List Update)
    → Keeps IsConsistent (apply_status now o status use_machine fields)
unfolding apply_status
apply_status-IsConsistent now o status use_machine fields = search service_rules

pub set_status-IsConsistent :
    (o : Order) (status : OrderStatus) (use_machine protect_terminal : Bool) (fields : List Update)
    → Keeps IsConsistent (set_status o status use_machine protect_terminal fields)
unfolding set_status
set_status-IsConsistent o status use_machine protect_terminal fields =
    search (service_rules, apply_status-IsConsistent)

apply_conditional_status-IsConsistent :
    (now : ℕ) (o : Order) (target : ConditionalStatus) (use_machine : Bool) (fields : List Update)
    → Keeps IsConsistent (apply_conditional_status now o target use_machine fields)
unfolding apply_conditional_status
apply_conditional_status-IsConsistent now o target use_machine fields = search service_rules

pub set_conditional_status-IsConsistent :
    (o : Order) (target : ConditionalStatus) (use_machine protect_terminal : Bool)
    (fields : List Update)
    → Keeps IsConsistent (set_conditional_status o target use_machine protect_terminal fields)
unfolding set_conditional_status
set_conditional_status-IsConsistent o target use_machine protect_terminal fields =
    search (service_rules, apply_conditional_status-IsConsistent)

pub mark_rejected-IsConsistent :
    (o : Order) (reason : RejectReason) (code : Option ErrorCode) (detail : Option String)
    → Keeps IsConsistent (mark_rejected o reason code detail)
unfolding mark_rejected
mark_rejected-IsConsistent o reason code detail = search set_status-IsConsistent

pub mark_unknown-IsConsistent : (o : Order) → Keeps IsConsistent (mark_unknown o)
unfolding mark_unknown
mark_unknown-IsConsistent o = search set_status-IsConsistent

created-IsConsistent :
    (now : ℕ) (fresh : String) (req : OrderRequest) (origin : Origin)
    → (r : Result Order) → normalize_order fresh (internal_order now req origin) ≡ r
    → Keeps IsConsistent (do order ← lift r; generate_order_id; create_order order)
unfolding lift ◌>>=◌ normalize_order internal_order client_ids generate_order_id
created-IsConsistent now fresh req origin (ok o) e = record {
  keeps = λ w h.
      (create_order-IsConsistent o (ground (arith))).keeps _
        (IsConsistent-storage.carry w _ refl refl h);
}
created-IsConsistent now fresh req origin (err f) e = record { keeps = λ w h. h }

pub create_internal_order-IsConsistent :
    (req : OrderRequest) (origin : Origin) → Keeps IsConsistent (create_internal_order req origin)
unfolding create_internal_order
create_internal_order-IsConsistent req origin = Keeps-bind _ _ clock_rule (λ now.
    Keeps-bind _ _ (Keeps-gets _) (λ fresh. created-IsConsistent now fresh req origin _ refl))

pub ruleset gateway_rules = (
  keeps_rules, clock_rule, load_order-IsConsistent, set_status-IsConsistent,
  mark_rejected-IsConsistent, mark_unknown-IsConsistent, create_internal_order-IsConsistent,
)

-- A client whose calls, and what other tasks do meanwhile, keep the agreement.
pub record IsOrderly (client : ExchangeClient) : Type 0 where
  pub places : (o : Order) → Keeps IsConsistent (client.place_order o)
  pub places_conditional : (o : Order) → Keeps IsConsistent (client.place_conditional_order o)
  pub cancels : (o : Order) → Keeps IsConsistent (client.cancel_order o)
  pub cancels_batch : (orders : List Order) → Keeps IsConsistent (client.cancel_batch_orders orders)
  pub cancels_all :
      (symbol : String) → Keeps IsConsistent (client.cancel_all_regular_open_orders symbol)
  pub cancels_all_conditional :
      (symbol : String) → Keeps IsConsistent (client.cancel_all_conditional_open_orders symbol)
  pub levers :
      (symbol : String) (leverage : ℕ) → Keeps IsConsistent (client.change_leverage symbol leverage)

module _ (client_for_market : Exchange → MarketType → Result ExchangeClient)
    (orderly : (e : Exchange) (m : MarketType) (client : ExchangeClient)
      → client_for_market e m ≡ ok client
      → IsOrderly client) where
  pub with_client :
      {A : Type 0} (e : Exchange) (m : MarketType) (f : ExchangeClient → Action A)
      → ((client : ExchangeClient) → IsOrderly client → Keeps IsConsistent (f client))
      → Keeps IsConsistent (do client ← lift (client_for_market e m); f client)
  with_client e m f kf = Keeps-lift_bind _ f (λ client found. kf client (orderly e m client found))
