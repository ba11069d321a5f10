-- ===== src/Gateway/Core.antt =====
-- gateway/core.py: what the gateway does with the events of the user data stream and with the
-- snapshots of reconciliation, of one regular order. The calls that core.py only passes on to the services
-- are those of Gateway/Submission, Gateway/Batch and Gateway/Cancellation. Raw messages are texts.
pub mod Conditional
pub mod Resolve
pub mod Moves
pub mod Effects
pub mod ConditionalEffects
pub mod Inputs
pub mod Streams
pub mod Fills
use crypto_derivative_algo_t.Prelude.{
  String, Bool, true, false, not, ◌&&◌, Option, none, some, List, [], ◌∷◌, ◌++◌, ◌==◌, string_eq,
  if◌then◌else◌, or_else,
}
use crypto_derivative_algo_t.Schema.Enums.{
  Exchange, MarketType, OrderStatus, RejectReason, order_status_eq,
}
use crypto_derivative_algo_t.Schema.Statuses.{is_terminal}
use crypto_derivative_algo_t.Schema.Order.{Order}
use crypto_derivative_algo_t.Failure.{ErrorCode}
use crypto_derivative_algo_t.StateMachine.OrderStatus.{can_transition}
use crypto_derivative_algo_t.Store.Action.{Action, pure, ◌>>=◌}
use crypto_derivative_algo_t.Service.OrderState.{load_order}
use crypto_derivative_algo_t.Service.Lookups.{
  load_order_by_exchange_order_id, load_order_by_triggered_order_id,
}
use crypto_derivative_algo_t.Gateway.Transition.{
  Update, exchange_order_id, filled_quantity, avg_fill_price, reject_reason, exchange_error_code,
  detail_msg, raw_exchange_response, set_status,
}

-- NormalizedOrderUpdateEvent, in the fields that are read.
pub record OrderUpdateEvent : Type 0 where
  pub exchange : Exchange
  pub market_type : MarketType
  pub client_order_id : String
  pub exchange_order_id : Option String
  pub target_status : Option OrderStatus
  pub filled_quantity : Option String
  pub avg_fill_price : Option String
  pub reject_reason_text : Option String

-- ExchangeOrderSnapshot
pub record OrderSnapshot : Type 0 where
  pub status : OrderStatus
  pub exchange_order_id : Option String
  pub filled_quantity : String
  pub avg_fill_price : String
  pub raw : String

-- `if text:` holds of a text that is neither None nor empty.
unfoldable pub given_text : Option String → Option String
given_text none = none
given_text (some s) = if s == "" then none else some s

-- A lookup that is made only with a given id, and only if nothing was found before.
unfoldable pub look_up :
    Option Order → Option String → (String → Action (Option Order)) → Action (Option Order)
look_up (some o) id load = pure (some o)
look_up none none load = pure none
look_up none (some k) load = load k

-- The first two lookups of _resolve_order_for_order_update_event.
unfoldable pub resolve_placed : OrderUpdateEvent → Action (Option Order)
resolve_placed e = do
  own ← load_order e.client_order_id true
  look_up own (given_text e.exchange_order_id)
      (λ k. load_order_by_exchange_order_id e.exchange e.market_type k true)

-- _resolve_order_for_order_update_event; the third is for an order that a trigger has placed.
unfoldable pub resolve_order : OrderUpdateEvent → Action (Option Order)
unfolding resolve_placed
resolve_order e = do
  placed ← resolve_placed e
  look_up placed (given_text e.exchange_order_id)
      (λ k. load_order_by_triggered_order_id e.exchange e.market_type k true)

abbrev pub given {ℓ} : {A : Type ℓ} → (A → Update) → Option A → List Update
given field none = []
given field (some v) = field v ∷ []

-- The local variable `update_fields`.
unfoldable pub update_fields : OrderStatus → OrderUpdateEvent → List Update
update_fields target e =
    given (λ s. exchange_order_id (some s)) e.exchange_order_id
    ++ given filled_quantity e.filled_quantity
    ++ given avg_fill_price e.avg_fill_price
    ++ (if target == OrderStatus.rejected
        then reject_reason (some RejectReason.exchange_rejected)
          ∷ given (λ s. detail_msg (some s)) (given_text e.reject_reason_text)
        else [])

abbrev pub returned : Action Order → Action (Option Order)
returned m = do o ← m; pure (some o)

unfoldable pub apply_target : OrderUpdateEvent → Order → Option OrderStatus → Action (Option Order)
apply_target e o none = pure (some o)
apply_target e o (some target) =
    if can_transition o.status target
    then returned (set_status o target true true (update_fields target e))
    else pure (some o)

abbrev pub apply_resolved : OrderUpdateEvent → Option Order → Action (Option Order)
apply_resolved e none = pure none
apply_resolved e (some o) = apply_target e o e.target_status

-- apply_order_update_event
unfoldable pub apply_order_update_event : OrderUpdateEvent → Action (Option Order)
apply_order_update_event e = do found ← resolve_order e; apply_resolved e found

unfoldable pub apply_snapshot : OrderSnapshot → Option Order → Action (Option Order)
apply_snapshot s none = pure none
apply_snapshot s (some o) =
    if is_terminal o.status && not (o.status == s.status)
    then pure (some o)
    else returned (
        set_status o s.status false false (
          exchange_order_id (or_else (given_text s.exchange_order_id) o.exchange_order_id)
          ∷ filled_quantity s.filled_quantity
          ∷ avg_fill_price s.avg_fill_price
          ∷ raw_exchange_response (some s.raw)
          ∷ []))

-- apply_reconciliation_order_snapshot
unfoldable pub apply_reconciliation_order_snapshot : String → OrderSnapshot → Action (Option Order)
apply_reconciliation_order_snapshot order_id s = do
  found ← load_order order_id true
  apply_snapshot s found

unfoldable pub mark_unresolved :
    Option ErrorCode → Option String → Option String → Option Order → Action (Option Order)
mark_unresolved code detail raw none = pure none
mark_unresolved code detail raw (some o) =
    if is_terminal o.status
    then pure (some o)
    else returned (
        set_status o OrderStatus.reconcile_unresolved false true (
          reject_reason (some RejectReason.unknown_execution)
          ∷ exchange_error_code code
          ∷ detail_msg detail
          ∷ raw_exchange_response raw
          ∷ []))

-- mark_reconciliation_unresolved
unfoldable pub mark_reconciliation_unresolved :
    String → Option ErrorCode → Option String → Option String → Action (Option Order)
mark_reconciliation_unresolved order_id code detail raw = do
  found ← load_order order_id true
  mark_unresolved code detail raw found
