-- ===== src/Gateway/Core/Inputs.antt =====
-- All that core.py is told about orders that exist: events of the user data stream and results of
-- reconciliation. Each keeps the agreement of the tables and the projections.
use crypto_derivative_algo_t.Prelude.{refl, String, true, Option, none, some, List, [], ◌∷◌}
use crypto_derivative_algo_t.Schema.Enums.{OrderStatus}
use crypto_derivative_algo_t.Schema.Order.{Order}
use crypto_derivative_algo_t.Failure.{Failure, ErrorCode, invalid_conditional_transition}
use crypto_derivative_algo_t.Store.Action.{World, Action}
use crypto_derivative_algo_t.Service.Keeps.{Keeps, keeps_rules, Keeps-bind}
use crypto_derivative_algo_t.Service.Agreement.{IsConsistent}
use crypto_derivative_algo_t.Service.LookupLoads.{IsLoad, load_order-IsLoad}
use crypto_derivative_algo_t.Gateway.Consistency.{
  gateway_rules, clock_rule, set_conditional_status-IsConsistent,
}
use crypto_derivative_algo_t.Gateway.Core.{
  OrderUpdateEvent, OrderSnapshot, apply_target, apply_resolved, apply_order_update_event,
  apply_snapshot, apply_reconciliation_order_snapshot, mark_unresolved,
  mark_reconciliation_unresolved,
}
use crypto_derivative_algo_t.Gateway.Core.Resolve.{resolve_order-IsLoad, resolve_conditional-IsLoad}
use crypto_derivative_algo_t.Gateway.Core.Conditional.{
  ConditionalOrderEvent, ConditionalSnapshot, on_invalid_transition, apply_conditional,
  apply_conditional_order_event, apply_conditional_order_snapshot,
}

pub data Input : Type 0 where
  order_update : OrderUpdateEvent → Input
  conditional_update : ConditionalOrderEvent → Input
  order_snapshot : String → OrderSnapshot → Input
  conditional_snapshot : ConditionalSnapshot → Input
  unresolved : String → Option ErrorCode → Option String → Option String → Input

unfoldable pub apply_input : Input → Action (Option Order)
apply_input (order_update e) = apply_order_update_event e
apply_input (conditional_update e) = apply_conditional_order_event e
apply_input (order_snapshot order_id s) = apply_reconciliation_order_snapshot order_id s
apply_input (conditional_snapshot s) = apply_conditional_order_snapshot s
apply_input (unresolved order_id code detail raw) =
    mark_reconciliation_unresolved order_id code detail raw

-- One after the other: an exception is logged, and the next one is taken, as `_event_worker` of the
-- user data stream does.
unfoldable pub apply_inputs : List Input → World → World
apply_inputs [] w = w
apply_inputs (i ∷ rest) w = apply_inputs rest (apply_input i w).1

IsLoad-IsConsistent : (m : Action (Option Order)) → IsLoad m → Keeps IsConsistent m
IsLoad-IsConsistent m l = record {
  keeps =
      λ w h. ((l.holds w.tables).keeps w (record { consistent = h; tables_are = refl })).consistent;
}

apply_target-IsConsistent :
    (e : OrderUpdateEvent) (found : Option Order) → Keeps IsConsistent (apply_resolved e found)
unfolding apply_target
apply_target-IsConsistent e none = search gateway_rules
apply_target-IsConsistent e (some o) = by_target e.target_status
  where
    by_target : (t : Option OrderStatus) → Keeps IsConsistent (apply_target e o t)
    by_target none = search gateway_rules
    by_target (some t) = search gateway_rules

apply_snapshot-IsConsistent :
    (s : OrderSnapshot) (found : Option Order) → Keeps IsConsistent (apply_snapshot s found)
unfolding apply_snapshot
apply_snapshot-IsConsistent s none = search gateway_rules
apply_snapshot-IsConsistent s (some o) = search gateway_rules

mark_unresolved-IsConsistent :
    (code : Option ErrorCode) (detail raw : Option String) (found : Option Order)
    → Keeps IsConsistent (mark_unresolved code detail raw found)
unfolding mark_unresolved
mark_unresolved-IsConsistent code detail raw none = search gateway_rules
mark_unresolved-IsConsistent code detail raw (some o) = search gateway_rules

on_invalid-IsConsistent : (o : Order) (e : Failure) → Keeps IsConsistent (on_invalid_transition o e)
unfolding on_invalid_transition
on_invalid-IsConsistent o (invalid_conditional_transition a b) = search keeps_rules
on_invalid-IsConsistent o _ = search keeps_rules

apply_conditional-IsConsistent :
    (e : ConditionalOrderEvent) (found : Option Order)
    → Keeps IsConsistent (apply_conditional e found)
unfolding apply_conditional
apply_conditional-IsConsistent e none = search keeps_rules
apply_conditional-IsConsistent e (some o) =
    search (keeps_rules, set_conditional_status-IsConsistent, on_invalid-IsConsistent)

conditional_event-IsConsistent :
    (e : ConditionalOrderEvent) → Keeps IsConsistent (apply_conditional_order_event e)
unfolding apply_conditional_order_event
conditional_event-IsConsistent e =
    Keeps-bind _ _ (IsLoad-IsConsistent _ (resolve_conditional-IsLoad e))
      (apply_conditional-IsConsistent e)

-- Every event and every result of reconciliation, on every path and also where it raises, keeps
-- every order's events and version in step and its projection no newer than its row, and of the
-- row's status if it is as new.
pub apply_input-IsConsistent : (i : Input) → Keeps IsConsistent (apply_input i)
unfolding apply_input apply_order_update_event apply_reconciliation_order_snapshot
    apply_conditional_order_snapshot mark_reconciliation_unresolved
apply_input-IsConsistent (order_update e) =
    Keeps-bind _ _ (IsLoad-IsConsistent _ (resolve_order-IsLoad e)) (apply_target-IsConsistent e)
apply_input-IsConsistent (conditional_update e) = conditional_event-IsConsistent e
apply_input-IsConsistent (order_snapshot order_id s) =
    Keeps-bind _ _ (IsLoad-IsConsistent _ (load_order-IsLoad order_id true))
      (apply_snapshot-IsConsistent s)
apply_input-IsConsistent (conditional_snapshot s) =
    Keeps-bind _ _ clock_rule (λ _. conditional_event-IsConsistent _)
apply_input-IsConsistent (unresolved order_id code detail raw) =
    Keeps-bind _ _ (IsLoad-IsConsistent _ (load_order-IsLoad order_id true))
      (mark_unresolved-IsConsistent code detail raw)
