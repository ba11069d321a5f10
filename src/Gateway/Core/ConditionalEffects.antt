-- ===== src/Gateway/Core/ConditionalEffects.antt =====
-- What the event of a conditional order does to the statuses of the table `orders`: nothing.
use crypto_derivative_algo_t.Prelude.{
  ℕ, ◌≡◌, refl, ap, ◌∙◌, inl, Bool, true, false, Option, none, some, List, ◌==◌, same_refl, arith,
  if◌then◌else◌,
}
use crypto_derivative_algo_t.Schema.Enums.{OrderStatus, ConditionalStatus, order_status_eq}
use crypto_derivative_algo_t.Schema.Order.{Order, Progress}
use crypto_derivative_algo_t.Failure.{Failure, Result, ok, err}
use crypto_derivative_algo_t.StateMachine.Conditional
use crypto_derivative_algo_t.Store.Action.{
  World, Action, pure, raise, lift, ◌>>=◌, try_except, epoch_ms, handle, continue,
}
use crypto_derivative_algo_t.Service.OrderState.{transition_order}
use crypto_derivative_algo_t.Service.Agreement.{IsConsistent, IsCurrent}
use crypto_derivative_algo_t.Gateway.Transition.{
  Update, present, set_fields, stamp_triggered, apply_conditional_status, set_conditional_status,
  is_protected_conditional,
}
use crypto_derivative_algo_t.Gateway.StatusChange.{set_fields-status}
use crypto_derivative_algo_t.Gateway.Core.Resolve.{resolve_conditional-IsLoad}
use crypto_derivative_algo_t.Gateway.Core.Conditional.{
  ConditionalOrderEvent, conditional_fields, on_invalid_transition, apply_conditional,
  apply_conditional_order_event,
}
use crypto_derivative_algo_t.Gateway.Core.Moves.{Moves, transition_order-Moves}
use crypto_derivative_algo_t.Gateway.Core.Effects.{after_load, returned-Moves}

abbrev pub is_unmoved : OrderStatus → OrderStatus → Bool
is_unmoved old new = old == new

stamp_triggered-status :
    (now : ℕ) (target : ConditionalStatus) (p : Progress)
    → (stamp_triggered now target p).status ≡ p.status
unfolding stamp_triggered
stamp_triggered-status now target p = ground arith

module _ (o : Order) (target : ConditionalStatus) (fields : List Update) where
  written-Moves :
      (now : ℕ) (p : Progress) (w : World)
      → IsCurrent w.tables.orders o
      → p.status ≡ o.status
      → Moves is_unmoved w.tables
          (transition_order o (record o { progress = stamp_triggered now target p }) w).1.tables
  written-Moves now p w c same =
      transition_order-Moves is_unmoved o (record o { progress = stamp_triggered now target p }) w c
        refl
        (ap (is_unmoved o.status) (stamp_triggered-status now target p ∙ same) ∙ same_refl o.status)

  apply_conditional_status-Moves :
      (now : ℕ) (w : World)
      → IsCurrent w.tables.orders o
      → Moves is_unmoved w.tables (apply_conditional_status now o target true fields w).1.tables
  unfolding apply_conditional_status ◌>>=◌ lift
  apply_conditional_status-Moves now w c =
      by_check (Conditional.assert_can_transition o.conditional_status target)
    where
      start : Progress
      start = record o.progress { conditional_status = some target; updated_ts = now }

      commit : Progress → Action Order
      commit p = transition_order o (record o { progress = stamp_triggered now target p })

      by_fields :
          (r : Result Progress)
          → set_fields (present fields) start ≡ r
          → Moves is_unmoved w.tables (continue r commit w).1.tables
      by_fields (ok p) e = written-Moves now p w c (set_fields-status (present fields) start p e).0
      by_fields (err f) e = inl refl

      by_check :
          (r : Result (Unit {0}))
          → Moves is_unmoved w.tables
              (continue r (λ _ v. continue (set_fields (present fields) start) commit v) w).1.tables
      by_check (ok u) = by_fields (set_fields (present fields) start) refl
      by_check (err f) = inl refl

  set_conditional_status-Moves :
      (w : World)
      → IsCurrent w.tables.orders o
      → Moves is_unmoved w.tables (set_conditional_status o target true true fields w).1.tables
  unfolding set_conditional_status ◌>>=◌ epoch_ms pure
  set_conditional_status-Moves w c = guarded (is_protected_conditional true o target)
    where
      guarded :
          (b : Bool)
          → Moves is_unmoved w.tables
              ((if b
                  then pure o
                  else apply_conditional_status (w.clock w.reads) o target true fields)
                (epoch_ms w).1).1.tables
      guarded true = inl refl
      guarded false = apply_conditional_status-Moves (w.clock w.reads) (epoch_ms w).1 c

on_invalid-same : (o : Order) (e : Failure) (w : World) → (on_invalid_transition o e w).1 ≡ w
unfolding on_invalid_transition pure raise
on_invalid-same o e w = ground arith

try-Moves :
    (o : Order) (m : Action (Option Order)) (w : World)
    → Moves is_unmoved w.tables (m w).1.tables
    → Moves is_unmoved w.tables (try_except m (on_invalid_transition o) w).1.tables
unfolding try_except
try-Moves o m w h = by_result (m w) h
  where
    by_result :
        (r : Result (Option Order) × World)
        → Moves is_unmoved w.tables r.1.tables
        → Moves is_unmoved w.tables (handle r.0 (on_invalid_transition o) r.1).1.tables
    by_result (ok a, w') h = h
    by_result (err e, w') h = rw (on_invalid-same o e w') h

apply_conditional-Moves :
    (e : ConditionalOrderEvent) (found : Option Order) (w : World)
    → ((o : Order) → found ≡ some o → IsCurrent w.tables.orders o)
    → Moves is_unmoved w.tables (apply_conditional e found w).1.tables
unfolding apply_conditional pure
apply_conditional-Moves e none w c = inl refl
apply_conditional-Moves e (some o) w c = try-Moves o _ w (
    returned-Moves is_unmoved _ w.tables w
      (set_conditional_status-Moves o e.target_status (conditional_fields e) w (c o refl)))

-- The event of a conditional order changes no order's status.
pub conditional_event-Moves :
    (e : ConditionalOrderEvent) (w : World)
    → IsConsistent w
    → Moves is_unmoved w.tables (apply_conditional_order_event e w).1.tables
unfolding apply_conditional_order_event
conditional_event-Moves e w h =
    after_load is_unmoved _ (apply_conditional e) w (resolve_conditional-IsLoad e) h
      (λ found w' c. apply_conditional-Moves e found w' c)
