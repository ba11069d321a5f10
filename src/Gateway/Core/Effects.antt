-- ===== src/Gateway/Core/Effects.antt =====
-- What one event or snapshot does to the statuses of the table `orders`.
use crypto_derivative_algo_t.Prelude.{
  String, ◌≡◌, refl, sym, ap, subst, inl, inr, Bool, true, false, not, ◌||◌, ◌&&◌, Option, none,
  some, ◌==◌, Bool-cases, arith,
}
use crypto_derivative_algo_t.Schema.Enums.{OrderStatus, order_status_eq}
use crypto_derivative_algo_t.Schema.Statuses.{is_terminal}
use crypto_derivative_algo_t.Schema.Order.{Order}
use crypto_derivative_algo_t.Failure.{ErrorCode, Result, ok, err}
use crypto_derivative_algo_t.StateMachine.OrderStatus.{can_transition}
use crypto_derivative_algo_t.Store.Tables.{Tables}
use crypto_derivative_algo_t.Store.Action.{World, Action, pure, ◌>>=◌, continue}
use crypto_derivative_algo_t.Service.Agreement.{IsConsistent, IsCurrent}
use crypto_derivative_algo_t.Service.Found.{Holds}
use crypto_derivative_algo_t.Service.LookupLoads.{IsLoad, load_order-IsLoad}
use crypto_derivative_algo_t.Gateway.Core.{
  OrderUpdateEvent, OrderSnapshot, returned, apply_target, apply_resolved, apply_order_update_event,
  apply_snapshot, apply_reconciliation_order_snapshot, mark_unresolved,
  mark_reconciliation_unresolved,
}
use crypto_derivative_algo_t.Gateway.Core.Resolve.{resolve_order-IsLoad}
use crypto_derivative_algo_t.Gateway.Core.Moves.{Moves, set_status-Moves}

-- A snapshot may overwrite every status that is not terminal, and a terminal one by itself.
abbrev pub may_overwrite : OrderStatus → OrderStatus → Bool
may_overwrite old new = not (is_terminal old) || old == new

module _ (allowed : OrderStatus → OrderStatus → Bool) where
  -- What is done with a loaded order, and with none.
  pub after_load :
      (m : Action (Option Order)) (f : Option Order → Action (Option Order)) (w : World)
      → IsLoad m
      → IsConsistent w
      → ((found : Option Order) (w' : World)
          → ((o : Order) → found ≡ some o → IsCurrent w'.tables.orders o)
          → Moves allowed w'.tables (f found w').1.tables)
      → Moves allowed w.tables ((m >>= f) w).1.tables
  unfolding ◌>>=◌
  after_load m f w l h g =
      continued (m w).0 (m w).1 ((l.holds w.tables).keeps w start).tables_are
        ((l.finds w.tables).finds w start)
    where
      start : Holds w.tables w
      start = record { consistent = h; tables_are = refl }

      continued :
          (r : Result (Option Order)) (w' : World)
          → w'.tables ≡ w.tables
          → ((o : Order) → r ≡ ok (some o) → IsCurrent w.tables.orders o)
          → Moves allowed w.tables (continue r f w').1.tables
      continued (ok found) w' s c =
          subst (λ t. Moves allowed t (f found w').1.tables) s
            (g found w'
              (λ o e. subst (λ (t : Tables). IsCurrent t.orders o) (sym s) (c o (ap ok e))))
      continued (err e) w' s c = inl s

  pub returned-Moves :
      (m : Action Order) (t : Tables) (w : World)
      → Moves allowed t (m w).1.tables
      → Moves allowed t (returned m w).1.tables
  unfolding ◌>>=◌ pure
  returned-Moves m t w h = by_result (m w) h
    where
      by_result :
          (r : Result Order × World)
          → Moves allowed t r.1.tables
          → Moves allowed t (continue r.0 (λ o. pure (some o)) r.1).1.tables
      by_result (ok o, w') h = h
      by_result (err e, w') h = h

apply_target-Moves :
    (e : OrderUpdateEvent) (o : Order) (target : Option OrderStatus) (w : World)
    → IsCurrent w.tables.orders o
    → Moves can_transition w.tables (apply_target e o target w).1.tables
unfolding apply_target pure
apply_target-Moves e o none w c = inl refl
apply_target-Moves e o (some target) w c = elim (Bool-cases (can_transition o.status target)) [
  | inl edge ↦ rw edge (
      returned-Moves can_transition _ w.tables w
        (set_status-Moves can_transition o target true true _ w c edge))
  | inr no_edge ↦ rw no_edge (inl refl)
]

apply_resolved-Moves :
    (e : OrderUpdateEvent) (found : Option Order) (w : World)
    → ((o : Order) → found ≡ some o → IsCurrent w.tables.orders o)
    → Moves can_transition w.tables (apply_resolved e found w).1.tables
unfolding pure
apply_resolved-Moves e none w c = inl refl
apply_resolved-Moves e (some o) w c = apply_target-Moves e o e.target_status w (c o refl)

-- An execution event moves at most one order, and only along an edge of the state machine.
pub order_update-Moves :
    (e : OrderUpdateEvent) (w : World)
    → IsConsistent w
    → Moves can_transition w.tables (apply_order_update_event e w).1.tables
unfolding apply_order_update_event
order_update-Moves e w h =
    after_load can_transition _ (apply_resolved e) w (resolve_order-IsLoad e) h
      (λ found w' c. apply_resolved-Moves e found w' c)

apply_snapshot-Moves :
    (s : OrderSnapshot) (found : Option Order) (w : World)
    → ((o : Order) → found ≡ some o → IsCurrent w.tables.orders o)
    → Moves may_overwrite w.tables (apply_snapshot s found w).1.tables
unfolding apply_snapshot pure
apply_snapshot-Moves s none w c = inl refl
apply_snapshot-Moves s (some o) w c =
    elim (Bool-cases (is_terminal o.status && not (o.status == s.status))) [
      | inl kept ↦ rw kept (inl refl)
      | inr free ↦ rw free (
          returned-Moves may_overwrite _ w.tables w
            (set_status-Moves may_overwrite o s.status false false _ w (c o refl) (ground arith)))
    ]

-- A snapshot of reconciliation moves at most one order, and none out of a terminal status.
pub snapshot-Moves :
    (order_id : String) (s : OrderSnapshot) (w : World)
    → IsConsistent w
    → Moves may_overwrite w.tables (apply_reconciliation_order_snapshot order_id s w).1.tables
unfolding apply_reconciliation_order_snapshot
snapshot-Moves order_id s w h =
    after_load may_overwrite _ (apply_snapshot s) w (load_order-IsLoad order_id true) h
      (λ found w' c. apply_snapshot-Moves s found w' c)

module _ (code : Option ErrorCode) (detail raw : Option String) where
  mark_unresolved-Moves :
      (found : Option Order) (w : World)
      → ((o : Order) → found ≡ some o → IsCurrent w.tables.orders o)
      → Moves may_overwrite w.tables (mark_unresolved code detail raw found w).1.tables
  unfolding mark_unresolved pure
  mark_unresolved-Moves none w c = inl refl
  mark_unresolved-Moves (some o) w c = elim (Bool-cases (is_terminal o.status)) [
    | inl kept ↦ rw kept (inl refl)
    | inr free ↦ rw free (
        returned-Moves may_overwrite _ w.tables w (
          set_status-Moves may_overwrite o OrderStatus.reconcile_unresolved false true _ w
            (c o refl) (ground arith)))
  ]

  pub unresolved-Moves :
      (order_id : String) (w : World)
      → IsConsistent w
      → Moves may_overwrite w.tables
          (mark_reconciliation_unresolved order_id code detail raw w).1.tables
  unfolding mark_reconciliation_unresolved
  unresolved-Moves order_id w h =
      after_load may_overwrite _ (mark_unresolved code detail raw) w
        (load_order-IsLoad order_id true) h (λ found w' c. mark_unresolved-Moves found w' c)
