-- ===== src/Gateway/Core/Streams.antt =====
-- What a sequence of events and results of reconciliation does to the statuses of all orders: the
-- table `orders` follows the diagram of state_machine/order_state_machine.py.
use crypto_derivative_algo_t.Prelude.{
  String, ◌≡◌, refl, subst, ◌⊎◌, inl, inr, ap, sym, ◌∙◌, Bool, true, some, List, [], ◌∷◌, map, ◌==◌,
  string_eq, ==_iff, Bool-cases, arith, if◌then◌else◌,
}
use crypto_derivative_algo_t.Schema.Enums.{OrderStatus, order_status_eq}
use crypto_derivative_algo_t.Schema.Statuses.{is_terminal}
use crypto_derivative_algo_t.StateMachine.OrderStatus.{can_transition}
use crypto_derivative_algo_t.StateMachine.Graph.{terminal_iff_stuck}
use crypto_derivative_algo_t.Store.Tables.{Tables}
use crypto_derivative_algo_t.Store.Action.{World, ◌>>=◌, epoch_ms}
use crypto_derivative_algo_t.Service.Agreement.{IsConsistent, IsConsistent-storage}
use crypto_derivative_algo_t.Gateway.Core.{OrderUpdateEvent}
use crypto_derivative_algo_t.Gateway.Core.Conditional.{apply_conditional_order_snapshot}
use crypto_derivative_algo_t.Gateway.Core.Moves.{Moved, Moves, status_of}
use crypto_derivative_algo_t.Gateway.Core.Effects.{
  may_overwrite, order_update-Moves, snapshot-Moves, unresolved-Moves,
}
use crypto_derivative_algo_t.Gateway.Core.ConditionalEffects.{is_unmoved, conditional_event-Moves}
use crypto_derivative_algo_t.Gateway.Core.Inputs.{
  Input, order_update, conditional_update, order_snapshot, conditional_snapshot, unresolved,
  apply_input, apply_inputs, apply_input-IsConsistent,
}

-- A walk in the diagram of the state machine.
pub data Walk : OrderStatus → OrderStatus → Type 0 where
  here : (s : OrderStatus) → Walk s s
  edge : (s t u : OrderStatus) → can_transition s t ≡ true → Walk t u → Walk s u

-- What one input does to an order whose row has the status `old`.
record Change (allowed : OrderStatus → OrderStatus → Bool) (k : String) (old : OrderStatus)
    (t' : Tables) : Type 0 where
  new : OrderStatus
  now : status_of k t' ≡ some new
  why : (old ≡ new) ⊎ (allowed old new ≡ true)

module _ (allowed : OrderStatus → OrderStatus → Bool) (k : String) (old : OrderStatus) where
  Moved-Change :
      (t t' : Tables) → status_of k t ≡ some old → Moved allowed t t' → Change allowed k old t'
  Moved-Change t t' h m = elim (Bool-cases (m.key == k)) [
    | inl own ↦ record {
      new = m.new;
      now = m.after k ∙ ap (λ b. if b then some m.new else status_of k t) own;
      why = inr (ap (λ s. allowed s m.new) (own_status own) ∙ m.edge);
    }
    | inr other ↦ record {
      new = old;
      now = m.after k ∙ ap (λ b. if b then some m.new else status_of k t) other ∙ h;
      why = inl refl;
    }
  ]
    where
      own_status : (m.key == k) ≡ true → old ≡ m.old
      own_status own = cc (h, m.before, ap (λ j. status_of j t) ((==_iff m.key k).0 own))

  Moves-Change :
      (t t' : Tables) → status_of k t ≡ some old → Moves allowed t t' → Change allowed k old t'
  Moves-Change t t' h (inl same) = record {
    new = old;
    now = ap (status_of k) same ∙ h;
    why = inl refl;
  }
  Moves-Change t t' h (inr m) = Moved-Change t t' h m

prepend : (s t u : OrderStatus) → (s ≡ t) ⊎ (can_transition s t ≡ true) → Walk t u → Walk s u
prepend s t u (inl same) walk = subst (λ x. Walk x u) (sym same) walk
prepend s t u (inr e) walk = edge s t u e walk

update-Change :
    (e : OrderUpdateEvent) (w : World) (k : String) (old : OrderStatus)
    → IsConsistent w
    → status_of k w.tables ≡ some old
    → Change can_transition k old (apply_input (order_update e) w).1.tables
unfolding apply_input
update-Change e w k old h s =
    Moves-Change can_transition k old w.tables _ s (order_update-Moves e w h)

-- However many execution events arrive, in whatever order and however often each, and whichever of
-- them fail: from a store that agrees, the row of every order goes from its status to the one that
-- it has in the end along a walk in the diagram of the state machine.
pub updates_follow_machine :
    (events : List OrderUpdateEvent) (w : World) (k : String) (old : OrderStatus)
    → IsConsistent w
    → status_of k w.tables ≡ some old
    → (new : OrderStatus) × (status_of k (apply_inputs (map order_update events) w).tables
        ≡ some new)
      × Walk old new
unfolding apply_inputs
updates_follow_machine [] w k old h e = (old, e, here old)
updates_follow_machine (x ∷ events) w k old h e =
    let first = update-Change x w k old h e in
    let rest =
      updates_follow_machine events (apply_input (order_update x) w).1 k first.new
        ((apply_input-IsConsistent (order_update x)).keeps w h) first.now in
    (rest.0, rest.1, prepend old first.new rest.0 first.why rest.2)

-- What stays, whatever is allowed to overwrite it.
ended_once :
    (allowed : OrderStatus → OrderStatus → Bool) (k : String) (s : OrderStatus) (t t' : Tables)
    → ((new : OrderStatus) → allowed s new ≡ true → s ≡ new)
    → status_of k t ≡ some s
    → Moves allowed t t'
    → status_of k t' ≡ some s
ended_once allowed k s t t' stuck h m =
    let c = Moves-Change allowed k s t t' h m in c.now ∙ ap some (sym (same_lem c.new c.why))
  where
    same_lem : (new : OrderStatus) → (s ≡ new) ⊎ (allowed s new ≡ true) → s ≡ new
    same_lem new (inl e) = e
    same_lem new (inr e) = stuck new e

module _ (s : OrderStatus) (ended : is_terminal s ≡ true) where
  no_edge : (new : OrderStatus) → can_transition s new ≡ true → s ≡ new
  no_edge new e = cc (e, (terminal_iff_stuck s).0 ended new)

  not_overwritten : (new : OrderStatus) → may_overwrite s new ≡ true → s ≡ new
  not_overwritten new e = (==_iff s new).0 (ground arith)

  unmoved : (new : OrderStatus) → is_unmoved s new ≡ true → s ≡ new
  unmoved new e = (==_iff s new).0 e

  input_keeps_ended :
      (i : Input) (w : World) (k : String)
      → IsConsistent w
      → status_of k w.tables ≡ some s
      → status_of k (apply_input i w).1.tables ≡ some s
  unfolding apply_input apply_conditional_order_snapshot ◌>>=◌ epoch_ms
  input_keeps_ended (order_update e) w k h f =
      ended_once can_transition k s w.tables _ no_edge f (order_update-Moves e w h)
  input_keeps_ended (conditional_update e) w k h f =
      ended_once is_unmoved k s w.tables _ unmoved f (conditional_event-Moves e w h)
  input_keeps_ended (order_snapshot order_id x) w k h f =
      ended_once may_overwrite k s w.tables _ not_overwritten f (snapshot-Moves order_id x w h)
  input_keeps_ended (conditional_snapshot x) w k h f =
      ended_once is_unmoved k s w.tables _ unmoved f
        (conditional_event-Moves _ (epoch_ms w).1 (IsConsistent-storage.carry w _ refl refl h))
  input_keeps_ended (unresolved order_id code detail raw) w k h f =
      ended_once may_overwrite k s w.tables _ not_overwritten f
        (unresolved-Moves code detail raw order_id w h)

  -- An order whose row is terminal keeps that status through any sequence of events of the user data
  -- stream, snapshots of reconciliation and marks as unresolved, from a store that agrees.
  pub ended_orders_stay :
      (inputs : List Input) (w : World) (k : String)
      → IsConsistent w
      → status_of k w.tables ≡ some s
      → status_of k (apply_inputs inputs w).tables ≡ some s
  unfolding apply_inputs
  ended_orders_stay [] w k h f = f
  ended_orders_stay (i ∷ inputs) w k h f =
      ended_orders_stay inputs (apply_input i w).1 k ((apply_input-IsConsistent i).keeps w h)
        (input_keeps_ended i w k h f)
