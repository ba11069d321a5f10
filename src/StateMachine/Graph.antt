-- ===== src/StateMachine/Graph.antt =====
-- The diagrams of state_machine/order_state_machine.py and conditional_order_state_machine.py, and
-- what any series of calls of `transition` does to one order.
use crypto_derivative_algo_t.Prelude.{
  ℕ, ◌≡◌, refl, ◌∙◌, ◌↔◌, ◌⊎◌, inl, inr, Bool, true, false, Option, some, is_some, List, [], ◌∷◌,
  arith, ap,
}
use crypto_derivative_algo_t.Schema.Enums.{OrderStatus, ConditionalStatus}
use crypto_derivative_algo_t.Schema.Statuses.{is_terminal, is_conditional_terminal}
use crypto_derivative_algo_t.Schema.Order.{Order}
use crypto_derivative_algo_t.Failure.{Result, ok, err}
use crypto_derivative_algo_t.StateMachine.OrderStatus.{can_transition, Details, assign, transition}
use crypto_derivative_algo_t.StateMachine.Conditional

-- A status is terminal exactly if the table allows no transition out of it.
pub terminal_iff_stuck :
    (s : OrderStatus) → (is_terminal s ≡ true) ↔ ((t : OrderStatus) → can_transition s t ≡ false)
unfolding can_transition
terminal_iff_stuck OrderStatus.filled = ((λ h t. refl), λ h. refl)
terminal_iff_stuck OrderStatus.cancelled = ((λ h t. refl), λ h. refl)
terminal_iff_stuck OrderStatus.rejected = ((λ h t. refl), λ h. refl)
terminal_iff_stuck OrderStatus.expired = ((λ h t. refl), λ h. refl)
terminal_iff_stuck OrderStatus.reconcile_unresolved = ((λ h t. refl), λ h. refl)
terminal_iff_stuck _ = ((λ h. cc), λ h. cc (h OrderStatus.reconcile_unresolved))

-- One call of `transition`.
pub record Attempt : Type 0 where
  pub now : ℕ
  pub target : OrderStatus
  pub details : Details

-- The order that a call leaves behind: a refused one leaves it as it was.
abbrev pub after : Order → Result Order → Order
after o (ok o') = o'
after o (err e) = o

unfoldable pub attempt : Attempt → Order → Order
attempt a o = after o (transition a.now a.target a.details o)

unfoldable pub run : List Attempt → Order → Order
run [] o = o
run (a ∷ rest) o = run rest (attempt a o)

attempt_of_terminal : (a : Attempt) (o : Order) → is_terminal o.status ≡ true → attempt a o ≡ o
unfolding attempt transition
attempt_of_terminal a o h = rw ((terminal_iff_stuck o.status).0 h a.target)

-- Whatever is attempted on an order in a terminal status, no field of it changes.
pub terminal_absorbs :
    (calls : List Attempt) (o : Order) → is_terminal o.status ≡ true → run calls o ≡ o
unfolding run
terminal_absorbs [] o h = refl
terminal_absorbs (a ∷ rest) o h = rw (attempt_of_terminal a o h) (terminal_absorbs rest o h)

abbrev is_filled : OrderStatus → Bool
is_filled OrderStatus.filled = true
is_filled _ = false

abbrev IsStamped : Order → Type 0
IsStamped o = is_some o.filled_ts ≡ is_filled o.status

attempt-IsStamped : (a : Attempt) (o : Order) → IsStamped o → IsStamped (attempt a o)
unfolding attempt transition assign can_transition
attempt-IsStamped a o h = ground arith

-- If an order has its time of filling exactly when it is FILLED, it still does after any calls.
pub run-IsStamped :
    (calls : List Attempt) (o : Order)
    → is_some o.filled_ts ≡ is_filled o.status
    → is_some (run calls o).filled_ts ≡ is_filled (run calls o).status
unfolding run
run-IsStamped [] o h = h
run-IsStamped (a ∷ rest) o h = run-IsStamped rest (attempt a o) (attempt-IsStamped a o h)

-- The statuses of an order that was never sent to the exchange.
abbrev pub is_unsent : OrderStatus → Bool
is_unsent OrderStatus.pending_new = true
is_unsent OrderStatus.rejected = true
is_unsent OrderStatus.reconcile_unresolved = true
is_unsent _ = false

-- Whether a series of calls has one that asks for SUBMITTED.
abbrev pub Submits : List Attempt → Type 0
Submits [] = ⊥
Submits (a ∷ rest) = (a.target ≡ OrderStatus.submitted) ⊎ Submits rest

attempt_unsent :
    (a : Attempt) (o : Order)
    → is_unsent o.status ≡ true
    → (a.target ≡ OrderStatus.submitted) ⊎ (is_unsent (attempt a o).status ≡ true)
unfolding attempt transition assign can_transition
attempt_unsent a o h = ground arith

-- An order that was never sent and now has a status that only the exchange can have caused was
-- moved to SUBMITTED by one of the calls.
pub sent_needs_submitted :
    (calls : List Attempt) (o : Order)
    → is_unsent o.status ≡ true
    → is_unsent (run calls o).status ≡ false
    → Submits calls
unfolding run
sent_needs_submitted [] o h l = cc
sent_needs_submitted (a ∷ rest) o h l = elim (attempt_unsent a o h) [
  | inl p ↦ inl p
  | inr q ↦ inr (sent_needs_submitted rest (attempt a o) q l)
]

-- The conditional table as a relation, and its closure.
pub data ReachConditional (s : Option ConditionalStatus) : Option ConditionalStatus → Type 0 where
  here : ReachConditional s s
  step :
      {t : Option ConditionalStatus} {u : ConditionalStatus}
      → ReachConditional s t
      → Conditional.can_transition t u ≡ true
      → ReachConditional s (some u)

step_of_terminal :
    (s : Option ConditionalStatus) (u : ConditionalStatus)
    → is_conditional_terminal s ≡ true
    → Conditional.can_transition s u ≡ true
    → some u ≡ s
unfolding Conditional.can_transition
step_of_terminal s u h e = ground arith

-- A conditional order that has ended is never given another conditional status.
pub conditional_terminal_absorbs :
    {s t : Option ConditionalStatus}
    → is_conditional_terminal s ≡ true
    → ReachConditional s t
    → t ≡ s
conditional_terminal_absorbs h here = refl
conditional_terminal_absorbs {s} h (step {t = t} {u = u} r e) =
    let same : t ≡ s = conditional_terminal_absorbs h r in
    step_of_terminal t u (ap is_conditional_terminal same ∙ h) e ∙ same
