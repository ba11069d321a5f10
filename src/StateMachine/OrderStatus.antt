-- ===== src/StateMachine/OrderStatus.antt =====
-- state_machine/order_state_machine.py. `transition` and `force_transition` rewrite the order that
-- the machine holds; the clock's reading is an argument.
use crypto_derivative_algo_t.Prelude.{
  ℕ, String, Bool, true, false, Option, none, some, or_else, if◌then◌else◌,
}
use crypto_derivative_algo_t.Schema.Enums.{OrderStatus, RejectReason}
use crypto_derivative_algo_t.Schema.Order.{Order}
use crypto_derivative_algo_t.Failure.{Result, ok, err, invalid_transition}

-- _VALID_TRANSITIONS, one function for each key.
abbrev from_pending_new : OrderStatus → Bool
from_pending_new OrderStatus.submitted = true
from_pending_new OrderStatus.rejected = true
from_pending_new OrderStatus.reconcile_unresolved = true
from_pending_new _ = false

abbrev from_submitted : OrderStatus → Bool
from_submitted OrderStatus.acknowledged = true
from_submitted OrderStatus.partially_filled = true
from_submitted OrderStatus.filled = true
from_submitted OrderStatus.rejected = true
from_submitted OrderStatus.expired = true
from_submitted OrderStatus.unknown = true
from_submitted OrderStatus.reconcile_unresolved = true
from_submitted _ = false

abbrev from_acknowledged : OrderStatus → Bool
from_acknowledged OrderStatus.partially_filled = true
from_acknowledged OrderStatus.filled = true
from_acknowledged OrderStatus.pending_cancel = true
from_acknowledged OrderStatus.cancelled = true
from_acknowledged OrderStatus.expired = true
from_acknowledged OrderStatus.unknown = true
from_acknowledged OrderStatus.reconcile_unresolved = true
from_acknowledged _ = false

abbrev from_partially_filled : OrderStatus → Bool
from_partially_filled OrderStatus.partially_filled = true
from_partially_filled OrderStatus.filled = true
from_partially_filled OrderStatus.pending_cancel = true
from_partially_filled OrderStatus.cancelled = true
from_partially_filled OrderStatus.expired = true
from_partially_filled OrderStatus.unknown = true
from_partially_filled OrderStatus.reconcile_unresolved = true
from_partially_filled _ = false

abbrev from_pending_cancel : OrderStatus → Bool
from_pending_cancel OrderStatus.acknowledged = true
from_pending_cancel OrderStatus.partially_filled = true
from_pending_cancel OrderStatus.filled = true
from_pending_cancel OrderStatus.cancelled = true
from_pending_cancel OrderStatus.expired = true
from_pending_cancel OrderStatus.unknown = true
from_pending_cancel OrderStatus.reconcile_unresolved = true
from_pending_cancel _ = false

abbrev from_unknown : OrderStatus → Bool
from_unknown OrderStatus.acknowledged = true
from_unknown OrderStatus.partially_filled = true
from_unknown OrderStatus.filled = true
from_unknown OrderStatus.cancelled = true
from_unknown OrderStatus.rejected = true
from_unknown OrderStatus.expired = true
from_unknown OrderStatus.reconcile_unresolved = true
from_unknown _ = false

-- can_transition, of the statuses alone; the terminal statuses have empty sets.
unfoldable pub can_transition : OrderStatus → OrderStatus → Bool
can_transition OrderStatus.pending_new target = from_pending_new target
can_transition OrderStatus.submitted target = from_submitted target
can_transition OrderStatus.acknowledged target = from_acknowledged target
can_transition OrderStatus.partially_filled target = from_partially_filled target
can_transition OrderStatus.pending_cancel target = from_pending_cancel target
can_transition OrderStatus.unknown target = from_unknown target
can_transition OrderStatus.filled target = false
can_transition OrderStatus.cancelled target = false
can_transition OrderStatus.rejected target = false
can_transition OrderStatus.expired target = false
can_transition OrderStatus.reconcile_unresolved target = false

unfoldable pub assert_can_transition : OrderStatus → OrderStatus → Result (Unit {0})
assert_can_transition current target =
    if can_transition current target then ok tt else err (invalid_transition current target)

-- The keyword arguments of `transition`; None leaves a field alone.
pub record Details : Type 0 where
  pub exchange_order_id : Option String
  pub reject_reason : Option RejectReason
  pub filled_quantity : Option String
  pub avg_fill_price : Option String

abbrev given {ℓ} : {A : Type ℓ} → Option A → A → A
given none old = old
given (some new) old = new

abbrev filled_at : OrderStatus → ℕ → Option ℕ → Option ℕ
filled_at OrderStatus.filled now old = some now
filled_at _ now old = old

-- The assignments that `transition` and `force_transition` share.
unfoldable pub assign : ℕ → OrderStatus → Details → Order → Order
assign now target d o = record o {
  progress = record o.progress {
    status = target;
    updated_ts = now;
    exchange_order_id = or_else d.exchange_order_id o.exchange_order_id;
    reject_reason = or_else d.reject_reason o.reject_reason;
    filled_quantity = given d.filled_quantity o.filled_quantity;
    avg_fill_price = given d.avg_fill_price o.avg_fill_price;
    filled_ts = filled_at target now o.filled_ts;
  };
}

unfoldable pub transition : ℕ → OrderStatus → Details → Order → Result Order
transition now target d o =
    if can_transition o.status target
    then ok (assign now target d o)
    else err (invalid_transition o.status target)

unfoldable pub force_transition : ℕ → OrderStatus → Details → Order → Order
force_transition now target d o = assign now target d o
