-- ===== src/StateMachine/Conditional.antt =====
-- state_machine/conditional_order_state_machine.py. The current status is None until the exchange
-- has reported one.
use crypto_derivative_algo_t.Prelude.{Bool, true, false, Option, none, some, ◌==◌, if◌then◌else◌}
use crypto_derivative_algo_t.Schema.Enums.{ConditionalStatus, conditional_status_eq}
use crypto_derivative_algo_t.Failure.{Result, ok, err, invalid_conditional_transition}

abbrev from_new : ConditionalStatus → Bool
from_new ConditionalStatus.active = true
from_new ConditionalStatus.triggered = true
from_new ConditionalStatus.cancelled = true
from_new ConditionalStatus.expired = true
from_new ConditionalStatus.rejected = true
from_new ConditionalStatus.unknown = true
from_new _ = false

abbrev from_active : ConditionalStatus → Bool
from_active ConditionalStatus.triggered = true
from_active ConditionalStatus.cancelled = true
from_active ConditionalStatus.expired = true
from_active ConditionalStatus.rejected = true
from_active ConditionalStatus.unknown = true
from_active _ = false

abbrev from_triggered : ConditionalStatus → Bool
from_triggered ConditionalStatus.finished = true
from_triggered ConditionalStatus.expired = true
from_triggered ConditionalStatus.rejected = true
from_triggered ConditionalStatus.unknown = true
from_triggered _ = false

abbrev from_unknown : ConditionalStatus → Bool
from_unknown ConditionalStatus.unknown = false
from_unknown _ = true

-- ALLOWED_TRANSITIONS: from None everything, from a terminal status nothing.
unfoldable pub allowed : Option ConditionalStatus → ConditionalStatus → Bool
allowed none target = true
allowed (some ConditionalStatus.new) target = from_new target
allowed (some ConditionalStatus.active) target = from_active target
allowed (some ConditionalStatus.triggered) target = from_triggered target
allowed (some ConditionalStatus.unknown) target = from_unknown target
allowed (some ConditionalStatus.finished) target = false
allowed (some ConditionalStatus.cancelled) target = false
allowed (some ConditionalStatus.expired) target = false
allowed (some ConditionalStatus.rejected) target = false

abbrev same : Option ConditionalStatus → ConditionalStatus → Bool
same none target = false
same (some current) target = current == target

unfoldable pub can_transition : Option ConditionalStatus → ConditionalStatus → Bool
unfolding allowed
can_transition current target = if same current target then true else allowed current target

unfoldable pub assert_can_transition :
    Option ConditionalStatus → ConditionalStatus → Result (Unit {0})
unfolding can_transition
assert_can_transition current target =
    if can_transition current target
    then ok tt
    else err (invalid_conditional_transition current target)
