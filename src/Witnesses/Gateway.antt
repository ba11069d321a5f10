-- ===== src/Witnesses/Gateway.antt =====
-- Properties of the services of one order, at concrete inputs.
use crypto_derivative_algo_t.Prelude.{
  ◌∷◌, [], ◌≡◌, refl, subst, String, string_eq, true, ==_iff, some, [], arith, List, ◌⊎◌,
}
use crypto_derivative_algo_t.Schema.Enums
use crypto_derivative_algo_t.Schema.Enums.{Exchange, MarketType, OrderStatus}
use crypto_derivative_algo_t.Schema.Order.{Order}
use crypto_derivative_algo_t.Schema.Validate.{normalize_order}
use crypto_derivative_algo_t.Failure.{ok-injective, ok}
use crypto_derivative_algo_t.StateMachine.OrderStatus.{can_transition}
use crypto_derivative_algo_t.Store.Tables.{
  Tables, order_row, find_order, find_intent, update_order, joined,
}
use crypto_derivative_algo_t.Store.Action.{World}
use crypto_derivative_algo_t.Service.Repository.{find_joined}
use crypto_derivative_algo_t.Service.OrderState.{transition_rows, create_order, transition_order}
use crypto_derivative_algo_t.Service.Keeps.{Keeps, Keeps-pure, Keeps-raise}
use crypto_derivative_algo_t.Service.Agreement.{IsConsistent}
use crypto_derivative_algo_t.Service.Consistency.{
  transition_order-IsConsistent, create_order-IsConsistent,
}
use crypto_derivative_algo_t.Gateway.Transition.{set_status, internal_order}
use crypto_derivative_algo_t.Gateway.Client.{ExchangeClient}
use crypto_derivative_algo_t.Gateway.StatusChange.{StatusPost, Written, set_status_post}
use crypto_derivative_algo_t.Gateway.Conflict.{
  Write, WroteOne, run_writes, one_writer_wins, update_reads_back,
}
use crypto_derivative_algo_t.Gateway.Outcomes.{SubmitOutcome, submit_created_ends}
use crypto_derivative_algo_t.Gateway.Intake.{IsFromRequest, internal_order_accepted}
use crypto_derivative_algo_t.Gateway.Submission.{submit_order, submit_created}
use crypto_derivative_algo_t.Gateway.Cancellation.{cancel_order}
use crypto_derivative_algo_t.Gateway.Consistency.{IsOrderly}
use crypto_derivative_algo_t.Gateway.Consistency.Submit.{submit_order-IsConsistent}
use crypto_derivative_algo_t.Gateway.Consistency.CancelAll.{cancellations-IsConsistent}
use crypto_derivative_algo_t.Gateway.Cancellation.Chunks.{cancel_batch_orders}
use crypto_derivative_algo_t.Gateway.Cancellation.All.{cancel_all_open_orders}
use crypto_derivative_algo_t.Samples.{
  origin, request, order_at, empty_world, holding, taker, always_taker, name_failure,
}
use crypto_derivative_algo_t.Samples.{fresh, filled, request_accepted, acked}

empty-IsConsistent : IsConsistent empty_world
unfolding find_order
empty-IsConsistent = record {
  events_match = λ k. refl;
  projection_behind = λ k. omega arith;
  copies_agree = record { keyed = λ k l e. cc; same_status = λ k l r e f v. cc };
}

created-IsConsistent : IsConsistent (create_order fresh empty_world).1
created-IsConsistent = (create_order-IsConsistent fresh refl).keeps empty_world empty-IsConsistent

create_order-IsConsistent_example : Keeps IsConsistent (create_order fresh)
create_order-IsConsistent_example = create_order-IsConsistent fresh refl

transition_order-IsConsistent_example : Keeps IsConsistent (transition_order fresh filled)
transition_order-IsConsistent_example = transition_order-IsConsistent fresh filled

taker-IsOrderly : IsOrderly taker
taker-IsOrderly = record {
  cancels_batch = λ orders. Keeps-raise _;
  cancels_all = λ symbol. Keeps-raise _;
  cancels_all_conditional = λ symbol. Keeps-raise _;
  places = λ o. Keeps-pure _;
  places_conditional = λ o. Keeps-raise _;
  cancels = λ o. Keeps-raise _;
  levers = λ symbol leverage. Keeps-pure _;
}

always-IsOrderly :
    (e : Exchange) (m : MarketType) (client : ExchangeClient)
    → always_taker e m ≡ ok client
    → IsOrderly client
always-IsOrderly e m client h = subst IsOrderly (ok-injective h) taker-IsOrderly

submit_order-IsConsistent_example :
    Keeps IsConsistent (submit_order always_taker name_failure request origin)
submit_order-IsConsistent_example =
    submit_order-IsConsistent always_taker always-IsOrderly name_failure request origin

cancellations-IsConsistent_example :
    Keeps IsConsistent (cancel_order always_taker "A1")
    × Keeps IsConsistent
        (cancel_batch_orders always_taker Enums.binance Enums.perp "btcusdt" ("A1" ∷ "B2" ∷ []))
    × Keeps IsConsistent (cancel_all_open_orders always_taker Enums.binance Enums.perp "btcusdt")
cancellations-IsConsistent_example =
    cancellations-IsConsistent always_taker always-IsOrderly Enums.binance Enums.perp "btcusdt" "A1"
      ("A1" ∷ "B2" ∷ [])

set_status_post_example :
    StatusPost fresh OrderStatus.submitted true true
      (holding fresh).tables
      (set_status fresh OrderStatus.submitted true true [] (holding fresh))
set_status_post_example = set_status_post fresh OrderStatus.submitted true true [] (holding fresh)

submit_created_ends_example :
    SubmitOutcome always_taker name_failure fresh
      (holding fresh).tables
      (submit_created always_taker name_failure fresh (holding fresh))
submit_created_ends_example = submit_created_ends always_taker name_failure fresh (holding fresh)

abbrev submitted : Order
submitted = record (order_at OrderStatus.submitted 2) {
  progress = record (order_at OrderStatus.submitted 2).progress { updated_ts = 100 };
}

abbrev after_submitted : Tables
after_submitted = (transition_rows fresh submitted (holding fresh)).1.tables

submitted-Written :
    Written fresh OrderStatus.submitted true submitted (holding fresh).tables after_submitted
unfolding transition_rows find_order can_transition update_order
submitted-Written = record {
  row = order_row (λ s. s) fresh;
  found = refl;
  known = refl;
  same_order = refl;
  status_is = refl;
  allowed = refl;
  tables_are = refl;
}

abbrev write_of : OrderStatus → Write
write_of s = record {
  order = fresh;
  status = s;
  use_machine = true;
  protect_terminal = true;
  fields = [];
}

abbrev two_writes : List Write
two_writes = write_of OrderStatus.submitted ∷ write_of OrderStatus.rejected ∷ []

one_writer_wins_example :
    ((run_writes two_writes (holding fresh)).tables ≡ (holding fresh).tables)
    ⊎ WroteOne two_writes (holding fresh).tables (run_writes two_writes (holding fresh)).tables
unfolding find_order
one_writer_wins_example =
    one_writer_wins "A1" 1 two_writes (holding fresh)
      ((refl, omega arith), ((refl, omega arith), tt)) (omega arith)

update_reads_back_example : find_joined "A1" after_submitted ≡ some submitted
unfolding find_joined find_order find_intent joined
update_reads_back_example =
    update_reads_back fresh submitted OrderStatus.submitted true (holding fresh).tables
      after_submitted submitted-Written refl

internal_order_accepted_example :
    (o : Order) × (normalize_order "B2" (internal_order 100 request origin) ≡ ok o)
    × IsFromRequest "B2" 100 request origin o
internal_order_accepted_example =
    internal_order_accepted "B2" 100 request request origin
      (ground (arith, ==_iff {A = String} "B2" "")) request_accepted

abbrev pending : Order
pending = record (order_at OrderStatus.pending_cancel 4) {
  progress = record (order_at OrderStatus.pending_cancel 4).progress { updated_ts = 100 };
}

abbrev after_pending : World
after_pending = (set_status acked OrderStatus.pending_cancel true true [] (holding acked)).1
