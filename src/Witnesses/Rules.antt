-- ===== src/Witnesses/Rules.antt =====
-- Properties of the schema and the state machines, at concrete inputs.
use crypto_derivative_algo_t.Prelude.{
  ◌≡◌, ◌↔◌, refl, String, string_eq, true, false, ==_iff, none, some, [], ◌∷◌, arith,
}
use crypto_derivative_algo_t.Schema.Enums.{OrderStatus}
use crypto_derivative_algo_t.Schema.Statuses.{is_terminal}
use crypto_derivative_algo_t.Schema.Validate.{normalize_terms, normalize_order}
use crypto_derivative_algo_t.Schema.Normal.{
  IsWellFormed, IsNormal, IsAccepted, normalize_terms_iff, normalize_order-IsNormal,
  normalize_order_fixes, normalize_request-IsAccepted,
}
use crypto_derivative_algo_t.Failure.{ok}
use crypto_derivative_algo_t.StateMachine.OrderStatus.{can_transition, transition, assign}
use crypto_derivative_algo_t.StateMachine.Graph.{
  Attempt, attempt, run, Submits, terminal_iff_stuck, sent_needs_submitted,
}
use crypto_derivative_algo_t.Samples.{terms, request}
use crypto_derivative_algo_t.Samples.{fresh, normal, request_accepted}

normalize_terms_iff_example : (normalize_terms terms ≡ ok terms) ↔ IsWellFormed terms
normalize_terms_iff_example = normalize_terms_iff terms

normalize_order-IsNormal_example : IsNormal fresh
normalize_order-IsNormal_example =
    normalize_order-IsNormal "B2" fresh fresh (ground (arith, ==_iff {A = String} "B2" ""))
      (normalize_order_fixes "B2" fresh normal)

normalize_order_fixes_example : normalize_order "B2" fresh ≡ ok fresh
normalize_order_fixes_example = normalize_order_fixes "B2" fresh normal

normalize_request-IsAccepted_example : IsAccepted request request
normalize_request-IsAccepted_example = normalize_request-IsAccepted request request request_accepted

abbrev attempt_to : OrderStatus → Attempt
attempt_to s = record {
  now = 9;
  target = s;
  details = record {
    exchange_order_id = some "X9";
    reject_reason = none;
    filled_quantity = none;
    avg_fill_price = none;
  };
}

terminal_iff_stuck_example :
    (is_terminal OrderStatus.filled ≡ true)
    ↔ ((t : OrderStatus) → can_transition OrderStatus.filled t ≡ false)
terminal_iff_stuck_example = terminal_iff_stuck OrderStatus.filled

sent_needs_submitted_example : Submits (attempt_to OrderStatus.submitted ∷ [])
unfolding run attempt transition can_transition assign
sent_needs_submitted_example =
    sent_needs_submitted (attempt_to OrderStatus.submitted ∷ []) fresh refl refl
