-- ===== src/Gateway/Cancellation/Answers.antt =====
-- gateway/cancellation_service.py: what `cancel_batch_orders` does with the answers of the exchange.
use crypto_derivative_algo_t.Prelude.{
  String, Bool, true, false, not, Option, none, some, List, [], ◌∷◌, ◌==◌, string_eq, nat_eq,
  if◌then◌else◌, or_else, text_or,
}
use crypto_derivative_algo_t.Schema.Enums.{OrderStatus, ConditionalStatus}
use crypto_derivative_algo_t.Schema.Statuses.{is_terminal}
use crypto_derivative_algo_t.Schema.Order.{Order}
use crypto_derivative_algo_t.Failure.{ErrorCode, minus}
use crypto_derivative_algo_t.Store.Action.{Action, pure, ◌>>=◌, ◌>>◌, epoch_ms}
use crypto_derivative_algo_t.Service.OrderState.{load_order}
use crypto_derivative_algo_t.Gateway.Transition.{
  cancelled_ts, raw_exchange_response, set_status, mark_unknown,
}
use crypto_derivative_algo_t.Gateway.Client.{CancelItem}
use crypto_derivative_algo_t.Gateway.Batch.{is_member, find_by_client_id}
use crypto_derivative_algo_t.Gateway.Cancellation.Batch.{
  CancelOutcome, CancelResponse, Responses, find_key,
}

abbrev pub Previous : Type 0
Previous = List (String × OrderStatus)

-- pending_by_exchange_id: of two orders with one exchange id, the later one stands.
unfoldable pub find_by_exchange_id : String → List Order → Option Order
find_by_exchange_id k [] = none
find_by_exchange_id k (o ∷ rest) = elim (find_by_exchange_id k rest) [
  | some later ↦ some later
  | none ↦ if text_or o.exchange_order_id "" == k then some o else none
]

-- `if key: found = index.get(key)`
abbrev look_up : (String → List Order → Option Order) → Option String → List Order → Option Order
look_up find none pending = none
look_up find (some k) pending = if k == "" then none else find k pending

unfoldable pub match_order : CancelItem → List Order → Option Order
match_order i pending =
    or_else (look_up find_by_client_id i.client_order_id pending)
      (look_up find_by_exchange_id i.exchange_order_id pending)

-- `isinstance(code, int) and code < 0`
unfoldable pub is_refusal : Option ErrorCode → Bool
is_refusal (some (minus n)) = not (n == 0)
is_refusal _ = false

abbrev status_of : Option Order → Option OrderStatus
status_of none = none
status_of (some o) = some o.status

abbrev conditional_of : Option Order → Option ConditionalStatus
conditional_of none = none
conditional_of (some o) = o.conditional_status

-- Back to a status that the order had before, also over a terminal one.
unfoldable pub restore_to : Order → Option OrderStatus → Action (Unit {0})
restore_to latest none = pure tt
restore_to latest (some status) = set_status latest status false false [] >> pure tt

unfoldable pub restore : Previous → String → Option Order → Action (Unit {0})
restore previous k none = pure tt
restore previous k (some latest) = restore_to latest (find_key k previous)

unfoldable pub mark_open_unknown : Option Order → Action (Unit {0})
mark_open_unknown none = pure tt
mark_open_unknown (some latest) =
    if is_terminal latest.status then pure tt else mark_unknown latest >> pure tt

unfoldable pub cancel_latest : CancelItem → Option Order → Action (Unit {0})
cancel_latest i none = pure tt
cancel_latest i (some latest) = do
  now ← epoch_ms
  set_status latest OrderStatus.cancelled true true
      (cancelled_ts (some now) ∷ raw_exchange_response (some i.raw) ∷ [])
  pure tt

abbrev item_response : Order → CancelItem → CancelOutcome → Option Order → CancelResponse
item_response o i result latest = record {
  order_id = o.order_id;
  result = result;
  reason = none;
  status = status_of latest;
  conditional_status = conditional_of latest;
  client_order_id = i.client_order_id;
  exchange_order_id = i.exchange_order_id;
  code = none;
  message = none;
  raw = some i.raw;
}

-- What one answer does to its order.
unfoldable pub apply_answer : Previous → Order → CancelItem → Option Order → Action CancelResponse
apply_answer previous o i latest =
    if i.unknown_execution
    then (do mark_open_unknown latest; pure (item_response o i CancelOutcome.unknown latest))
    else if is_refusal i.code
    then (do
      restore previous o.order_id latest
      pure (record (item_response o i CancelOutcome.failed latest) {
        code = i.code;
        message = i.message;
      }))
    else (do
      cancel_latest i latest
      pure (record (item_response o i CancelOutcome.cancelled none) {
        status = some OrderStatus.cancelled;
      }))

pub record Answered : Type 0 where
  pub matched : List String
  pub responses : Responses

unfoldable pub apply_matched : Previous → CancelItem → Option Order → Answered → Action Answered
apply_matched previous i none a = pure a
apply_matched previous i (some o) a = do
  latest ← load_order o.order_id true
  r ← apply_answer previous o i latest
  pure (record { matched = o.order_id ∷ a.matched; responses = (o.order_id, r) ∷ a.responses })

unfoldable pub apply_answers : Previous → List Order → List CancelItem → Answered → Action Answered
apply_answers previous pending [] a = pure a
apply_answers previous pending (i ∷ rest) a = do
  a' ← apply_matched previous i (match_order i pending) a
  apply_answers previous pending rest a'

abbrev unanswered : Order → Option Order → CancelResponse
unanswered o latest = record {
  order_id = o.order_id;
  result = CancelOutcome.unknown;
  reason = none;
  status = status_of latest;
  conditional_status = conditional_of latest;
  client_order_id = o.client_order_id;
  exchange_order_id = o.exchange_order_id;
  code = none;
  message = none;
  raw = none;
}

unfoldable pub mark_if_unanswered : Order → Answered → Action Answered
mark_if_unanswered o a = if is_member o.order_id a.matched then pure a else (do
  latest ← load_order o.order_id true
  mark_open_unknown latest
  pure (record a { responses = (o.order_id, unanswered o latest) ∷ a.responses }))

-- The loop over the orders without an answer.
unfoldable pub mark_unanswered : List Order → Answered → Action Responses
mark_unanswered [] a = pure a.responses
mark_unanswered (o ∷ rest) a = do a' ← mark_if_unanswered o a; mark_unanswered rest a'
