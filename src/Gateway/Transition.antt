-- ===== src/Gateway/Transition.antt =====
-- gateway/transition_service.py.
use crypto_derivative_algo_t.Prelude.{
  ℕ, String, Bool, true, false, not, ◌&&◌, Option, none, some, List, [], ◌∷◌, ◌==◌, string_eq,
  if◌then◌else◌, strip, take_chars, or_else,
}
use crypto_derivative_algo_t.Schema.Enums.{
  OrderStatus, ConditionalStatus, RejectReason, order_status_eq, conditional_status_eq,
}
use crypto_derivative_algo_t.Schema.Statuses.{is_terminal, is_conditional_terminal}
use crypto_derivative_algo_t.Schema.Order.{
  Origin, Progress, Order, OrderRequest, order_version_initial,
}
use crypto_derivative_algo_t.Schema.Validate.{normalize_order}
use crypto_derivative_algo_t.Failure.{
  Failure, Result, ok, err, ErrorCode, value_error, stale_order_version,
}
use crypto_derivative_algo_t.StateMachine.OrderStatus.{assert_can_transition}
use crypto_derivative_algo_t.StateMachine.Conditional
use crypto_derivative_algo_t.Store.Action.{
  Action, pure, raise, lift, gets, ◌>>=◌, ◌>>◌, try_except, epoch_ms, generate_order_id,
}
use crypto_derivative_algo_t.Service.OrderState.{create_order, transition_order, load_order}

-- _sanitize_detail_msg, with _DETAIL_MSG_MAX_LEN
unfoldable pub sanitize_detail_msg : Option String → Option String
sanitize_detail_msg none = none
sanitize_detail_msg (some raw) =
    let text = strip raw in if text == "" then none else some (take_chars 8192 text)

-- One keyword argument of `**fields`: a field of Order with its value, or another key.
pub data Update : Type 0 where
  submitted_ts acknowledged_ts cancelled_ts : Option ℕ → Update
  exchange_order_id exchange_conditional_id exchange_conditional_status : Option String → Update
  triggered_order_id triggered_client_order_id : Option String → Update
  filled_quantity avg_fill_price : String → Update
  conditional_status : Option ConditionalStatus → Update
  reject_reason : Option RejectReason → Update
  exchange_error_code : Option ErrorCode → Update
  detail_msg raw_exchange_response : Option String → Update
  other : Option String → Update

-- setattr(candidate, key, value), and the ValueError for a key that is no field.
unfoldable pub set_field : Update → Progress → Result Progress
set_field (submitted_ts v) p = ok (record p { submitted_ts = v })
set_field (acknowledged_ts v) p = ok (record p { acknowledged_ts = v })
set_field (cancelled_ts v) p = ok (record p { cancelled_ts = v })
set_field (exchange_order_id v) p = ok (record p { exchange_order_id = v })
set_field (exchange_conditional_id v) p = ok (record p { exchange_conditional_id = v })
set_field (exchange_conditional_status v) p = ok (record p { exchange_conditional_status = v })
set_field (triggered_order_id v) p = ok (record p { triggered_order_id = v })
set_field (triggered_client_order_id v) p = ok (record p { triggered_client_order_id = v })
set_field (filled_quantity v) p = ok (record p { filled_quantity = v })
set_field (avg_fill_price v) p = ok (record p { avg_fill_price = v })
set_field (conditional_status v) p = ok (record p { conditional_status = v })
set_field (reject_reason v) p = ok (record p { reject_reason = v })
set_field (exchange_error_code v) p = ok (record p { exchange_error_code = v })
set_field (detail_msg v) p = ok (record p { detail_msg = v })
set_field (raw_exchange_response v) p = ok (record p { raw_exchange_response = v })
set_field (other v) p = err value_error

abbrev and_then : Result Progress → (Progress → Result Progress) → Result Progress
and_then (ok p) f = f p
and_then (err e) f = err e

unfoldable pub set_fields : List Update → Progress → Result Progress
set_fields [] p = ok p
set_fields (u ∷ rest) p = and_then (set_field u p) (set_fields rest)

-- Whether the value is None, which `_set_conditional_status` passes over.
abbrev is_absent : Update → Bool
is_absent (submitted_ts none) = true
is_absent (acknowledged_ts none) = true
is_absent (cancelled_ts none) = true
is_absent (exchange_order_id none) = true
is_absent (exchange_conditional_id none) = true
is_absent (exchange_conditional_status none) = true
is_absent (triggered_order_id none) = true
is_absent (triggered_client_order_id none) = true
is_absent (conditional_status none) = true
is_absent (reject_reason none) = true
is_absent (exchange_error_code none) = true
is_absent (detail_msg none) = true
is_absent (raw_exchange_response none) = true
is_absent (other none) = true
is_absent _ = false

unfoldable pub present : List Update → List Update
present [] = []
present (u ∷ rest) = if is_absent u then present rest else u ∷ present rest

-- FILLED gets its time if it has none.
unfoldable pub stamp_filled : ℕ → Progress → Progress
stamp_filled now p =
    if p.status == OrderStatus.filled
    then record p { filled_ts = or_else p.filled_ts (some now) }
    else p

abbrev stamped : ℕ → Result Progress → Result Progress
stamped now (ok p) = ok (stamp_filled now p)
stamped now (err e) = err e

-- The progress of the candidate.
unfoldable pub candidate_progress : ℕ → OrderStatus → List Update → Progress → Result Progress
candidate_progress now status fields p =
    stamped now (set_fields fields (record p { status = status; updated_ts = now }))

abbrev reloaded_or : Order → Option Order → Order
reloaded_or o none = o
reloaded_or o (some reloaded) = reloaded

-- The `except StaleOrderVersionError` of `_set_status`.
unfoldable pub on_stale : Order → Failure → Action Order
on_stale o (stale_order_version expected actual status) = do
  reloaded ← load_order o.order_id true
  pure (reloaded_or o reloaded)
on_stale o e = raise e

abbrev pub is_protected : Bool → Order → OrderStatus → Bool
is_protected protect_terminal o status =
    protect_terminal && is_terminal o.status && not (o.status == status)

unfoldable pub apply_status : ℕ → Order → OrderStatus → Bool → List Update → Action Order
apply_status now o status use_machine fields = do
  lift (if use_machine then assert_can_transition o.status status else ok tt)
  p ← lift (candidate_progress now status fields o.progress)
  try_except (transition_order o (record o { progress = p })) (on_stale o)

-- _set_status
unfoldable pub set_status : Order → OrderStatus → Bool → Bool → List Update → Action Order
set_status o status use_machine protect_terminal fields = do
  now ← epoch_ms
  if is_protected protect_terminal o status
      then pure o
      else apply_status now o status use_machine fields

abbrev differs : Option ConditionalStatus → ConditionalStatus → Bool
differs none target = true
differs (some current) target = not (current == target)

-- TRIGGERED gets its time if it has none.
unfoldable pub stamp_triggered : ℕ → ConditionalStatus → Progress → Progress
stamp_triggered now target p =
    if target == ConditionalStatus.triggered
    then record p { triggered_ts = or_else p.triggered_ts (some now) }
    else p

abbrev pub is_protected_conditional : Bool → Order → ConditionalStatus → Bool
is_protected_conditional protect_terminal o target =
    protect_terminal
    && is_conditional_terminal o.conditional_status
    && differs o.conditional_status target

unfoldable pub apply_conditional_status :
    ℕ → Order → ConditionalStatus → Bool → List Update → Action Order
apply_conditional_status now o target use_machine fields = do
  lift
      (if use_machine then Conditional.assert_can_transition o.conditional_status target else ok tt)
  p ← lift (
      set_fields (present fields)
        (record o.progress { conditional_status = some target; updated_ts = now }))
  transition_order o (record o { progress = stamp_triggered now target p })

-- _set_conditional_status
unfoldable pub set_conditional_status :
    Order → ConditionalStatus → Bool → Bool → List Update → Action Order
set_conditional_status o target use_machine protect_terminal fields = do
  now ← epoch_ms
  if is_protected_conditional protect_terminal o target
      then pure o
      else apply_conditional_status now o target use_machine fields

-- _mark_rejected
unfoldable pub mark_rejected :
    Order → RejectReason → Option ErrorCode → Option String → Action Order
mark_rejected o reason code detail = set_status o OrderStatus.rejected true true (
    reject_reason (some reason)
    ∷ exchange_error_code code
    ∷ detail_msg (sanitize_detail_msg detail)
    ∷ [])

-- _mark_unknown
unfoldable pub mark_unknown : Order → Action Order
mark_unknown o =
    set_status o OrderStatus.unknown true true
      (reject_reason (some RejectReason.unknown_execution) ∷ [])

-- The defaults of a new Order.
unfoldable pub initial_progress : ℕ → Progress
initial_progress now = record {
  status = OrderStatus.pending_new;
  client_order_id = none;
  exchange_order_id = none;
  client_conditional_id = none;
  exchange_conditional_id = none;
  conditional_status = none;
  exchange_conditional_status = none;
  triggered_order_id = none;
  triggered_client_order_id = none;
  reject_reason = none;
  exchange_error_code = none;
  detail_msg = none;
  filled_quantity = "0";
  avg_fill_price = "0";
  submitted_ts = none;
  acknowledged_ts = none;
  triggered_ts = none;
  filled_ts = none;
  cancelled_ts = none;
  expired_ts = none;
  updated_ts = now;
  raw_exchange_response = none;
}

-- The Order that `create_internal_order` builds, before its validator runs.
unfoldable pub internal_order : ℕ → OrderRequest → Origin → Order
internal_order now req origin = record {
  order_id = "";
  origin = origin;
  terms = req.terms;
  progress = initial_progress now;
  created_ts = now;
  version = order_version_initial;
}

-- create_internal_order. The validator asks for a new id only when the checks have passed.
unfoldable pub create_internal_order : OrderRequest → Origin → Action Order
create_internal_order req origin = do
  now ← epoch_ms
  fresh ← gets (λ w. w.new_ids w.ids)
  order ← lift (normalize_order fresh (internal_order now req origin))
  generate_order_id
  create_order order
