-- ===== src/Gateway/Cancellation/Batch.antt =====
-- gateway/cancellation_service.py: `cancel_batch_orders`. The module's own messages of a result are
-- not kept. The dictionaries are lists with the newest entry first.
use crypto_derivative_algo_t.Prelude.{
  String, Bool, true, false, not, ◌||◌, Option, none, some, List, [], ◌∷◌, ◌++◌, ◌==◌, string_eq,
  nat_eq, if◌then◌else◌, upper,
}
use crypto_derivative_algo_t.Schema.Enums.{
  Exchange, MarketType, OrderRoute, OrderStatus, ConditionalStatus, exchange_eq, market_type_eq,
  regular,
}
use crypto_derivative_algo_t.Schema.Statuses.{is_terminal}
use crypto_derivative_algo_t.Schema.Order.{Order}
use crypto_derivative_algo_t.Failure.{
  value_error, CancelSkipReason, local_order_not_found, conditional_order_not_cancelable, ErrorCode,
}
use crypto_derivative_algo_t.Store.Action.{Action, pure, ◌>>=◌, ◌>>◌, raise_if}
use crypto_derivative_algo_t.Service.OrderState.{load_order}
use crypto_derivative_algo_t.Gateway.Transition.{set_status}
use crypto_derivative_algo_t.Gateway.Cancellation.{terminal_cancel_skip_reason}

-- BatchCancelResultStatus
pub data CancelOutcome : Type 0 where
  cancelled skipped failed unknown : CancelOutcome

-- CancelBatchOrderResp
pub record CancelResponse : Type 0 where
  pub order_id : String
  pub result : CancelOutcome
  pub reason : Option CancelSkipReason
  pub status : Option OrderStatus
  pub conditional_status : Option ConditionalStatus
  pub client_order_id : Option String
  pub exchange_order_id : Option String
  pub code : Option ErrorCode
  pub message : Option String
  pub raw : Option String

abbrev pub missing_response : String → CancelResponse
missing_response k = record {
  order_id = k;
  result = skipped;
  reason = some local_order_not_found;
  status = none;
  conditional_status = none;
  client_order_id = none;
  exchange_order_id = none;
  code = none;
  message = none;
  raw = none;
}

-- A result that repeats what the order says.
abbrev pub order_response : Order → CancelOutcome → Option CancelSkipReason → CancelResponse
order_response o result reason = record {
  order_id = o.order_id;
  result = result;
  reason = reason;
  status = some o.status;
  conditional_status = o.conditional_status;
  client_order_id = o.client_order_id;
  exchange_order_id = o.exchange_order_id;
  code = none;
  message = none;
  raw = none;
}

-- results_by_order_id
abbrev pub Responses : Type 0
Responses = List (String × CancelResponse)

-- A dictionary: the newest entry of a key stands.
unfoldable pub find_key : {A : Type 0} → String → List (String × A) → Option A
find_key k [] = none
find_key k ((j, v) ∷ rest) = if j == k then some v else find_key k rest

pub record Checked : Type 0 where
  pub eligible : List Order
  pub previous : List (String × OrderStatus)
  pub responses : Responses

abbrev pub respond : String → CancelResponse → Checked → Checked
respond k r c = record c { responses = (k, r) ∷ c.responses }

abbrev pub is_regular : Option OrderRoute → Bool
is_regular (some regular) = true
is_regular _ = false

-- The checks of one id, once its order has been looked up.
unfoldable pub check_found :
    Exchange → MarketType → String → String → Option Order → Checked → Action Checked
check_found exchange market_type symbol k none c = pure (respond k (missing_response k) c)
check_found exchange market_type symbol k (some o) c =
    if is_terminal o.status
    then pure (respond k (order_response o skipped (some (terminal_cancel_skip_reason o.status))) c)
    else (do
      raise_if (not (o.exchange == exchange) || not (o.market_type == market_type)) value_error
      raise_if (not (upper o.symbol == symbol)) value_error
      pure (
          if is_regular o.order_route
          then record c {
            eligible = c.eligible ++ o ∷ [];
            previous = (o.order_id, o.status) ∷ c.previous;
          }
          else respond k (order_response o skipped (some conditional_order_not_cancelable)) c))

unfoldable pub check_batch : Exchange → MarketType → String → List String → Checked → Action Checked
check_batch exchange market_type symbol [] c = pure c
check_batch exchange market_type symbol (k ∷ rest) c = do
  found ← load_order k true
  c' ← check_found exchange market_type symbol k found c
  check_batch exchange market_type symbol rest c'

pub record Pending : Type 0 where
  pub pending : List Order
  pub responses : Responses

unfoldable pub set_pending : Order → Option Order → Pending → Action Pending
set_pending o none p =
    pure (record p { responses = (o.order_id, missing_response o.order_id) ∷ p.responses })
set_pending o (some latest) p =
    if is_terminal latest.status
    then pure (record p {
      responses =
          (
            o.order_id,
            order_response latest skipped (some (terminal_cancel_skip_reason latest.status)),
          )
          ∷ p.responses;
    })
    else (do
      o' ← set_status latest OrderStatus.pending_cancel true true []
      pure (record p { pending = p.pending ++ o' ∷ [] }))

-- The loop that moves the eligible orders to PENDING_CANCEL.
unfoldable pub set_all_pending : List Order → Pending → Action Pending
set_all_pending [] p = pure p
set_all_pending (o ∷ rest) p = do
  latest ← load_order o.order_id true
  p' ← set_pending o latest p
  set_all_pending rest p'
