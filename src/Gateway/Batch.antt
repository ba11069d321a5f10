-- ===== src/Gateway/Batch.antt =====
-- gateway/submission_service.py: `submit_batch_orders`. The list
-- `results` lives on when an exception leaves the `try` of a chunk, so a step that may raise inside
-- of it returns what it has appended together with the failure.
pub mod Consistency
pub mod Loops
use crypto_derivative_algo_t.Prelude.{
  ℕ, zero, suc, String, Bool, true, false, not, ◌&&◌, ◌||◌, Option, none, some, List, [], ◌∷◌, ◌++◌,
  ◌==◌, string_eq, nat_eq, if◌then◌else◌, text_or, upper, length, take, drop,
}
use crypto_derivative_algo_t.Schema.Enums.{
  Exchange, MarketType, OrderRoute, OrderStatus, RejectReason, exchange_eq, market_type_eq,
  conditional,
}
use crypto_derivative_algo_t.Schema.Order.{Origin, Order, OrderRequest}
use crypto_derivative_algo_t.Failure.{
  Failure, Result, ok, err, value_error, runtime_error, attribute_error, exchange_api_error,
  is_unknown_execution,
}
use crypto_derivative_algo_t.Store.Action.{
  World, Action, pure, raise, lift, ◌>>=◌, ◌>>◌, raise_if, try_except, epoch_ms,
}
use crypto_derivative_algo_t.Gateway.Transition.{
  submitted_ts, exchange_order_id, raw_exchange_response, set_status, mark_rejected, mark_unknown,
  create_internal_order,
}
use crypto_derivative_algo_t.Gateway.Client.{
  ExchangeClient, BatchItem, accepted, refused, map_exchange_error_to_reason,
}
use crypto_derivative_algo_t.Gateway.Leverage.{dedupe_symbol_leverage_updates, apply_updates}

abbrev is_conditional : Option OrderRoute → Bool
is_conditional (some conditional) = true
is_conditional _ = false

-- The loop that creates the orders.
unfoldable pub create_orders :
    Exchange → MarketType → Origin → List OrderRequest → Action (List Order)
create_orders exchange market_type origin [] = pure []
create_orders exchange market_type origin (r ∷ rest) = do
  raise_if (not (r.exchange == exchange) || not (r.market_type == market_type)) value_error
  raise_if (is_conditional r.order_route) runtime_error
  o ← create_internal_order r origin
  orders ← create_orders exchange market_type origin rest
  pure (o ∷ orders)

-- The loop that marks a chunk SUBMITTED.
unfoldable pub mark_submitted : List Order → Action (List Order)
mark_submitted [] = pure []
mark_submitted (o ∷ rest) = do
  now ← epoch_ms
  sent ← set_status o OrderStatus.submitted true true (submitted_ts (some now) ∷ [])
  others ← mark_submitted rest
  pure (sent ∷ others)

-- What has been appended to `results` in a chunk, which orders were matched, and the exception.
pub record Progressed : Type 0 where
  pub results : List Order
  pub matched : List String
  pub failure : Option Failure

-- An action with its exception as a value.
unfoldable pub caught : {A : Type 0} → Action A → Action (Result A)
caught m = try_except (do a ← m; pure (ok a)) (λ e. pure (err e))

-- orders_by_client_id: of two orders with one client id, the later one stands.
unfoldable pub find_by_client_id : String → List Order → Option Order
find_by_client_id k [] = none
find_by_client_id k (o ∷ rest) = elim (find_by_client_id k rest) [
  | some later ↦ some later
  | none ↦ if text_or o.client_order_id o.order_id == k then some o else none
]

abbrev item_client_id : BatchItem → String
item_client_id (accepted a) = a.client_order_id
item_client_id (refused r) = r.client_order_id

unfoldable pub apply_item : Order → BatchItem → Action Order
apply_item o (accepted a) =
    set_status o a.status true true
      (exchange_order_id a.exchange_order_id ∷ raw_exchange_response (some a.raw) ∷ [])
apply_item o (refused r) = mark_rejected o r.reject_reason r.code r.message

abbrev pub appended : Progressed → Result Order → Progressed
appended p (ok o) = record p { results = p.results ++ o ∷ [] }
appended p (err e) = record p { failure = some e }

abbrev pub match_item : Progressed → BatchItem → Option Order → Action Progressed
match_item p item none = pure p
match_item p item (some o) = do
  r ← caught (apply_item o item)
  pure (appended (record p { matched = p.matched ++ o.order_id ∷ [] }) r)

-- The loop over the answers.
unfoldable pub apply_items : List Order → List BatchItem → Progressed → Action Progressed
apply_items batch [] p = pure p
apply_items batch (item ∷ rest) p = do
  p' ← match_item p item (find_by_client_id (item_client_id item) batch)
  elim p'.failure [ none ↦ apply_items batch rest p' | some e ↦ pure p' ]

abbrev pub is_member : String → List String → Bool
is_member k [] = false
is_member k (x ∷ rest) = x == k || is_member k rest

-- The loop over the orders that no answer matched.
unfoldable pub mark_missing : List Order → Progressed → Action Progressed
mark_missing [] p = pure p
mark_missing (o ∷ rest) p = if is_member o.order_id p.matched then mark_missing rest p else (do
  r ← caught (mark_unknown o)
  elim r [ ok o' ↦ mark_missing rest (appended p (ok o')) | err e ↦ pure (appended p (err e)) ])

abbrev pub no_progress : Progressed
no_progress = record { results = []; matched = []; failure = none }

abbrev pub finish_items : List Order → Progressed → Action Progressed
finish_items batch p = elim p.failure [ none ↦ mark_missing batch p | some e ↦ pure p ]

abbrev pub apply_answer : List Order → Result (List BatchItem) → Action Progressed
apply_answer batch (ok items) = do p ← apply_items batch items no_progress; finish_items batch p
apply_answer batch (err e) = pure (record no_progress { failure = some e })

-- The body of the `try` of a chunk.
unfoldable pub send_batch : ExchangeClient → List Order → Action Progressed
send_batch client batch = do r ← caught (client.place_batch_orders batch); apply_answer batch r

-- What the `except` clauses do with one order.
unfoldable pub mark_failed : Failure → Order → Action Order
mark_failed (exchange_api_error e) o =
    if is_unknown_execution e.category
    then mark_unknown o
    else mark_rejected o (map_exchange_error_to_reason e.category) e.code (some e.message)
mark_failed e o = mark_rejected o RejectReason.internal_error none none

unfoldable pub mark_all_failed : Failure → List Order → Action (List Order)
mark_all_failed e [] = pure []
mark_all_failed e (o ∷ rest) = do
  o' ← mark_failed e o
  others ← mark_all_failed e rest
  pure (o' ∷ others)

abbrev pub after_try : List Order → Progressed → Action (List Order)
after_try batch p = elim p.failure [
  | none ↦ pure p.results
  | some e ↦ (do marked ← mark_all_failed e batch; pure (p.results ++ marked))
]

unfoldable pub submit_chunk : ExchangeClient → List Order → Action (List Order)
submit_chunk client chunk = do
  batch ← mark_submitted chunk
  p ← send_batch client batch
  after_try batch p

-- The loop over the chunks; each takes at least one order, so that as much fuel as there are orders
-- is enough.
unfoldable pub submit_chunks : ℕ → ExchangeClient → ℕ → List Order → Action (List Order)
submit_chunks fuel client size [] = pure []
submit_chunks zero client size (o ∷ rest) = pure []
submit_chunks (suc fuel) client size (o ∷ rest) = do
  results ← submit_chunk client (take size (o ∷ rest))
  others ← submit_chunks fuel client size (drop size (o ∷ rest))
  pure (results ++ others)

unfoldable pub submit_created_orders : ExchangeClient → List Order → Action (List Order)
submit_created_orders client orders = do
  raise_if (not client.supports_batch_order) runtime_error
  raise_if (client.max_batch_order_size == 0) runtime_error
  submit_chunks (length orders) client client.max_batch_order_size orders

module _ (client_for_market : Exchange → MarketType → Result ExchangeClient) where
  unfoldable pub submit_batch :
      Exchange → MarketType → Origin → List OrderRequest → Action (List Order)
  submit_batch exchange market_type origin requests = do
    apply_updates (dedupe_symbol_leverage_updates requests)
    orders ← create_orders exchange market_type origin requests
    client ← lift (client_for_market exchange market_type)
    submit_created_orders client orders

  -- submit_batch_orders
  unfoldable pub submit_batch_orders :
      Exchange → MarketType → Origin → List OrderRequest → Action (List Order)
  submit_batch_orders exchange market_type origin [] = pure []
  submit_batch_orders exchange market_type origin (r ∷ rest) =
      submit_batch exchange market_type origin (r ∷ rest)
