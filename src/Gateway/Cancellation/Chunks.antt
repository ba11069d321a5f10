-- ===== src/Gateway/Cancellation/Chunks.antt =====
-- gateway/cancellation_service.py: the chunks of `cancel_batch_orders`, and what it does after an
-- exception.
use crypto_derivative_algo_t.Prelude.{
  ℕ, zero, suc, String, map, true, not, Option, none, some, List, [], ◌∷◌, ◌++◌, ◌==◌, string_eq,
  nat_eq, if◌then◌else◌, length, take, drop, upper, strip,
}
use crypto_derivative_algo_t.Schema.Enums.{Exchange, MarketType}
use crypto_derivative_algo_t.Schema.Order.{Order}
use crypto_derivative_algo_t.Failure.{
  Failure, Result, runtime_error, exchange_api_error, is_unknown_execution,
}
use crypto_derivative_algo_t.Store.Action.{
  Action, pure, raise, lift, ◌>>=◌, ◌>>◌, raise_if, try_except,
}
use crypto_derivative_algo_t.Service.OrderState.{load_order}
use crypto_derivative_algo_t.Gateway.Client.{ExchangeClient}
use crypto_derivative_algo_t.Gateway.Cancellation.Batch.{
  CancelResponse, Responses, find_key, check_batch, Pending, set_all_pending,
}
use crypto_derivative_algo_t.Gateway.Cancellation.Answers.{
  Previous, restore, mark_open_unknown, apply_answers, mark_unanswered,
}

-- The body of the `try`.
unfoldable pub send_cancels : ExchangeClient → Previous → Pending → Action Responses
send_cancels client previous p = do
  items ← client.cancel_batch_orders p.pending
  a ← apply_answers previous p.pending items (record { matched = []; responses = p.responses })
  mark_unanswered p.pending a

unfoldable pub for_each_latest :
    (String → Option Order → Action (Unit {0})) → List String → Action (Unit {0})
for_each_latest f [] = pure tt
for_each_latest f (k ∷ rest) = do latest ← load_order k true; f k latest; for_each_latest f rest

-- What the `except` clauses do with one order.
abbrev pub undo : Previous → Failure → String → Option Order → Action (Unit {0})
undo previous (exchange_api_error e) k latest =
    if is_unknown_execution e.category then mark_open_unknown latest else restore previous k latest
undo previous e k latest = restore previous k latest

unfoldable pub on_batch_cancel_error : {A : Type 0} → Previous → List String → Failure → Action A
on_batch_cancel_error previous ids e = do for_each_latest (undo previous e) ids; raise e

-- `for oid in raw_batch: item = results_by_order_id.get(oid)`
unfoldable pub collect : List String → Responses → List CancelResponse
collect [] responses = []
collect (k ∷ rest) responses = elim (find_key k responses) [
  | none ↦ collect rest responses
  | some r ↦ r ∷ collect rest responses
]

unfoldable pub cancel_pending :
    ExchangeClient → Previous → List Order → Responses → Action Responses
cancel_pending client previous [] responses = pure responses
cancel_pending client previous (o ∷ rest) responses =
    try_except (send_cancels client previous (record { pending = o ∷ rest; responses = responses }))
      (on_batch_cancel_error previous (map (λ p. p.order_id) (o ∷ rest)))

unfoldable pub cancel_chunk :
    ExchangeClient → Exchange → MarketType → String → List String → Action (List CancelResponse)
cancel_chunk client exchange market_type symbol ids = do
  c ←
      check_batch exchange market_type symbol ids
        (record { eligible = []; previous = []; responses = [] })
  p ← set_all_pending c.eligible (record { pending = []; responses = c.responses })
  responses ← cancel_pending client c.previous p.pending p.responses
  pure (collect ids responses)

-- Each chunk takes at least one id, so that as much fuel as there are ids is enough.
unfoldable pub cancel_chunks :
    ℕ → ExchangeClient → Exchange → MarketType → String → List String → Action (List CancelResponse)
cancel_chunks fuel client exchange market_type symbol [] = pure []
cancel_chunks zero client exchange market_type symbol (k ∷ ids) = pure []
cancel_chunks (suc fuel) client exchange market_type symbol (k ∷ ids) = do
  results ←
      cancel_chunk client exchange market_type symbol (take client.max_batch_cancel_size (k ∷ ids))
  others ←
      cancel_chunks fuel client exchange market_type symbol
        (drop client.max_batch_cancel_size (k ∷ ids))
  pure (results ++ others)

module _ (client_for_market : Exchange → MarketType → Result ExchangeClient) where
  unfoldable pub cancel_ids :
      Exchange → MarketType → String → List String → Action (List CancelResponse)
  cancel_ids exchange market_type symbol ids = do
    client ← lift (client_for_market exchange market_type)
    raise_if (not client.supports_batch_cancel) runtime_error
    raise_if (client.max_batch_cancel_size == 0) runtime_error
    cancel_chunks (length ids) client exchange market_type (upper (strip symbol)) ids

  unfoldable pub cancel_batch_orders :
      Exchange → MarketType → String → List String → Action (List CancelResponse)
  cancel_batch_orders exchange market_type symbol [] = pure []
  cancel_batch_orders exchange market_type symbol (k ∷ ids) =
      cancel_ids exchange market_type symbol (k ∷ ids)
