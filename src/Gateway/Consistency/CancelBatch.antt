-- ===== src/Gateway/Consistency/CancelBatch.antt =====
-- The cancellation of batches keeps the agreement of the tables and the projections.
use crypto_derivative_algo_t.Prelude.{
  ℕ, zero, suc, String, ◌≡◌, true, Option, none, some, List, [], ◌∷◌,
}
use crypto_derivative_algo_t.Schema.Enums.{Exchange, MarketType, OrderStatus}
use crypto_derivative_algo_t.Schema.Order.{Order}
use crypto_derivative_algo_t.Failure.{Failure, exchange_api_error, Result, ok}
use crypto_derivative_algo_t.Store.Action.{Action}
use crypto_derivative_algo_t.Service.Keeps.{
  Keeps, Keeps-pure, Keeps-bind, Keeps-raise, Keeps-try_except,
}
use crypto_derivative_algo_t.Service.Agreement.{IsConsistent}
use crypto_derivative_algo_t.Service.Loads.{load_order-IsConsistent}
use crypto_derivative_algo_t.Gateway.Client.{ExchangeClient, CancelItem}
use crypto_derivative_algo_t.Gateway.Consistency.{gateway_rules, IsOrderly, with_client}
use crypto_derivative_algo_t.Gateway.Cancellation.Batch.{
  Checked, check_found, check_batch, Pending, set_pending, set_all_pending, Responses,
}
use crypto_derivative_algo_t.Gateway.Cancellation.Answers.{
  Previous, match_order, restore_to, restore, mark_open_unknown, cancel_latest, apply_answer,
  Answered, apply_matched, apply_answers, mark_if_unanswered, mark_unanswered,
}
use crypto_derivative_algo_t.Gateway.Cancellation.Chunks.{
  send_cancels, for_each_latest, undo, on_batch_cancel_error, cancel_pending, cancel_chunk,
  cancel_chunks, cancel_ids, cancel_batch_orders,
}

check_found-IsConsistent :
    (e : Exchange) (m : MarketType) (symbol k : String) (found : Option Order) (c : Checked)
    → Keeps IsConsistent (check_found e m symbol k found c)
unfolding check_found
check_found-IsConsistent e m symbol k none c = search gateway_rules
check_found-IsConsistent e m symbol k (some o) c = search gateway_rules depth 8

check_batch-IsConsistent :
    (e : Exchange) (m : MarketType) (symbol : String) (ids : List String) (c : Checked)
    → Keeps IsConsistent (check_batch e m symbol ids c)
unfolding check_batch
check_batch-IsConsistent e m symbol [] c = search gateway_rules
check_batch-IsConsistent e m symbol (k ∷ rest) c =
    Keeps-bind _ _ (load_order-IsConsistent k true) (λ found.
      Keeps-bind _ _ (check_found-IsConsistent e m symbol k found c)
        (check_batch-IsConsistent e m symbol rest))

set_pending-IsConsistent :
    (o : Order) (latest : Option Order) (p : Pending) → Keeps IsConsistent (set_pending o latest p)
unfolding set_pending
set_pending-IsConsistent o none p = search gateway_rules
set_pending-IsConsistent o (some latest) p = search gateway_rules

set_all_pending-IsConsistent :
    (orders : List Order) (p : Pending) → Keeps IsConsistent (set_all_pending orders p)
unfolding set_all_pending
set_all_pending-IsConsistent [] p = search gateway_rules
set_all_pending-IsConsistent (o ∷ rest) p =
    Keeps-bind _ _ (load_order-IsConsistent o.order_id true) (λ latest.
      Keeps-bind _ _ (set_pending-IsConsistent o latest p) (set_all_pending-IsConsistent rest))

pub restore_to-IsConsistent :
    (latest : Order) (found : Option OrderStatus) → Keeps IsConsistent (restore_to latest found)
unfolding restore_to
restore_to-IsConsistent latest none = search gateway_rules
restore_to-IsConsistent latest (some status) = search gateway_rules

pub restore-IsConsistent :
    (previous : Previous) (k : String) (latest : Option Order)
    → Keeps IsConsistent (restore previous k latest)
unfolding restore
restore-IsConsistent previous k none = search gateway_rules
restore-IsConsistent previous k (some latest) = restore_to-IsConsistent latest _

pub mark_open_unknown-IsConsistent :
    (latest : Option Order) → Keeps IsConsistent (mark_open_unknown latest)
unfolding mark_open_unknown
mark_open_unknown-IsConsistent none = search gateway_rules
mark_open_unknown-IsConsistent (some latest) = search gateway_rules

cancel_latest-IsConsistent :
    (i : CancelItem) (latest : Option Order) → Keeps IsConsistent (cancel_latest i latest)
unfolding cancel_latest
cancel_latest-IsConsistent i none = search gateway_rules
cancel_latest-IsConsistent i (some latest) = search gateway_rules

ruleset answer_rules = (
  gateway_rules, restore-IsConsistent, mark_open_unknown-IsConsistent, cancel_latest-IsConsistent,
)

apply_answer-IsConsistent :
    (previous : Previous) (o : Order) (i : CancelItem) (latest : Option Order)
    → Keeps IsConsistent (apply_answer previous o i latest)
unfolding apply_answer
apply_answer-IsConsistent previous o i latest = search answer_rules

apply_matched-IsConsistent :
    (previous : Previous) (i : CancelItem) (found : Option Order) (a : Answered)
    → Keeps IsConsistent (apply_matched previous i found a)
unfolding apply_matched
apply_matched-IsConsistent previous i none a = search gateway_rules
apply_matched-IsConsistent previous i (some o) a = search (gateway_rules, apply_answer-IsConsistent)

apply_answers-IsConsistent :
    (previous : Previous) (pending : List Order) (items : List CancelItem) (a : Answered)
    → Keeps IsConsistent (apply_answers previous pending items a)
unfolding apply_answers
apply_answers-IsConsistent previous pending [] a = search gateway_rules
apply_answers-IsConsistent previous pending (i ∷ rest) a =
    Keeps-bind _ _ (apply_matched-IsConsistent previous i (match_order i pending) a)
      (apply_answers-IsConsistent previous pending rest)

mark_if_unanswered-IsConsistent :
    (o : Order) (a : Answered) → Keeps IsConsistent (mark_if_unanswered o a)
unfolding mark_if_unanswered
mark_if_unanswered-IsConsistent o a = search answer_rules

mark_unanswered-IsConsistent :
    (orders : List Order) (a : Answered) → Keeps IsConsistent (mark_unanswered orders a)
unfolding mark_unanswered
mark_unanswered-IsConsistent [] a = search gateway_rules
mark_unanswered-IsConsistent (o ∷ rest) a =
    Keeps-bind _ _ (mark_if_unanswered-IsConsistent o a) (mark_unanswered-IsConsistent rest)

undo-IsConsistent :
    (previous : Previous) (e : Failure) (k : String) (latest : Option Order)
    → Keeps IsConsistent (undo previous e k latest)
undo-IsConsistent previous (exchange_api_error e) k latest = search answer_rules
undo-IsConsistent previous _ k latest = search answer_rules

for_each_latest-IsConsistent :
    (f : String → Option Order → Action (Unit {0}))
    → ((k : String) (latest : Option Order) → Keeps IsConsistent (f k latest))
    → (ids : List String) → Keeps IsConsistent (for_each_latest f ids)
unfolding for_each_latest
for_each_latest-IsConsistent f h [] = search gateway_rules
for_each_latest-IsConsistent f h (k ∷ rest) =
    Keeps-bind _ _ (load_order-IsConsistent k true)
      (λ latest. Keeps-bind _ _ (h k latest) (λ _. for_each_latest-IsConsistent f h rest))

pub on_batch_cancel_error-IsConsistent :
    {A : Type 0} (previous : Previous) (ids : List String) (e : Failure)
    → Keeps {A = A} IsConsistent (on_batch_cancel_error previous ids e)
unfolding on_batch_cancel_error
on_batch_cancel_error-IsConsistent previous ids e =
    Keeps-bind _ _ (for_each_latest-IsConsistent _ (undo-IsConsistent previous e) ids)
      (λ _. Keeps-raise e)

cancel_pending-IsConsistent :
    (client : ExchangeClient) (previous : Previous) (pending : List Order) (responses : Responses)
    → IsOrderly client
    → Keeps IsConsistent (cancel_pending client previous pending responses)
unfolding cancel_pending send_cancels
cancel_pending-IsConsistent client previous [] responses orderly = search gateway_rules
cancel_pending-IsConsistent client previous (o ∷ rest) responses orderly =
    Keeps-try_except _ _
      (Keeps-bind _ _ (orderly.cancels_batch (o ∷ rest)) (λ items.
        Keeps-bind _ _ (apply_answers-IsConsistent previous (o ∷ rest) items _)
          (mark_unanswered-IsConsistent (o ∷ rest))))
      (on_batch_cancel_error-IsConsistent previous _)

cancel_chunk-IsConsistent :
    (client : ExchangeClient) (e : Exchange) (m : MarketType) (symbol : String) (ids : List String)
    → IsOrderly client
    → Keeps IsConsistent (cancel_chunk client e m symbol ids)
unfolding cancel_chunk
cancel_chunk-IsConsistent client e m symbol ids orderly =
    Keeps-bind _ _ (check_batch-IsConsistent e m symbol ids _) (λ c.
      Keeps-bind _ _ (set_all_pending-IsConsistent c.eligible _) (λ p.
        Keeps-bind _ _ (cancel_pending-IsConsistent client c.previous p.pending p.responses orderly)
          (λ r. Keeps-pure _)))

cancel_chunks-IsConsistent :
    (fuel : ℕ) (client : ExchangeClient) (e : Exchange) (m : MarketType) (symbol : String)
    (ids : List String)
    → IsOrderly client
    → Keeps IsConsistent (cancel_chunks fuel client e m symbol ids)
unfolding cancel_chunks
cancel_chunks-IsConsistent fuel client e m symbol [] orderly = search gateway_rules
cancel_chunks-IsConsistent zero client e m symbol (k ∷ ids) orderly = search gateway_rules
cancel_chunks-IsConsistent (suc fuel) client e m symbol (k ∷ ids) orderly =
    Keeps-bind _ _ (cancel_chunk-IsConsistent client e m symbol _ orderly) (λ results.
      Keeps-bind _ _ (cancel_chunks-IsConsistent fuel client e m symbol _ orderly)
        (λ others. Keeps-pure _))

module _ (client_for_market : Exchange → MarketType → Result ExchangeClient)
    (orderly : (e : Exchange) (m : MarketType) (client : ExchangeClient)
      → client_for_market e m ≡ ok client
      → IsOrderly client) where
  pub cancel_batch_orders-IsConsistent :
      (e : Exchange) (m : MarketType) (symbol : String) (ids : List String)
      → Keeps IsConsistent (cancel_batch_orders client_for_market e m symbol ids)
  unfolding cancel_batch_orders cancel_ids
  cancel_batch_orders-IsConsistent e m symbol [] = search gateway_rules
  cancel_batch_orders-IsConsistent e m symbol (k ∷ ids) =
      with_client client_for_market orderly e m _ (λ client is_orderly.
        Keeps-bind _ _ (search gateway_rules) (λ _.
          Keeps-bind _ _ (search gateway_rules)
            (λ _. cancel_chunks-IsConsistent _ client e m _ _ is_orderly)))
