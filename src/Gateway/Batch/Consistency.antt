-- ===== src/Gateway/Batch/Consistency.antt =====
-- Submitting a batch keeps the agreement of the tables and the projections.
use crypto_derivative_algo_t.Prelude.{ℕ, zero, suc, ◌≡◌, Option, none, some, List, [], ◌∷◌, ◌++◌}
use crypto_derivative_algo_t.Schema.Enums.{Exchange, MarketType}
use crypto_derivative_algo_t.Schema.Order.{Origin, Order, OrderRequest}
use crypto_derivative_algo_t.Failure.{Failure, Result, ok, err, exchange_api_error}
use crypto_derivative_algo_t.Store.Action.{Action, pure, ◌>>=◌}
use crypto_derivative_algo_t.Service.Keeps.{
  Keeps, Keeps-if, keeps_rules, Keeps-pure, Keeps-bind, Keeps-lift_bind, Keeps-try_except,
}
use crypto_derivative_algo_t.Service.Agreement.{IsConsistent}
use crypto_derivative_algo_t.Gateway.Transition.{mark_unknown}
use crypto_derivative_algo_t.Gateway.Client.{ExchangeClient, BatchItem, accepted, refused}
use crypto_derivative_algo_t.Gateway.Consistency.{gateway_rules}
use crypto_derivative_algo_t.Gateway.Batch.{
  create_orders, mark_submitted, Progressed, caught, apply_item, match_item, apply_items,
  mark_missing, finish_items, apply_answer, send_batch, mark_failed, mark_all_failed, after_try,
  submit_chunk, submit_chunks, submit_created_orders, submit_batch, submit_batch_orders,
  no_progress, appended,
}
use crypto_derivative_algo_t.Gateway.Leverage.{LeverageInfo, apply_updates}

apply_updates-IsConsistent : (infos : List LeverageInfo) → Keeps IsConsistent (apply_updates infos)
apply_updates-IsConsistent [] = search keeps_rules
apply_updates-IsConsistent (i ∷ rest) = search keeps_rules

create_orders-IsConsistent :
    (e : Exchange) (m : MarketType) (origin : Origin) (requests : List OrderRequest)
    → Keeps IsConsistent (create_orders e m origin requests)
unfolding create_orders
create_orders-IsConsistent e m origin [] = search keeps_rules
create_orders-IsConsistent e m origin (r ∷ rest) = Keeps-bind _ _ (search keeps_rules) (λ _.
    Keeps-bind _ _ (search keeps_rules) (λ _.
      Keeps-bind _ _ (search gateway_rules)
        (λ _. Keeps-bind _ _ (create_orders-IsConsistent e m origin rest) (λ _. Keeps-pure _))))

mark_submitted-IsConsistent : (orders : List Order) → Keeps IsConsistent (mark_submitted orders)
unfolding mark_submitted
mark_submitted-IsConsistent [] = search keeps_rules
mark_submitted-IsConsistent (o ∷ rest) = Keeps-bind _ _ (search gateway_rules) (λ _.
    Keeps-bind _ _ (search gateway_rules)
      (λ _. Keeps-bind _ _ (mark_submitted-IsConsistent rest) (λ _. Keeps-pure _)))

caught-IsConsistent :
    {A : Type 0} (m : Action A) → Keeps IsConsistent m → Keeps IsConsistent (caught m)
unfolding caught
caught-IsConsistent m k =
    Keeps-try_except _ _ (Keeps-bind _ _ k (λ a. Keeps-pure _)) (λ e. Keeps-pure _)

apply_item-IsConsistent : (o : Order) (item : BatchItem) → Keeps IsConsistent (apply_item o item)
unfolding apply_item
apply_item-IsConsistent o (accepted a) = search gateway_rules
apply_item-IsConsistent o (refused r) = search gateway_rules

match_item-IsConsistent :
    (p : Progressed) (item : BatchItem) (o : Option Order)
    → Keeps IsConsistent (match_item p item o)
match_item-IsConsistent p item none = search keeps_rules
match_item-IsConsistent p item (some o) =
    search (keeps_rules, caught-IsConsistent, apply_item-IsConsistent)

apply_items-IsConsistent :
    (batch : List Order) (items : List BatchItem) (p : Progressed)
    → Keeps IsConsistent (apply_items batch items p)
unfolding apply_items
apply_items-IsConsistent batch [] p = Keeps-pure p
apply_items-IsConsistent batch (item ∷ rest) p =
    Keeps-bind _ _ (match_item-IsConsistent p item _)
      (λ p'. by_failure p' p'.failure (apply_items-IsConsistent batch rest p'))
  where
    by_failure :
        {m : Action Progressed} (p' : Progressed) (f : Option Failure)
        → Keeps IsConsistent m
        → Keeps IsConsistent (elim f [ none ↦ m | some e ↦ pure p' ])
    by_failure p' none k = k
    by_failure p' (some e) k = Keeps-pure p'

marked-IsConsistent : (o : Order) → Keeps IsConsistent (caught (mark_unknown o))
marked-IsConsistent o = caught-IsConsistent _ (search gateway_rules)

mark_missing-IsConsistent :
    (batch : List Order) (p : Progressed) → Keeps IsConsistent (mark_missing batch p)
unfolding mark_missing
mark_missing-IsConsistent [] p = Keeps-pure p
mark_missing-IsConsistent (o ∷ rest) p =
    Keeps-if _ _ _ (λ _. mark_missing-IsConsistent rest p)
      (λ _.
        Keeps-bind _ _ (marked-IsConsistent o)
          (λ r. by_result r (λ o'. mark_missing-IsConsistent rest (appended p (ok o')))))
  where
    by_result :
        (r : Result Order)
        → ((o' : Order) → Keeps IsConsistent (mark_missing rest (appended p (ok o'))))
        → Keeps IsConsistent (elim r [
          | ok o' ↦ mark_missing rest (appended p (ok o'))
          | err e ↦ pure (appended p (err e))
        ])
    by_result (ok o') k = k o'
    by_result (err e) k = Keeps-pure _

finish_items-IsConsistent :
    (batch : List Order) (p : Progressed) → Keeps IsConsistent (finish_items batch p)
finish_items-IsConsistent batch p = by_failure p.failure
  where
    by_failure :
        (f : Option Failure)
        → Keeps IsConsistent (elim f [ none ↦ mark_missing batch p | some e ↦ pure p ])
    by_failure none = mark_missing-IsConsistent batch p
    by_failure (some e) = Keeps-pure p

apply_answer-IsConsistent :
    (batch : List Order) (r : Result (List BatchItem)) → Keeps IsConsistent (apply_answer batch r)
apply_answer-IsConsistent batch (ok items) =
    Keeps-bind _ _ (apply_items-IsConsistent batch items no_progress)
      (finish_items-IsConsistent batch)
apply_answer-IsConsistent batch (err e) = Keeps-pure _

mark_failed-IsConsistent : (e : Failure) (o : Order) → Keeps IsConsistent (mark_failed e o)
unfolding mark_failed
mark_failed-IsConsistent (exchange_api_error e) o = search gateway_rules
mark_failed-IsConsistent _ o = search gateway_rules

mark_all_failed-IsConsistent :
    (e : Failure) (orders : List Order) → Keeps IsConsistent (mark_all_failed e orders)
unfolding mark_all_failed
mark_all_failed-IsConsistent e [] = Keeps-pure _
mark_all_failed-IsConsistent e (o ∷ rest) =
    Keeps-bind _ _ (mark_failed-IsConsistent e o)
      (λ _. Keeps-bind _ _ (mark_all_failed-IsConsistent e rest) (λ _. Keeps-pure _))

after_try-IsConsistent :
    (batch : List Order) (p : Progressed) → Keeps IsConsistent (after_try batch p)
after_try-IsConsistent batch p = by_failure p.failure
  where
    by_failure :
        (f : Option Failure)
        → Keeps IsConsistent (elim f [
          | none ↦ pure p.results
          | some e ↦ (do marked ← mark_all_failed e batch; pure (p.results ++ marked))
        ])
    by_failure none = Keeps-pure _
    by_failure (some e) = Keeps-bind _ _ (mark_all_failed-IsConsistent e batch) (λ _. Keeps-pure _)

module _ (client : ExchangeClient)
    (places_batch : (orders : List Order)
      → Keeps IsConsistent (client.place_batch_orders orders)) where
  submit_chunk-IsConsistent : (chunk : List Order) → Keeps IsConsistent (submit_chunk client chunk)
  unfolding submit_chunk send_batch
  submit_chunk-IsConsistent chunk = Keeps-bind _ _ (mark_submitted-IsConsistent chunk) (λ batch.
      Keeps-bind _ _
        (Keeps-bind _ _ (caught-IsConsistent _ (places_batch batch))
          (apply_answer-IsConsistent batch))
        (after_try-IsConsistent batch))

  submit_chunks-IsConsistent :
      (fuel size : ℕ) (orders : List Order)
      → Keeps IsConsistent (submit_chunks fuel client size orders)
  unfolding submit_chunks
  submit_chunks-IsConsistent fuel size [] = Keeps-pure _
  submit_chunks-IsConsistent zero size (o ∷ rest) = Keeps-pure _
  submit_chunks-IsConsistent (suc fuel) size (o ∷ rest) =
      Keeps-bind _ _ (submit_chunk-IsConsistent _)
        (λ _. Keeps-bind _ _ (submit_chunks-IsConsistent fuel size _) (λ _. Keeps-pure _))

  created-IsConsistent :
      (orders : List Order) → Keeps IsConsistent (submit_created_orders client orders)
  unfolding submit_created_orders
  created-IsConsistent orders =
      Keeps-bind _ _ (search keeps_rules)
        (λ _. Keeps-bind _ _ (search keeps_rules) (λ _. submit_chunks-IsConsistent _ _ orders))

-- If the batch calls of every client that is found keep every order's events and version in step and
-- its projection no newer than its row, and of the row's status if it is as new, the submission of a
-- batch does so on every path.
pub submit_batch_orders-IsConsistent :
    (client_for_market : Exchange → MarketType → Result ExchangeClient)
    → ((e : Exchange) (m : MarketType) (client : ExchangeClient) (orders : List Order)
        → client_for_market e m ≡ ok client
        → Keeps IsConsistent (client.place_batch_orders orders))
    → (e : Exchange) (m : MarketType) (origin : Origin) (requests : List OrderRequest)
    → Keeps IsConsistent (submit_batch_orders client_for_market e m origin requests)
unfolding submit_batch_orders submit_batch
submit_batch_orders-IsConsistent client_for_market orderly e m origin [] = Keeps-pure _
submit_batch_orders-IsConsistent client_for_market orderly e m origin (r ∷ rest) =
    Keeps-bind _ _ (apply_updates-IsConsistent _) (λ _.
      Keeps-bind _ _ (create_orders-IsConsistent e m origin (r ∷ rest)) (λ orders.
        Keeps-lift_bind _ _ (λ client found.
          created-IsConsistent client (λ batch. orderly e m client batch found) orders)))
