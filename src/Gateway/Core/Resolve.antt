-- ===== src/Gateway/Core/Resolve.antt =====
-- Finding the order of an event loads at most one order, which is current.
use crypto_derivative_algo_t.Prelude.{String, ◌≡◌, refl, ap, ◌∙◌, true, Option, none, some}
use crypto_derivative_algo_t.Schema.Order.{Order}
use crypto_derivative_algo_t.Failure.{ok}
use crypto_derivative_algo_t.Store.Tables.{Tables}
use crypto_derivative_algo_t.Store.Action.{Action, ◌>>=◌}
use crypto_derivative_algo_t.Service.Agreement.{IsCurrent}
use crypto_derivative_algo_t.Service.Keeps.{Keeps, Keeps-bind, Keeps-pure}
use crypto_derivative_algo_t.Service.Finds.{Finds, Finds-none, Finds-some, Finds-bind}
use crypto_derivative_algo_t.Service.Found.{Holds}
use crypto_derivative_algo_t.Service.LookupLoads.{
  IsLoad, load_order-IsLoad, by_exchange_order_id-IsLoad, by_triggered_order_id-IsLoad,
  by_client_conditional_id-IsLoad, by_exchange_conditional_id-IsLoad,
}
use crypto_derivative_algo_t.Gateway.Core.{OrderUpdateEvent, look_up, resolve_order}
use crypto_derivative_algo_t.Gateway.Core.Conditional.{ConditionalOrderEvent, resolve_conditional}

module _ (load : String → Action (Option Order)) (l : (k : String) → IsLoad (load k)) where
  look_up-Holds :
      (t : Tables) (own : Option Order) (id : Option String) → Keeps (Holds t) (look_up own id load)
  unfolding look_up
  look_up-Holds t (some o) id = Keeps-pure _
  look_up-Holds t none none = Keeps-pure _
  look_up-Holds t none (some k) = (l k).holds t

  look_up-none-Finds :
      (t : Tables) (id : Option String)
      → Finds (Holds t) (IsCurrent t.orders) (look_up none id load)
  unfolding look_up
  look_up-none-Finds t none = Finds-none
  look_up-none-Finds t (some k) = (l k).finds t

  look_up-none-IsLoad : (id : Option String) → IsLoad (look_up none id load)
  look_up-none-IsLoad id = record {
    holds = λ t. look_up-Holds t none id;
    finds = λ t. look_up-none-Finds t id;
  }

  look_up-Finds :
      (t : Tables) (own : Option Order) (id : Option String)
      → ((o : Order) → own ≡ some o → IsCurrent t.orders o)
      → Finds (Holds t) (IsCurrent t.orders) (look_up own id load)
  unfolding look_up
  look_up-Finds t (some o) id c = Finds-some o (c o refl)
  look_up-Finds t none id c = look_up-none-Finds t id

  -- A lookup after another way to load.
  look_up-IsLoad :
      (m : Action (Option Order)) (id : Option String)
      → IsLoad m
      → IsLoad (m >>= λ own. look_up own id load)
  look_up-IsLoad m id k = record {
    holds = λ t. Keeps-bind _ _ (k.holds t) (λ own. look_up-Holds t own id);
    finds = λ t.
        Finds-bind _ _ (k.holds t)
          (λ w own h e. look_up-Finds t own id (λ o f. (k.finds t).finds w h o (e ∙ ap ok f)));
  }

pub resolve_conditional-IsLoad : (e : ConditionalOrderEvent) → IsLoad (resolve_conditional e)
unfolding resolve_conditional
resolve_conditional-IsLoad e =
    look_up-IsLoad _ (λ k. by_exchange_conditional_id-IsLoad e.exchange e.market_type k true) _ _
      (look_up-none-IsLoad _ (λ k. by_client_conditional_id-IsLoad e.exchange e.market_type k true)
        _)

pub resolve_order-IsLoad : (e : OrderUpdateEvent) → IsLoad (resolve_order e)
unfolding resolve_order
resolve_order-IsLoad e =
    look_up-IsLoad _ (λ k. by_triggered_order_id-IsLoad e.exchange e.market_type k true) _ _
      (look_up-IsLoad _ (λ k. by_exchange_order_id-IsLoad e.exchange e.market_type k true) _ _
        (load_order-IsLoad e.client_order_id true))
