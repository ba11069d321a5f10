-- ===== src/Service/LookupLoads.antt =====
-- Finding an order by another id than its own: like `load_order`, it keeps the agreement, leaves the
-- tables alone and finds current orders.
use crypto_derivative_algo_t.Prelude.{
  String, ◌≡◌, refl, ◌∙◌, Bool, Option, none, some, List, [], ◌∷◌, Bool-cases, inl, inr,
}
use crypto_derivative_algo_t.Prelude.{arith}
use crypto_derivative_algo_t.Schema.Enums.{Exchange, MarketType}
use crypto_derivative_algo_t.Schema.Order.{Order}
use crypto_derivative_algo_t.Failure.{ok}
use crypto_derivative_algo_t.Store.Tables.{Tables, OrderRow}
use crypto_derivative_algo_t.Store.Action.{World, Action, ◌>>=◌}
use crypto_derivative_algo_t.Service.Repository.{find_joined, model_validate}
use crypto_derivative_algo_t.Service.OrderState.{from_row, load_order}
use crypto_derivative_algo_t.Service.Lookups.{
  take_joined, select_first, fetch_row, from_row_strict, get_by_exchange_order_id,
  get_by_triggered_order_id, get_by_client_conditional_id, get_by_exchange_conditional_id,
  load_order_by_exchange_order_id, load_order_by_triggered_order_id,
  load_order_by_client_conditional_id, load_order_by_exchange_conditional_id,
}
use crypto_derivative_algo_t.Service.Keeps.{
  Keeps, Keeps-bind, Keeps-bind_returned, Keeps-lift_bind, Keeps-pure, Keeps-gets, Keeps-statement,
}
use crypto_derivative_algo_t.Service.Agreement.{IsCurrent}
use crypto_derivative_algo_t.Service.Loads.{find_joined-IsCurrent, normalize_order-IsCurrent}
use crypto_derivative_algo_t.Service.Finds.{
  Finds, Finds-none, Finds-some, Finds-bind, Finds-lift_bind,
}
use crypto_derivative_algo_t.Service.Found.{
  Holds, Holds-storage, load_order-Holds, load_order-Finds, from_row-Finds, from_row-Holds,
  strictly-Holds,
}

-- A way to load an order.
pub record IsLoad (m : Action (Option Order)) : Type 0 where
  pub holds : (t : Tables) → Keeps (Holds t) m
  pub finds : (t : Tables) → Finds (Holds t) (IsCurrent t.orders) m

pub load_order-IsLoad : (k : String) (refresh : Bool) → IsLoad (load_order k refresh)
load_order-IsLoad k refresh = record {
  holds = λ t. load_order-Holds t k refresh;
  finds = λ t. load_order-Finds t k refresh;
}

taken-IsCurrent :
    (test : Order → Bool) (t : Tables) (k : String) (found others : Option Order) (o : Order)
    → find_joined k t ≡ found
    → (others ≡ some o → IsCurrent t.orders o)
    → take_joined test found others ≡ some o
    → IsCurrent t.orders o
taken-IsCurrent test t k none others o f c e = c e
taken-IsCurrent test t k (some p) others o f c e = elim (Bool-cases (test p)) [
  | inl passes ↦ (find_joined-IsCurrent k t o (f ∙ ground arith)).1
  | inr fails ↦ c (ground arith)
]

-- The row that a query selects.
select_first-IsCurrent :
    (test : Order → Bool) (t : Tables) (rows : List OrderRow) (o : Order)
    → select_first test t rows ≡ some o
    → IsCurrent t.orders o
unfolding select_first
select_first-IsCurrent test t [] o e = cc
select_first-IsCurrent test t (r ∷ rows) o e =
    taken-IsCurrent test t r.order_id (find_joined r.order_id t) (select_first test t rows) o refl
      (select_first-IsCurrent test t rows o) e

selected_lem :
    (test : Order → Bool) (w : World) (t : Tables)
    → w.tables ≡ t
    → (found : Option Order) → (fetch_row test w).0 ≡ ok found
    → select_first test t t.orders ≡ found
unfolding fetch_row
selected_lem test w t s found e = ground arith

module _ (t : Tables) where
  fetch_row-Holds : (test : Order → Bool) → Keeps (Holds t) (fetch_row test)
  unfolding fetch_row
  fetch_row-Holds test = Keeps-bind _ _ (Keeps-statement (Holds-storage t)) (λ _. Keeps-gets _)

  from_row_strict-Holds :
      (refresh : Bool) (found : Option Order)
      → ((o : Order) → found ≡ some o → IsCurrent t.orders o)
      → Keeps (Holds t) (from_row_strict refresh found)
  unfolding from_row_strict model_validate
  from_row_strict-Holds refresh none c = Keeps-pure _
  from_row_strict-Holds refresh (some row) c = Keeps-lift_bind _ _ (λ o e.
      Keeps-bind _ _
        (strictly-Holds t refresh o (normalize_order-IsCurrent t.orders row o e (c row refl)))
        (λ _. Keeps-pure _))

  from_row_strict-Finds :
      (refresh : Bool) (found : Option Order)
      → ((o : Order) → found ≡ some o → IsCurrent t.orders o)
      → Finds (Holds t) (IsCurrent t.orders) (from_row_strict refresh found)
  unfolding from_row_strict model_validate
  from_row_strict-Finds refresh none c = Finds-none
  from_row_strict-Finds refresh (some row) c = Finds-lift_bind _ _ (λ o e.
      let now = normalize_order-IsCurrent t.orders row o e (c row refl) in
      Finds-bind _ _ (strictly-Holds t refresh o now) (λ w u p q. Finds-some o now))

module _ (test : Order → Bool) (refresh : Bool) where
  selected-IsCurrent :
      (t : Tables) (w : World) (found : Option Order)
      → Holds t w
      → (fetch_row test w).0 ≡ ok found
      → (o : Order) → found ≡ some o
      → IsCurrent t.orders o
  selected-IsCurrent t w found h e o f =
      select_first-IsCurrent test t t.orders o (selected_lem test w t h.tables_are found e ∙ f)

  lenient-IsLoad : IsLoad (fetch_row test >>= from_row refresh)
  lenient-IsLoad = record {
    holds = λ t.
        Keeps-bind_returned _ _ (fetch_row-Holds t test)
          (λ w found h e. from_row-Holds t refresh found (selected-IsCurrent t w found h e));
    finds = λ t.
        Finds-bind _ _ (fetch_row-Holds t test)
          (λ w found h e. from_row-Finds t refresh found (selected-IsCurrent t w found h e));
  }

  strict-IsLoad : IsLoad (fetch_row test >>= from_row_strict refresh)
  strict-IsLoad = record {
    holds = λ t.
        Keeps-bind_returned _ _ (fetch_row-Holds t test)
          (λ w found h e. from_row_strict-Holds t refresh found (selected-IsCurrent t w found h e));
    finds = λ t.
        Finds-bind _ _ (fetch_row-Holds t test)
          (λ w found h e. from_row_strict-Finds t refresh found (selected-IsCurrent t w found h e));
  }

module _ (e : Exchange) (m : MarketType) (k : String) (refresh : Bool) where
  pub by_exchange_order_id-IsLoad : IsLoad (load_order_by_exchange_order_id e m k refresh)
  unfolding load_order_by_exchange_order_id get_by_exchange_order_id
  by_exchange_order_id-IsLoad = strict-IsLoad _ refresh

  pub by_triggered_order_id-IsLoad : IsLoad (load_order_by_triggered_order_id e m k refresh)
  unfolding load_order_by_triggered_order_id get_by_triggered_order_id
  by_triggered_order_id-IsLoad = strict-IsLoad _ refresh

  pub by_client_conditional_id-IsLoad : IsLoad (load_order_by_client_conditional_id e m k refresh)
  unfolding load_order_by_client_conditional_id get_by_client_conditional_id
  by_client_conditional_id-IsLoad = lenient-IsLoad _ refresh

  pub by_exchange_conditional_id-IsLoad :
      IsLoad (load_order_by_exchange_conditional_id e m k refresh)
  unfolding load_order_by_exchange_conditional_id get_by_exchange_conditional_id
  by_exchange_conditional_id-IsLoad = lenient-IsLoad _ refresh
