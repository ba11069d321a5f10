-- ===== src/Service/ListLoads.antt =====
-- Listing the open orders of a symbol keeps the agreement of Service/Consistency.
use crypto_derivative_algo_t.Prelude.{
  String, ◌≡◌, refl, sym, subst, Bool, true, false, Option, none, some, List, [], ◌∷◌, leb, All,
  Bool-cases, inl, inr, if◌then◌else◌,
}
use crypto_derivative_algo_t.Schema.Enums.{Exchange, MarketType}
use crypto_derivative_algo_t.Schema.Order.{Order}
use crypto_derivative_algo_t.Schema.Validate.{normalize_order}
use crypto_derivative_algo_t.Failure.{Result, ok, err}
use crypto_derivative_algo_t.Store.Tables.{Tables, OrderRow}
use crypto_derivative_algo_t.Store.Action.{World, pure, lift, gets, ◌>>=◌, continue, statement}
use crypto_derivative_algo_t.Service.Repository.{find_joined, model_validate, save}
use crypto_derivative_algo_t.Service.OrderState.{refresh_order_projection}
use crypto_derivative_algo_t.Service.Keeps.{Keeps, Keeps-statement}
use crypto_derivative_algo_t.Service.Reads.{save-TablesAre}
use crypto_derivative_algo_t.Service.Agreement.{
  IsConsistent, IsConsistent-storage, IsCurrent, save-IsConsistent, ignore_errors_lem,
}
use crypto_derivative_algo_t.Service.Loads.{normalize_order-IsCurrent, find_joined-IsCurrent}
use crypto_derivative_algo_t.Service.Lists.{
  insert_by_update, add_joined, select_open, is_open_for, validate_all, refresh_all,
  list_open_joined_by_symbol, list_open_orders_by_symbol,
}

module _ (t : Tables) where
  insert-IsCurrent :
      (o : Order) (rest : List Order)
      → IsCurrent t.orders o
      → All (IsCurrent t.orders) rest
      → All (IsCurrent t.orders) (insert_by_update o rest)
  unfolding insert_by_update
  insert-IsCurrent o [] h hs = (h, tt)
  insert-IsCurrent o (p ∷ rest) h (k, ks) = elim (Bool-cases (leb p.updated_ts o.updated_ts)) [
    | inl e ↦ rw e (h, (k, ks))
    | inr e ↦ rw e (k, insert-IsCurrent o rest h ks)
  ]

  module _ (e : Exchange) (m : MarketType) (symbol : String) where
    add-IsCurrent :
        (k : String) (found : Option Order) (rest : List Order)
        → find_joined k t ≡ found
        → All (IsCurrent t.orders) rest
        → All (IsCurrent t.orders) (add_joined e m symbol found rest)
    add-IsCurrent k none rest f hs = hs
    add-IsCurrent k (some o) rest f hs = elim (Bool-cases (is_open_for e m symbol o)) [
      | inl open_one ↦ rw open_one (insert-IsCurrent o rest (find_joined-IsCurrent k t o f).1 hs)
      | inr closed ↦ rw closed hs
    ]

    select-IsCurrent :
        (rows : List OrderRow) → All (IsCurrent t.orders) (select_open e m symbol t rows)
    unfolding select_open
    select-IsCurrent [] = tt
    select-IsCurrent (r ∷ rows) = add-IsCurrent r.order_id _ _ refl (select-IsCurrent rows)

abbrev Validated : Tables → World → Result (List Order) × World → Type 0
Validated t w (ok orders, v) = (v ≡ w) × All (IsCurrent t.orders) orders
Validated t w (err e, v) = v ≡ w

-- Validation reads and writes nothing, and the orders stay known.
validate_all-Validated :
    (t : Tables) (orders : List Order) (w : World)
    → All (IsCurrent t.orders) orders
    → Validated t w (validate_all orders w)
unfolding validate_all model_validate ◌>>=◌ lift pure
validate_all-Validated t [] w h = (refl, tt)
validate_all-Validated t (o ∷ rest) w (h, hs) =
    by_first (normalize_order "" o) refl (validate_all-Validated t rest w hs)
  where
    by_rest :
        (o' : Order)
        → IsCurrent t.orders o'
        → (r : Result (List Order) × World) → Validated t w r
        → Validated t w (continue r.0 (λ others v. (ok (o' ∷ others), v)) r.1)
    by_rest o' k (ok others, v) (same, ks) = (same, (k, ks))
    by_rest o' k (err e, v) same = same

    by_first :
        (r : Result Order)
        → normalize_order "" o ≡ r
        → Validated t w (validate_all rest w)
        → Validated t w (
            continue r
              (λ o' v.
                (let (a, u) = validate_all rest v in
                  continue a (λ others x. (ok (o' ∷ others), x)) u))
              w)
    by_first (ok o') e others =
        by_rest o' (normalize_order-IsCurrent t.orders o o' e h) (validate_all rest w) others
    by_first (err f) e others = refl

refresh_all-IsConsistent :
    (orders : List Order) (w : World)
    → All (IsCurrent w.tables.orders) orders
    → IsConsistent w
    → IsConsistent (refresh_all orders w).1
unfolding refresh_all refresh_order_projection ◌>>=◌ pure
refresh_all-IsConsistent [] w known h = h
refresh_all-IsConsistent (o ∷ rest) w (k, ks) h = rw (ignore_errors_lem (save o) w) (
    refresh_all-IsConsistent rest (save o w).1
      (subst (λ t. All (IsCurrent t.orders) rest) (sym ((save-TablesAre w.tables o).keeps w refl))
        ks)
      (save-IsConsistent o w k h))

refresh_if-IsConsistent :
    (refresh : Bool) (orders : List Order) (w : World)
    → All (IsCurrent w.tables.orders) orders
    → IsConsistent w
    → IsConsistent ((if refresh then refresh_all orders else pure tt) w).1
unfolding pure
refresh_if-IsConsistent true orders w k h = refresh_all-IsConsistent orders w k h
refresh_if-IsConsistent false orders w k h = h

listed-IsConsistent :
    (refresh : Bool) (w : World) (r : Result (List Order) × World)
    → Validated w.tables w r
    → IsConsistent w
    → IsConsistent
        (continue r.0
          (λ orders. (if refresh then refresh_all orders else pure tt) >>= λ _. pure orders)
          r.1).1
unfolding ◌>>=◌ pure
listed-IsConsistent refresh w (ok orders, u) (same, known) h =
    after_refresh ((if refresh then refresh_all orders else pure tt) u) (
      refresh_if-IsConsistent refresh orders u
        (subst (λ (x : World). All (IsCurrent x.tables.orders) orders) (sym same) known)
        (subst IsConsistent (sym same) h))
  where
    after_refresh :
        (r : Result (Unit {0}) × World)
        → IsConsistent r.1
        → IsConsistent (continue r.0 (λ _ v. (ok orders, v)) r.1).1
    after_refresh (ok x, v) k = k
    after_refresh (err f, v) k = k
listed-IsConsistent refresh w (err f, u) same h = subst IsConsistent (sym same) h

-- Listing the open orders of a symbol, with or without a refresh of their projections.
pub list_open_orders_by_symbol-IsConsistent :
    (e : Exchange) (m : MarketType) (symbol : String) (refresh : Bool)
    → Keeps IsConsistent (list_open_orders_by_symbol e m symbol refresh)
unfolding list_open_orders_by_symbol list_open_joined_by_symbol ◌>>=◌ gets
list_open_orders_by_symbol-IsConsistent e m symbol refresh = record {
  keeps = λ w h. after_statement (statement w) ((Keeps-statement IsConsistent-storage).keeps w h);
}
  where
    after_statement :
        (r : Result (Unit {0}) × World)
        → IsConsistent r.1
        → IsConsistent
            (let (a, u) =
                continue r.0
                  (λ _ v.
                    continue (ok (select_open e m symbol v.tables v.tables.orders)) validate_all v)
                  r.1 in
              continue a
                (λ orders. (if refresh then refresh_all orders else pure tt) >>= λ _. pure orders)
                u).1
    after_statement (ok x, w) h =
        listed-IsConsistent refresh w _
          (validate_all-Validated w.tables _ w
            (select-IsCurrent w.tables e m symbol w.tables.orders))
          h
    after_statement (err f, w) h = h
