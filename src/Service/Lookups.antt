-- ===== src/Service/Lookups.antt =====
-- The methods of OrderStateService that find an order by another id than its own, with the queries
-- that they run. Of several rows that match, the table's first one is taken.
use crypto_derivative_algo_t.Prelude.{
  String, Bool, false, ◌&&◌, Option, none, some, List, [], ◌∷◌, ◌==◌, string_eq, if◌then◌else◌,
}
use crypto_derivative_algo_t.Schema.Enums.{Exchange, MarketType, exchange_eq, market_type_eq}
use crypto_derivative_algo_t.Schema.Order.{Order}
use crypto_derivative_algo_t.Store.Tables.{Tables, OrderRow}
use crypto_derivative_algo_t.Store.Action.{Action, pure, gets, ◌>>=◌, ◌>>◌, statement}
use crypto_derivative_algo_t.Service.Repository.{find_joined, model_validate}
use crypto_derivative_algo_t.Service.OrderState.{refresh_order_projection, from_row}

-- column = $3, which a NULL never satisfies.
abbrev has_text : Option String → String → Bool
has_text none k = false
has_text (some s) k = s == k

-- WHERE o.exchange = $1 AND o.market_type = $2 AND column = $3
unfoldable pub is_named : (Order → Option String) → Exchange → MarketType → String → Order → Bool
is_named column exchange market_type k o =
    o.exchange == exchange && o.market_type == market_type && has_text (column o) k

abbrev pub take_joined : (Order → Bool) → Option Order → Option Order → Option Order
take_joined test none others = others
take_joined test (some o) others = if test o then some o else others

unfoldable pub select_first : (Order → Bool) → Tables → List OrderRow → Option Order
select_first test t [] = none
select_first test t (r ∷ rows) =
    take_joined test (find_joined r.order_id t) (select_first test t rows)

unfoldable pub fetch_row : (Order → Bool) → Action (Option Order)
unfolding ◌>>=◌ statement
fetch_row test = do statement; gets (λ w. select_first test w.tables w.tables.orders)

module _ (exchange : Exchange) (market_type : MarketType) (k : String) where
  unfoldable pub get_by_exchange_order_id : Action (Option Order)
  get_by_exchange_order_id = fetch_row (is_named (λ o. o.exchange_order_id) exchange market_type k)

  unfoldable pub get_by_triggered_order_id : Action (Option Order)
  get_by_triggered_order_id =
      fetch_row (is_named (λ o. o.triggered_order_id) exchange market_type k)

  unfoldable pub get_by_client_conditional_id : Action (Option Order)
  get_by_client_conditional_id =
      fetch_row (is_named (λ o. o.client_conditional_id) exchange market_type k)

  unfoldable pub get_by_exchange_conditional_id : Action (Option Order)
  get_by_exchange_conditional_id =
      fetch_row (is_named (λ o. o.exchange_conditional_id) exchange market_type k)

-- After the two lookups by an order id, a failure of Redis is raised.
unfoldable pub from_row_strict : Bool → Option Order → Action (Option Order)
from_row_strict refresh none = pure none
from_row_strict refresh (some row) = do
  order ← model_validate row
  if refresh then refresh_order_projection order >> pure tt else pure tt
  pure (some order)

module _ (exchange : Exchange) (market_type : MarketType) (k : String) (refresh : Bool) where
  unfoldable pub load_order_by_exchange_order_id : Action (Option Order)
  load_order_by_exchange_order_id = do
    row ← get_by_exchange_order_id exchange market_type k
    from_row_strict refresh row

  unfoldable pub load_order_by_triggered_order_id : Action (Option Order)
  load_order_by_triggered_order_id = do
    row ← get_by_triggered_order_id exchange market_type k
    from_row_strict refresh row

  -- After the two lookups by a conditional id, it is logged and dropped.
  unfoldable pub load_order_by_client_conditional_id : Action (Option Order)
  load_order_by_client_conditional_id = do
    row ← get_by_client_conditional_id exchange market_type k
    from_row refresh row

  unfoldable pub load_order_by_exchange_conditional_id : Action (Option Order)
  load_order_by_exchange_conditional_id = do
    row ← get_by_exchange_conditional_id exchange market_type k
    from_row refresh row
