-- ===== src/Service/Lists.antt =====
-- OrderStateService.list_open_orders_by_symbol, with the query that it runs. `order_id` is the key
-- of both tables, so that each row of the join is the joined order of its id.
use crypto_derivative_algo_t.Prelude.{
  String, Bool, not, ◌&&◌, Option, none, some, List, [], ◌∷◌, ◌==◌, string_eq, leb, upper,
  if◌then◌else◌,
}
use crypto_derivative_algo_t.Schema.Enums.{Exchange, MarketType, exchange_eq, market_type_eq}
use crypto_derivative_algo_t.Schema.Statuses.{is_terminal}
use crypto_derivative_algo_t.Schema.Order.{Order}
use crypto_derivative_algo_t.Store.Tables.{Tables, OrderRow}
use crypto_derivative_algo_t.Store.Action.{
  Action, pure, gets, ◌>>=◌, ◌>>◌, ignore_errors, statement,
}
use crypto_derivative_algo_t.Service.Repository.{find_joined, model_validate}
use crypto_derivative_algo_t.Service.OrderState.{refresh_order_projection}

-- The WHERE of list_open_joined_by_symbol.
unfoldable pub is_open_for : Exchange → MarketType → String → Order → Bool
is_open_for exchange market_type symbol o =
    o.exchange == exchange
    && o.market_type == market_type
    && o.symbol == upper symbol
    && not (is_terminal o.status)

-- ORDER BY updated_ts DESC
unfoldable pub insert_by_update : Order → List Order → List Order
insert_by_update o [] = o ∷ []
insert_by_update o (p ∷ rest) =
    if leb p.updated_ts o.updated_ts then o ∷ p ∷ rest else p ∷ insert_by_update o rest

abbrev pub add_joined : Exchange → MarketType → String → Option Order → List Order → List Order
add_joined exchange market_type symbol none rest = rest
add_joined exchange market_type symbol (some o) rest =
    if is_open_for exchange market_type symbol o then insert_by_update o rest else rest

unfoldable pub select_open : Exchange → MarketType → String → Tables → List OrderRow → List Order
select_open exchange market_type symbol t [] = []
select_open exchange market_type symbol t (r ∷ rows) =
    add_joined exchange market_type symbol (find_joined r.order_id t)
      (select_open exchange market_type symbol t rows)

-- `[Order.model_validate(dict(row)) for row in rows]`
unfoldable pub validate_all : List Order → Action (List Order)
validate_all [] = pure []
validate_all (o ∷ rest) = do o' ← model_validate o; others ← validate_all rest; pure (o' ∷ others)

unfoldable pub list_open_joined_by_symbol : Exchange → MarketType → String → Action (List Order)
list_open_joined_by_symbol exchange market_type symbol = do
  statement
  rows ← gets (λ w. select_open exchange market_type symbol w.tables w.tables.orders)
  validate_all rows

unfoldable pub refresh_all : List Order → Action (Unit {0})
refresh_all [] = pure tt
refresh_all (o ∷ rest) = ignore_errors (refresh_order_projection o) >> refresh_all rest

unfoldable pub list_open_orders_by_symbol :
    Exchange → MarketType → String → Bool → Action (List Order)
list_open_orders_by_symbol exchange market_type symbol refresh = do
  orders ← list_open_joined_by_symbol exchange market_type symbol
  if refresh then refresh_all orders else pure tt
  pure orders
