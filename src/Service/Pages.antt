-- ===== src/Service/Pages.antt =====
-- OrderStateService.iter_open_order_batches, with the query that it runs for each page. The order of
-- two texts in the collation of the database is an argument.
use crypto_derivative_algo_t.Prelude.{
  ℕ, zero, suc, String, Bool, true, false, not, ◌&&◌, ◌||◌, Option, none, some, List, [], ◌∷◌, ◌==◌,
  ltb, nat_eq, if◌then◌else◌, take,
}
use crypto_derivative_algo_t.Schema.Enums.{
  Exchange, MarketType, OrderRoute, exchange_eq, market_type_eq, order_route_eq,
}
use crypto_derivative_algo_t.Schema.Statuses.{is_terminal}
use crypto_derivative_algo_t.Schema.Order.{Order}
use crypto_derivative_algo_t.Store.Tables.{Tables, OrderRow, IntentRow, find_intent}
use crypto_derivative_algo_t.Store.Action.{Action, pure, gets, ◌>>=◌, ◌>>◌, statement}
use crypto_derivative_algo_t.Service.Repository.{find_joined}
use crypto_derivative_algo_t.Service.OrderState.{refresh_order_projection}
use crypto_derivative_algo_t.Service.Lists.{validate_all}

abbrev has_route : OrderRoute → Option OrderRoute → Bool
has_route route none = false
has_route route (some r) = r == route

abbrev intent_has : OrderRoute → Option IntentRow → Bool
intent_has route none = false
intent_has route (some i) = has_route route i.terms.order_route

-- ($3::text IS NULL OR i.order_route = $3)
abbrev is_of_route : Option OrderRoute → Option IntentRow → Bool
is_of_route none intent = true
is_of_route (some route) intent = intent_has route intent

-- The WHERE of list_non_terminal_joined_orders_page, without the cursor.
unfoldable pub is_listed : Exchange → MarketType → Option OrderRoute → Tables → Order → Bool
is_listed exchange market_type route t o =
    o.exchange == exchange
    && o.market_type == market_type
    && not (is_terminal o.status)
    && is_of_route route (find_intent o.order_id t.intents)

-- orders[-1], of a list that is not empty.
unfoldable pub last_of : Order → List Order → Order
last_of o [] = o
last_of o (p ∷ rest) = last_of p rest

module _ (text_before : String → String → Bool) where
  -- (o.updated_ts, i.order_id) > ($4::bigint, $5::text)
  unfoldable pub is_after : Option (ℕ × String) → Order → Bool
  is_after none o = true
  is_after (some (ts, k)) o =
      ltb ts o.updated_ts || (ts == o.updated_ts && text_before k o.order_id)

  abbrev pub cursor_at : Order → Option (ℕ × String)
  cursor_at o = some (o.updated_ts, o.order_id)

  -- ORDER BY o.updated_ts ASC, i.order_id ASC
  unfoldable pub insert_ascending : Order → List Order → List Order
  insert_ascending o [] = o ∷ []
  insert_ascending o (p ∷ rest) =
      if is_after (cursor_at o) p then o ∷ p ∷ rest else p ∷ insert_ascending o rest

  abbrev pub add_passing : (Order → Bool) → Option Order → List Order → List Order
  add_passing test none rest = rest
  add_passing test (some o) rest = if test o then insert_ascending o rest else rest

  unfoldable pub select_ascending : (Order → Bool) → Tables → List OrderRow → List Order
  select_ascending test t [] = []
  select_ascending test t (r ∷ rows) =
      add_passing test (find_joined r.order_id t) (select_ascending test t rows)

  module _ (exchange : Exchange) (market_type : MarketType) (route : Option OrderRoute)
      (limit : ℕ) where
    -- The rows of one page.
    unfoldable pub select_page : Option (ℕ × String) → Tables → List Order
    select_page cursor t = take limit (
        select_ascending (λ o. is_listed exchange market_type route t o && is_after cursor o) t
          t.orders)

    unfoldable pub list_non_terminal_joined_orders_page : Option (ℕ × String) → Action (List Order)
    list_non_terminal_joined_orders_page cursor = do
      statement
      rows ← gets (λ w. select_page cursor w.tables)
      validate_all rows

    -- Here, unlike in the lists, a failure of Redis is raised.
    unfoldable pub refresh_batch : Bool → List Order → Action (Unit {0})
    refresh_batch refresh [] = pure tt
    refresh_batch refresh (o ∷ rest) =
        if refresh then refresh_order_projection o >> refresh_batch refresh rest else pure tt

    -- The generator with the body of the `async for` that takes its batches; what it has yielded.
    -- The fuel bounds the number of pages.
    unfoldable pub iter_open_order_batches :
        Bool
        → (List Order → Action (Unit {0}))
        → ℕ
        → Option (ℕ × String)
        → Action (List (List Order))
    iter_open_order_batches refresh body zero cursor = pure []
    iter_open_order_batches refresh body (suc fuel) cursor = do
      orders ← list_non_terminal_joined_orders_page cursor
      elim orders [
        | [] ↦ pure []
        | o ∷ rest ↦ (do
          refresh_batch refresh (o ∷ rest)
          body (o ∷ rest)
          others ← iter_open_order_batches refresh body fuel (cursor_at (last_of o rest))
          pure ((o ∷ rest) ∷ others))
      ]
