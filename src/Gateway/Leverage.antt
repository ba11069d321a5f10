-- ===== src/Gateway/Leverage.antt =====
-- gateway/submission_service.py: `_dedupe_symbol_leverage_updates` and the loop over what it returns.
use crypto_derivative_algo_t.Prelude.{
  ℕ, String, Bool, ◌&&◌, Option, none, some, List, [], ◌∷◌, ◌==◌, string_eq, nat_eq, if◌then◌else◌,
  upper,
}
use crypto_derivative_algo_t.Schema.Enums.{Exchange, MarketType, exchange_eq, market_type_eq}
use crypto_derivative_algo_t.Schema.Order.{OrderRequest}
use crypto_derivative_algo_t.Failure.{attribute_error}
use crypto_derivative_algo_t.Store.Action.{Action, pure, raise}

-- ExchangeMarketLeverageInfo
pub record LeverageInfo : Type 0 where
  pub exchange : Exchange
  pub market_type : MarketType
  pub symbol : String
  pub leverage : ℕ

-- Whether two of them have the same key in the dictionary.
unfoldable pub same_market : LeverageInfo → LeverageInfo → Bool
same_market a b =
    a.exchange == b.exchange && a.market_type == b.market_type && upper a.symbol == upper b.symbol

-- `sym_to_lev[key] = info`: a key that is there keeps its place.
unfoldable pub put_info : LeverageInfo → List LeverageInfo → List LeverageInfo
put_info i [] = i ∷ []
put_info i (j ∷ rest) = if same_market j i then i ∷ rest else j ∷ put_info i rest

abbrev pub put_request : OrderRequest → Option ℕ → List LeverageInfo → List LeverageInfo
put_request r none infos = infos
put_request r (some leverage) infos =
    put_info
      (record {
        exchange = r.exchange;
        market_type = r.market_type;
        symbol = r.symbol;
        leverage = leverage;
      })
      infos

unfoldable pub dedupe_from : List LeverageInfo → List OrderRequest → List LeverageInfo
dedupe_from infos [] = infos
dedupe_from infos (r ∷ rest) = dedupe_from (put_request r r.leverage infos) rest

-- _dedupe_symbol_leverage_updates
unfoldable pub dedupe_symbol_leverage_updates : List OrderRequest → List LeverageInfo
dedupe_symbol_leverage_updates requests = dedupe_from [] requests

-- The loop over the updates. They are dictionaries, and the code reads attributes of them.
abbrev pub apply_updates : List LeverageInfo → Action (Unit {0})
apply_updates [] = pure tt
apply_updates (i ∷ rest) = raise attribute_error
