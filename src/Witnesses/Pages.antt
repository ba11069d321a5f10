-- ===== src/Witnesses/Pages.antt =====
-- The pages of a store of two open orders, with texts compared by the codes of their characters.
use Prim.Native.Char.{code}
use text.Mathlib.TextEquality.{Char-path}
use crypto_derivative_algo_t.Prelude.{
  String, ◌≡◌, ◌≢◌, refl, Bool, true, false, ◌&&◌, ◌||◌, none, some, List, [], ◌∷◌, ◌==◌, ltb, eqb,
  string_eq, ==_iff, count_if, arith, All, upper, strip,
}
use crypto_derivative_algo_t.Schema.Enums
use crypto_derivative_algo_t.Schema.Enums.{
  Exchange, MarketType, OrderStatus, ConditionalStatus, PositionSide, PositionAction,
}
use crypto_derivative_algo_t.Schema.Order.{Order}
use crypto_derivative_algo_t.Schema.Validate.{
  given_or_fresh, client_ids, check_order_route, normalize_position_metadata_for_order,
  validate_order_type_required_fields, or_default, normalize_terms, normalize_order,
}
use crypto_derivative_algo_t.Failure.{ok}
use crypto_derivative_algo_t.Store.Tables.{order_row, intent_row, find_order, find_intent, joined}
use crypto_derivative_algo_t.Store.Action.{World, pure}
use crypto_derivative_algo_t.Service.Repository.{find_joined}
use crypto_derivative_algo_t.Service.Pages.{
  is_listed, iter_open_order_batches, select_ascending, insert_ascending, is_after,
}
use crypto_derivative_algo_t.Service.Ascending.{IsTextOrder}
use crypto_derivative_algo_t.Service.Paging.{times_listed}
use crypto_derivative_algo_t.Service.Batches.{concat, open_orders_are_paged}
use crypto_derivative_algo_t.Samples.{order_at, empty_world}

unfoldable by_codes : String → String → Bool
by_codes String.[] String.[] = false
by_codes String.[] (String.◌∷◌ d t) = true
by_codes (String.◌∷◌ c s) String.[] = false
by_codes (String.◌∷◌ c s) (String.◌∷◌ d t) =
    ltb (code c) (code d) || (eqb (code c) (code d) && by_codes s t)

by_codes_irrefl : (s : String) → by_codes s s ≡ false
unfolding by_codes
by_codes_irrefl String.[] = refl
by_codes_irrefl (String.◌∷◌ c s) = ground (arith, by_codes_irrefl s)

by_codes_trans : (r s t : String) → by_codes r s ≡ true → by_codes s t ≡ true → by_codes r t ≡ true
unfolding by_codes
by_codes_trans String.[] String.[] t h k = cc
by_codes_trans String.[] (String.◌∷◌ d s) String.[] h k = cc
by_codes_trans String.[] (String.◌∷◌ d s) (String.◌∷◌ e t) h k = refl
by_codes_trans (String.◌∷◌ c r) String.[] t h k = cc
by_codes_trans (String.◌∷◌ c r) (String.◌∷◌ d s) String.[] h k = cc
by_codes_trans (String.◌∷◌ c r) (String.◌∷◌ d s) (String.◌∷◌ e t) h k =
    ground (arith, by_codes_trans r s t)

by_codes_total : (s t : String) → s ≢ t → by_codes s t ≡ false → by_codes t s ≡ true
unfolding by_codes
by_codes_total String.[] String.[] d h = absurd (d refl)
by_codes_total String.[] (String.◌∷◌ e t) d h = cc
by_codes_total (String.◌∷◌ c s) String.[] d h = refl
by_codes_total (String.◌∷◌ c s) (String.◌∷◌ e t) d h =
    ground (arith, Char-path c e, by_codes_total s t, d)

by_codes-IsTextOrder : IsTextOrder by_codes
by_codes-IsTextOrder = record {
  irreflexive = by_codes_irrefl;
  transitive = by_codes_trans;
  total = by_codes_total;
}

abbrev first : Order
first = order_at OrderStatus.acknowledged 3

abbrev second : Order
second = record first { order_id = "B2" }

abbrev stored : World
stored = record empty_world {
  tables = record {
    intents = intent_row first ∷ intent_row second ∷ [];
    orders = order_row (λ s. s) first ∷ order_row (λ s. s) second ∷ [];
    outbox = [];
  };
}

abbrev listed : Order → Bool
listed = is_listed Enums.binance Enums.perp (some Enums.regular) stored.tables

stored-valid :
    All
      (λ o. normalize_order "" o ≡ ok o)
      (select_ascending by_codes listed stored.tables stored.tables.orders)
unfolding select_ascending is_listed find_joined find_order find_intent joined insert_ascending
    is_after by_codes normalize_order normalize_terms given_or_fresh client_ids check_order_route
    normalize_position_metadata_for_order validate_order_type_required_fields upper strip or_default
stored-valid = (refl, (refl, tt))

keys_differ : first.order_id ≢ second.order_id
keys_differ e = cc ((==_iff {A = String} "A1" "B2").1 e)

open_orders_are_paged_example :
    (batches : List (List Order)) × ((iter_open_order_batches by_codes Enums.binance Enums.perp
        (some Enums.regular)
        1
        false
        (λ batch. pure tt)
        3
        none
        stored).0
      ≡ ok batches)
    × ((k : String)
        → count_if (λ o. o.order_id == k) (concat batches)
          ≡ times_listed listed (find_joined k stored.tables))
unfolding pure select_ascending is_listed find_joined find_order find_intent joined insert_ascending
    is_after by_codes
open_orders_are_paged_example =
    open_orders_are_paged by_codes by_codes-IsTextOrder Enums.binance Enums.perp
      (some Enums.regular) stored.tables ((keys_differ, tt), (tt, tt)) 0 stored-valid
      (λ batch. pure tt) (λ batch w. refl) 3 stored
      (record { tables_are = refl; answers = λ n. refl }) (omega arith)
