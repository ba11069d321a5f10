-- ===== src/Service/Loads.antt =====
-- Loading an order keeps the agreement of Service/Consistency.
use crypto_derivative_algo_t.Prelude.{
  String, ◌≡◌, refl, Bool, true, false, Option, none, some, List, string_eq, ==_iff, arith,
}
use crypto_derivative_algo_t.Schema.Order.{Order}
use crypto_derivative_algo_t.Schema.Validate.{normalize_order, given_or_fresh, client_ids}
use crypto_derivative_algo_t.Failure.{Result, ok, err}
use crypto_derivative_algo_t.Store.Tables.{Tables, OrderRow, joined}
use crypto_derivative_algo_t.Store.Rows.{order_id-find_order}
use crypto_derivative_algo_t.Store.Action.{World, pure, lift, gets, ◌>>=◌, continue, statement}
use crypto_derivative_algo_t.Service.Repository.{
  find_joined, get_joined_order, model_validate, get, save,
}
use crypto_derivative_algo_t.Service.OrderState.{
  refresh_order_projection, refresh_if, from_row, from_projection, load_order_from_postgres,
  load_order,
}
use crypto_derivative_algo_t.Service.Keeps.{
  Keeps, keeps_rules, Keeps-try_except, Keeps-bind, Keeps-statement, Keeps-redis_call, Keeps-gets,
}
use crypto_derivative_algo_t.Service.Agreement.{
  IsConsistent, IsConsistent-storage, IsCurrent, save-IsConsistent, ignore_errors_lem,
}

-- Validation keeps what identifies an order.
pub normalize_order-key :
    (o o' : Order)
    → normalize_order "" o ≡ ok o'
    → (o'.order_id ≡ o.order_id) × (o'.version ≡ o.version) × (o'.status ≡ o.status)
unfolding normalize_order given_or_fresh client_ids
normalize_order-key o o' h = ground (arith, ==_iff o.order_id "")

-- A joined order has the id that was asked for, and the version and the status of its row.
pub find_joined-IsCurrent :
    (k : String) (t : Tables) (o : Order)
    → find_joined k t ≡ some o
    → (o.order_id ≡ k) × IsCurrent t.orders o
unfolding find_joined joined
find_joined-IsCurrent k t o h = (
  grind (arith, order_id-find_order),
  record {
    not_newer = grind (arith, order_id-find_order);
    agrees = λ r f v. grind (arith, order_id-find_order);
  },
)

-- Validation keeps an order current.
pub normalize_order-IsCurrent :
    (rows : List OrderRow) (o o' : Order)
    → normalize_order "" o ≡ ok o'
    → IsCurrent rows o
    → IsCurrent rows o'
normalize_order-IsCurrent rows o o' e c = record {
  not_newer = ground (arith, normalize_order-key o o' e, c.not_newer);
  agrees = λ r f v. ground (arith, normalize_order-key o o' e, c.agrees r);
}

refreshed :
    (refresh : Bool) (o : Order) (w : World)
    → IsCurrent w.tables.orders o
    → IsConsistent w
    → IsConsistent (refresh_if refresh o w).1
unfolding refresh_order_projection pure
refreshed true o w v h = rw (ignore_errors_lem (save o) w) (save-IsConsistent o w v h)
refreshed false o w v h = h

-- `from_row` on a row that the table holds.
row_refreshed :
    (refresh : Bool) (row : Order) (w : World)
    → IsCurrent w.tables.orders row
    → IsConsistent w
    → IsConsistent (from_row refresh (some row) w).1
unfolding from_row model_validate ◌>>=◌ lift pure
row_refreshed refresh row w v h = by_result (normalize_order "" row) refl
  where
    returned :
        (o : Order) (r : Result (Unit {0}) × World)
        → IsConsistent r.1
        → IsConsistent (continue r.0 (λ _. pure (some o)) r.1).1
    returned o (ok u, w') k = k
    returned o (err e, w') k = k

    by_result :
        (r : Result Order)
        → normalize_order "" row ≡ r
        → IsConsistent
            (continue r (λ order. refresh_if refresh order >>= λ _. pure (some order)) w).1
    by_result (ok o) e =
        returned o (refresh_if refresh o w)
          (refreshed refresh o w (normalize_order-IsCurrent w.tables.orders row o e v) h)
    by_result (err e) p = h

from_row-IsConsistent :
    (refresh : Bool) (k : String) (found : Option Order) (w : World)
    → find_joined k w.tables ≡ found
    → IsConsistent w
    → IsConsistent (from_row refresh found w).1
unfolding from_row pure
from_row-IsConsistent refresh k none w f h = h
from_row-IsConsistent refresh k (some o) w f h =
    row_refreshed refresh o w (find_joined-IsCurrent k w.tables o f).1 h

-- Loading from the tables, with or without a refresh of the projection.
pub load_order_from_postgres-IsConsistent :
    (k : String) (refresh : Bool) → Keeps IsConsistent (load_order_from_postgres k refresh)
unfolding load_order_from_postgres get_joined_order ◌>>=◌ gets
load_order_from_postgres-IsConsistent k refresh = record {
  keeps = λ w h. by_result (statement w) ((Keeps-statement IsConsistent-storage).keeps w h);
}
  where
    by_result :
        (r : Result (Unit {0}) × World)
        → IsConsistent r.1
        → IsConsistent
            (let (a, w) = continue r.0 (λ _. gets (λ w. find_joined k w.tables)) r.1 in
              continue a (from_row refresh) w).1
    by_result (ok u, w) h = from_row-IsConsistent refresh k (find_joined k w.tables) w refl h
    by_result (err e, w) h = h

from_projection-IsConsistent :
    (k : String) (refresh : Bool) (found : Option Order)
    → Keeps IsConsistent (from_projection k refresh found)
unfolding from_projection model_validate
from_projection-IsConsistent k refresh none = load_order_from_postgres-IsConsistent k refresh
from_projection-IsConsistent k refresh (some row) =
    Keeps-try_except _ _ (search keeps_rules) (λ _. load_order_from_postgres-IsConsistent k refresh)

-- Loading from the projection or the tables.
pub load_order-IsConsistent :
    (k : String) (refresh : Bool) → Keeps IsConsistent (load_order k refresh)
unfolding load_order get
load_order-IsConsistent k refresh =
    Keeps-bind _ _ (Keeps-bind _ _ (Keeps-redis_call IsConsistent-storage) (λ _. Keeps-gets _))
      (from_projection-IsConsistent k refresh)
