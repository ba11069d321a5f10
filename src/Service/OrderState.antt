-- ===== src/Service/OrderState.antt =====
-- The methods of OrderStateService that create, change and load one order.
use crypto_derivative_algo_t.Prelude.{String, Bool, Option, none, some, if◌then◌else◌}
use crypto_derivative_algo_t.Schema.Order.{Order}
use crypto_derivative_algo_t.Store.Tables.{OutboxEvent, order_created, order_status_changed}
use crypto_derivative_algo_t.Store.Action.{
  Action, pure, ◌>>=◌, ◌>>◌, try_except, transaction, ignore_errors, statement,
}
use crypto_derivative_algo_t.Service.Repository.{
  insert_intent, insert_initial, insert_event, transition, get_joined_order, model_validate, save,
  get,
}

abbrev pub created_event : Order → OutboxEvent
created_event o = record {
  aggregate_id = o.order_id;
  event_type = order_created;
  previous_status = none;
  order = o;
  created_ts = o.created_ts;
}

abbrev pub changed_event : Order → Order → OutboxEvent
changed_event current persisted = record {
  aggregate_id = persisted.order_id;
  event_type = order_status_changed;
  previous_status = some current.status;
  order = persisted;
  created_ts = persisted.updated_ts;
}

-- The transaction of `create_order`; the last statement is the commit.
unfoldable pub create_rows : Order → Action (Unit {0})
unfolding ◌>>=◌ transaction insert_intent insert_initial insert_event statement
create_rows o =
    transaction do insert_intent o; insert_initial o; insert_event (created_event o); statement

unfoldable pub create_order : Order → Action Order
create_order o = do create_rows o; save o; pure o

-- The transaction of `transition_order`.
unfoldable pub transition_rows : Order → Order → Action Order
unfolding ◌>>=◌ transaction transition insert_event statement
transition_rows current updated = transaction do
  version ← transition updated current.version
  let persisted = record updated { version = version }
  insert_event (changed_event current persisted)
  statement
  pure persisted

-- refresh_order_projection
unfoldable pub refresh_order_projection : Order → Action Bool
refresh_order_projection o = save o

-- A failure of Redis is logged; the rows are committed.
unfoldable pub transition_order : Order → Order → Action Order
transition_order current updated = do
  persisted ← transition_rows current updated
  ignore_errors (refresh_order_projection persisted)
  pure persisted

abbrev pub refresh_if : Bool → Order → Action (Unit {0})
refresh_if refresh o = if refresh then ignore_errors (refresh_order_projection o) else pure tt

unfoldable pub from_row : Bool → Option Order → Action (Option Order)
from_row refresh none = pure none
from_row refresh (some row) = do
  order ← model_validate row
  refresh_if refresh order
  pure (some order)

unfoldable pub load_order_from_postgres : String → Bool → Action (Option Order)
unfolding from_row
load_order_from_postgres order_id refresh = do row ← get_joined_order order_id; from_row refresh row

unfoldable pub from_projection : String → Bool → Option Order → Action (Option Order)
from_projection order_id refresh none = load_order_from_postgres order_id refresh
from_projection order_id refresh (some row) =
    try_except (do order ← model_validate row; pure (some order))
      (λ _. load_order_from_postgres order_id refresh)

-- load_order: the projection first, PostgreSQL if it has no hash or one that does not parse.
unfoldable pub load_order : String → Bool → Action (Option Order)
unfolding from_projection
load_order order_id refresh = do found ← get order_id; from_projection order_id refresh found
