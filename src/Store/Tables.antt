-- ===== src/Store/Tables.antt =====
-- The rows of order_intents, orders and outbox_events, and the statements on them of
-- packages/storage/src/storage/repositories/postgres/order_repo.py, order_intent_repo.py and
-- outbox_repo.py. `order_id` is the key of both order tables.
use crypto_derivative_algo_t.Prelude.{
  ℕ, ◌+◌, String, ◌&&◌, Option, none, some, List, [], ◌∷◌, ◌==◌, string_eq, nat_eq, if◌then◌else◌,
}
use crypto_derivative_algo_t.Schema.Enums.{OrderStatus}
use crypto_derivative_algo_t.Schema.Order.{Origin, Terms, Progress, Order}

pub record IntentRow : Type 0 where
  pub order_id : String
  pub origin : Origin
  pub terms : Terms
  pub created_ts : ℕ

pub record OrderRow : Type 0 where
  pub order_id : String
  pub terms : Terms
  pub progress : Progress
  pub created_ts : ℕ
  pub version : ℕ

pub data EventType : Type 0 where
  order_created order_status_changed : EventType

-- The payload of ORDER_CREATED is the order; that of ORDER_STATUS_CHANGED has the previous status too.
pub record OutboxEvent : Type 0 where
  pub aggregate_id : String
  pub event_type : EventType
  pub previous_status : Option OrderStatus
  pub order : Order
  pub created_ts : ℕ

pub record Tables : Type 0 where
  pub intents : List IntentRow
  pub orders : List OrderRow
  pub outbox : List OutboxEvent

unfoldable pub find_intent : String → List IntentRow → Option IntentRow
find_intent k [] = none
find_intent k (r ∷ rows) = if r.order_id == k then some r else find_intent k rows

unfoldable pub find_order : String → List OrderRow → Option OrderRow
find_order k [] = none
find_order k (r ∷ rows) = if r.order_id == k then some r else find_order k rows

abbrev pub intent_row : Order → IntentRow
intent_row o = record {
  order_id = o.order_id;
  origin = o.origin;
  terms = o.terms;
  created_ts = o.created_ts;
}

abbrev cast_given : (String → String) → Option String → Option String
cast_given cast none = none
cast_given cast (some s) = some (cast s)

-- The quantity and the two prices are written with the cast `::numeric` and read as text. What
-- PostgreSQL gives back for a text is an argument.
abbrev pub numeric_terms : (String → String) → Terms → Terms
numeric_terms as_numeric t = record t {
  quantity = as_numeric t.quantity;
  price = cast_given as_numeric t.price;
  trigger_price = cast_given as_numeric t.trigger_price;
}

-- insert_values, over INSERT_COLUMNS
abbrev pub order_row : (String → String) → Order → OrderRow
order_row as_numeric o = record {
  order_id = o.order_id;
  terms = numeric_terms as_numeric o.terms;
  progress = o.progress;
  created_ts = o.created_ts;
  version = o.version;
}

-- The row that `_joined_order_select_sql` gives: the origin and the time in force come from the
-- intent, all else from the order.
unfoldable pub joined : OrderRow → IntentRow → Order
joined o i = record {
  order_id = o.order_id;
  origin = i.origin;
  terms = record o.terms { time_in_force = i.terms.time_in_force };
  progress = o.progress;
  created_ts = o.created_ts;
  version = o.version;
}

-- The row after UPDATE: the columns of TRANSITION_UPDATE_COLUMNS, and `version = version + 1`.
abbrev pub rewritten : Progress → OrderRow → OrderRow
rewritten p r = record r { progress = p; version = r.version + 1 }

-- UPDATE orders ... WHERE order_id = $1 AND version = $n
unfoldable pub update_order : String → ℕ → Progress → List OrderRow → List OrderRow
update_order k expected p [] = []
update_order k expected p (r ∷ rows) =
    if r.order_id == k && r.version == expected
    then rewritten p r ∷ rows
    else r ∷ update_order k expected p rows
