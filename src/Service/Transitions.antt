-- ===== src/Service/Transitions.antt =====
-- What the transactions of OrderStateService leave behind, on every path.
use crypto_derivative_algo_t.Prelude.{◌+◌, ◌≡◌, none, some, [], ◌∷◌, ◌++◌, string_eq, nat_eq, arith}
use crypto_derivative_algo_t.Schema.Order.{Order}
use crypto_derivative_algo_t.Failure.{Result, ok, err}
use crypto_derivative_algo_t.Store.Tables.{
  OrderRow, find_intent, find_order, intent_row, order_row, update_order,
}
use crypto_derivative_algo_t.Store.Action.{World}
use crypto_derivative_algo_t.Service.OrderState.{
  created_event, changed_event, create_rows, transition_rows,
}

-- Neither the tables nor Redis have changed.
pub record Untouched (w w' : World) : Type 0 where
  pub tables_same : w'.tables ≡ w.tables
  pub redis_same : w'.redis ≡ w.redis

-- A transition that was committed: the row of the order had the version that the caller knew, it
-- has now the new progress and the next version, and the outbox has one more event, of the order as
-- it was written.
pub record Committed (current updated persisted : Order) (w w' : World) : Type 0 where
  pub row : OrderRow
  pub found : find_order updated.order_id w.tables.orders ≡ some row
  pub known : row.version ≡ current.version
  pub persisted_is : persisted ≡ record updated { version = row.version + 1 }
  pub tables_are : w'.tables ≡ record w.tables {
    orders = update_order updated.order_id current.version updated.progress w.tables.orders;
    outbox = w.tables.outbox ++ changed_event current persisted ∷ [];
  }
  pub redis_same : w'.redis ≡ w.redis

abbrev pub TransitionPost : Order → Order → World → Result Order × World → Type 0
TransitionPost current updated w (ok p, w') = Committed current updated p w w'
TransitionPost current updated w (err e, w') = Untouched w w'

pub transition_rows_post :
    (current updated : Order) (w : World)
    → TransitionPost current updated w (transition_rows current updated w)
unfolding transition_rows
transition_rows_post current updated w = ground arith

abbrev pub CreatePost : Order → World → Result (Unit {0}) × World → Type 0
CreatePost o w (ok _, w') =
    (find_intent o.order_id w.tables.intents ≡ none)
    × (find_order o.order_id w.tables.orders ≡ none)
    × (w'.tables ≡ record {
      intents = w.tables.intents ++ intent_row o ∷ [];
      orders = w.tables.orders ++ order_row w.as_numeric o ∷ [];
      outbox = w.tables.outbox ++ created_event o ∷ [];
    })
    × (w'.redis ≡ w.redis)
CreatePost o w (err e, w') = Untouched w w'

pub create_rows_post : (o : Order) (w : World) → CreatePost o w (create_rows o w)
unfolding create_rows
create_rows_post o w = ground arith
