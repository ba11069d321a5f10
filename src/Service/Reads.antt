-- ===== src/Service/Reads.antt =====
-- What the methods of OrderStateService that load an order leave alone.
use crypto_derivative_algo_t.Prelude.{String, ◌≡◌, ◌∙◌, Bool, Option, none, some}
use crypto_derivative_algo_t.Schema.Order.{Order}
use crypto_derivative_algo_t.Store.Tables.{Tables}
use crypto_derivative_algo_t.Store.Redis.{Redis}
use crypto_derivative_algo_t.Store.Action.{World, statement, redis_call, set_redis}
use crypto_derivative_algo_t.Service.Repository.{save, get, get_joined_order, model_validate}
use crypto_derivative_algo_t.Service.OrderState.{
  refresh_order_projection, load_order, load_order_from_postgres, from_row, from_projection,
}
use crypto_derivative_algo_t.Service.Keeps.{
  Keeps, IsStorage, keeps_rules, Keeps-statement, Keeps-redis_call, Keeps-ignore_errors,
}

-- The tables are these.
abbrev pub TablesAre : Tables → World → Type 0
TablesAre t w = w.tables ≡ t

pub TablesAre-storage : (t : Tables) → IsStorage (TablesAre t)
TablesAre-storage t = record { carry = λ w w' s r h. s ∙ h }

module _ (t : Tables) where
  set_redis-TablesAre : (r : Redis) → Keeps (TablesAre t) (set_redis r)
  unfolding set_redis
  set_redis-TablesAre r = record { keeps = λ w h. h }

  statement-TablesAre : Keeps (TablesAre t) statement
  statement-TablesAre = Keeps-statement (TablesAre-storage t)

  redis_call-TablesAre : Keeps (TablesAre t) redis_call
  redis_call-TablesAre = Keeps-redis_call (TablesAre-storage t)

  pub save-TablesAre : (o : Order) → Keeps (TablesAre t) (save o)
  unfolding save
  save-TablesAre o = search (keeps_rules, set_redis-TablesAre, redis_call-TablesAre)

  from_row-TablesAre :
      (refresh : Bool) (o : Option Order) → Keeps (TablesAre t) (from_row refresh o)
  unfolding from_row model_validate refresh_order_projection
  from_row-TablesAre refresh none = search keeps_rules
  from_row-TablesAre refresh (some o) = search (keeps_rules, Keeps-ignore_errors, save-TablesAre)

  load_order_from_postgres-TablesAre :
      (k : String) (refresh : Bool) → Keeps (TablesAre t) (load_order_from_postgres k refresh)
  unfolding load_order_from_postgres get_joined_order
  load_order_from_postgres-TablesAre k refresh =
      search (keeps_rules, statement-TablesAre, from_row-TablesAre)

  from_projection-TablesAre :
      (k : String) (refresh : Bool) (found : Option Order)
      → Keeps (TablesAre t) (from_projection k refresh found)
  unfolding from_projection model_validate
  from_projection-TablesAre k refresh none = search load_order_from_postgres-TablesAre
  from_projection-TablesAre k refresh (some o) =
      search (keeps_rules, load_order_from_postgres-TablesAre)

  -- Loading an order reads the tables and never writes them.
  pub load_order-TablesAre :
      (k : String) (refresh : Bool) → Keeps (TablesAre t) (load_order k refresh)
  unfolding load_order get
  load_order-TablesAre k refresh =
      search (keeps_rules, redis_call-TablesAre, from_projection-TablesAre)
