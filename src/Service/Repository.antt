-- ===== src/Service/Repository.antt =====
-- The methods of OrderPostgresRepository, OrderIntentPostgresRepository, OutboxPostgresRepository and
-- OrderStateRedisRepository (packages/storage/src/storage/repositories) that the services call for
-- one order.
use crypto_derivative_algo_t.Prelude.{
  ℕ, ◌+◌, String, Bool, not, Option, none, some, [], ◌∷◌, ◌++◌, ◌==◌, nat_eq, is_some,
  if◌then◌else◌,
}
use crypto_derivative_algo_t.Schema.Order.{Order}
use crypto_derivative_algo_t.Schema.Validate.{normalize_order}
use crypto_derivative_algo_t.Failure.{
  Result, ok, err, ErrorCode, plus, minus, text, postgres_error, value_error, runtime_error,
  stale_order_version,
}
use crypto_derivative_algo_t.Store.Tables.{
  Tables, OrderRow, IntentRow, OutboxEvent, find_intent, find_order, intent_row, order_row, joined,
  update_order,
}
use crypto_derivative_algo_t.Store.Redis.{
  Live, upsert_projection_if_newer, is_projectable, read_hash,
}
use crypto_derivative_algo_t.Store.Action.{
  Action, pure, raise, lift, gets, ◌>>=◌, ◌>>◌, raise_if, statement, redis_call, set_tables,
  set_redis,
}

-- OrderIntentPostgresRepository.insert
unfoldable pub insert_intent : Order → Action (Unit {0})
unfolding ◌>>=◌ statement set_tables
insert_intent o = do
  statement
  t ← gets (λ w. w.tables)
  raise_if (is_some (find_intent o.order_id t.intents)) postgres_error
  set_tables (record t { intents = t.intents ++ intent_row o ∷ [] })

-- OrderPostgresRepository.insert_initial
unfoldable pub insert_initial : Order → Action (Unit {0})
unfolding ◌>>=◌ statement set_tables
insert_initial o = do
  statement
  t ← gets (λ w. w.tables)
  raise_if (is_some (find_order o.order_id t.orders)) postgres_error
  as_numeric ← gets (λ w. w.as_numeric)
  set_tables (record t { orders = t.orders ++ order_row as_numeric o ∷ [] })

-- OutboxPostgresRepository.insert
unfoldable pub insert_event : OutboxEvent → Action (Unit {0})
unfolding ◌>>=◌ statement set_tables
insert_event e = do
  statement
  t ← gets (λ w. w.tables)
  set_tables (record t { outbox = t.outbox ++ e ∷ [] })

-- The `if row is None` of `transition`: a row of another version, or none at all.
missed : ℕ → Option OrderRow → Action ℕ
unfolding ◌>>=◌ statement
missed expected none = do statement; raise runtime_error
missed expected (some r) = do
  statement
  raise (stale_order_version expected r.version r.progress.status)

attempt_update : Order → ℕ → Option OrderRow → Action ℕ
unfolding missed set_tables
attempt_update o expected none = missed expected none
attempt_update o expected (some r) =
    if r.version == expected
    then (do
      t ← gets (λ w. w.tables)
      set_tables (record t { orders = update_order o.order_id expected o.progress t.orders })
      pure (r.version + 1))
    else missed expected (some r)

-- The error code is written with the cast `::bigint`, which takes no text.
cast_code : Option ErrorCode → Result (Unit {0})
cast_code none = ok tt
cast_code (some (plus n)) = ok tt
cast_code (some (minus n)) = ok tt
cast_code (some (text s)) = err postgres_error

-- OrderPostgresRepository.transition; the new version is all that its caller reads of the row.
unfoldable pub transition : Order → ℕ → Action ℕ
unfolding ◌>>=◌ statement attempt_update cast_code
transition o expected = do
  statement
  lift (cast_code o.exchange_error_code)
  t ← gets (λ w. w.tables)
  attempt_update o expected (find_order o.order_id t.orders)

join_rows : Option OrderRow → Option IntentRow → Option Order
join_rows (some o) (some i) = some (joined o i)
join_rows _ _ = none

unfoldable pub find_joined : String → Tables → Option Order
unfolding join_rows
find_joined k t = join_rows (find_order k t.orders) (find_intent k t.intents)

-- OrderPostgresRepository.get_joined_order
unfoldable pub get_joined_order : String → Action (Option Order)
unfolding ◌>>=◌ statement
get_joined_order k = do statement; gets (λ w. find_joined k w.tables)

-- Order.model_validate(row). A stored order has an id, so none is generated.
unfoldable pub model_validate : Order → Action Order
unfolding lift
model_validate o = lift (normalize_order "" o)

-- OrderStateRedisRepository.save
unfoldable pub save : Order → Action Bool
unfolding ◌>>=◌ redis_call set_redis
save o = do
  raise_if (not (is_projectable o)) value_error
  redis_call
  r ← gets (λ w. w.redis)
  set_redis (upsert_projection_if_newer o r).1
  pure (upsert_projection_if_newer o r).0

unfoldable pub read_live : Option Live → Option Order
read_live none = none
read_live (some l) = some (read_hash l.order)

-- OrderStateRedisRepository.get
unfoldable pub get : String → Action (Option Order)
unfolding ◌>>=◌ redis_call
get k = do redis_call; gets (λ w. read_live (w.redis.live k))
