-- ===== src/Store/Action.antt =====
-- The coroutines of the gateway as actions on a shared world: they return or raise, and what was
-- written before a raise stays written, except inside a transaction. Faults of PostgreSQL and Redis,
-- the clock and the id generator are given in advance, one answer for each call.
use crypto_derivative_algo_t.Prelude.{ℕ, suc, String, Bool, if◌then◌else◌}
use crypto_derivative_algo_t.Failure.{Failure, Result, ok, err, postgres_error, redis_error}
use crypto_derivative_algo_t.Store.Tables.{Tables}
use crypto_derivative_algo_t.Store.Redis.{Redis}

-- The answers of everything outside of the process, and how many have been asked for. `as_numeric` is
-- the text that PostgreSQL gives back for a text that was stored as a number.
pub record Oracle : Type 0 where
  pub clock : ℕ → ℕ
  pub reads : ℕ
  pub postgres_fails : ℕ → Bool
  pub postgres_calls : ℕ
  pub redis_fails : ℕ → Bool
  pub redis_calls : ℕ
  pub new_ids : ℕ → String
  pub as_numeric : String → String
  pub ids : ℕ

pub record World : Type 0 where
  pub tables : Tables
  pub open tables use *
  pub redis : Redis
  pub oracle : Oracle
  pub open oracle use *

abbrev pub Action : Type 0 → Type 0
Action A = World → Result A × World

module _ {A : Type 0} where
  unfoldable pub pure : A → Action A
  pure a w = (ok a, w)

  unfoldable pub raise : Failure → Action A
  raise e w = (err e, w)

  unfoldable pub lift : Result A → Action A
  lift r w = (r, w)

  unfoldable pub gets : (World → A) → Action A
  gets f w = (ok (f w), w)

  abbrev pub handle : Result A → (Failure → Action A) → Action A
  handle (ok a) h w = (ok a, w)
  handle (err e) h w = h e w

  -- `try: m` with `except` clauses that get every exception.
  unfoldable pub try_except : Action A → (Failure → Action A) → Action A
  try_except m h w = let (r, w') = m w in handle r h w'

  abbrev commit_or_roll_back : Tables → Result A → World → Result A × World
  commit_or_roll_back before (ok a) w = (ok a, w)
  commit_or_roll_back before (err e) w = (err e, record w { tables = before })

  -- `async with conn.transaction()`: an exception takes back what its body wrote.
  unfoldable pub transaction : Action A → Action A
  transaction m w = let (r, w') = m w in commit_or_roll_back w.tables r w'

module _ {A B : Type 0} where
  abbrev pub continue : Result A → (A → Action B) → Action B
  continue (ok a) f w = f a w
  continue (err e) f w = (err e, w)

  infixl 10 ◌>>=◌ ◌>>◌
  unfoldable pub ◌>>=◌ : Action A → (A → Action B) → Action B
  unfolding pure raise lift gets
  ◌>>=◌ m f w = let (r, w') = m w in continue r f w'

  abbrev pub ◌>>◌ : Action A → Action B → Action B
  m >> n = m >>= λ _. n

-- `if test: raise e`
abbrev pub raise_if : Bool → Failure → Action (Unit {0})
raise_if b e = if b then raise e else pure tt

-- Whatever `m` raises is logged and dropped.
unfoldable pub ignore_errors : {A : Type 0} → Action A → Action (Unit {0})
unfolding try_except ◌>>=◌
ignore_errors m = try_except (m >> pure tt) (λ _. pure tt)

-- epoch_ms()
unfoldable pub epoch_ms : Action ℕ
epoch_ms w = (ok (w.clock w.reads), record w { oracle = record w.oracle { reads = suc w.reads } })

-- generate_order_id(...)
unfoldable pub generate_order_id : Action String
generate_order_id w =
    (ok (w.new_ids w.ids), record w { oracle = record w.oracle { ids = suc w.ids } })

-- One call of the database, which may raise.
unfoldable pub statement : Action (Unit {0})
statement w = (
  if w.postgres_fails w.postgres_calls then err postgres_error else ok tt,
  record w { oracle = record w.oracle { postgres_calls = suc w.postgres_calls } },
)

-- One call of Redis, which may raise.
unfoldable pub redis_call : Action (Unit {0})
redis_call w = (
  if w.redis_fails w.redis_calls then err redis_error else ok tt,
  record w { oracle = record w.oracle { redis_calls = suc w.redis_calls } },
)

unfoldable pub set_tables : Tables → Action (Unit {0})
set_tables t w = (ok tt, record w { tables = t })

unfoldable pub set_redis : Redis → Action (Unit {0})
set_redis r w = (ok tt, record w { redis = r })
