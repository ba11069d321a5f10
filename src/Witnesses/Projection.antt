-- ===== src/Witnesses/Projection.antt =====
-- Properties of the projection, at concrete inputs.
use crypto_derivative_algo_t.Prelude.{
  ◌≡◌, ◌==◌, string_eq, false, none, some, [], ◌∷◌, if◌then◌else◌,
}
use crypto_derivative_algo_t.Schema.Enums.{OrderStatus}
use crypto_derivative_algo_t.Store.Redis.{Redis, Live, write_projection}
use crypto_derivative_algo_t.Store.Projection.{
  IsIndexed, live_version, newest, upsert_all, write_projection-IsIndexed, live_version-upsert_all,
}
use crypto_derivative_algo_t.Samples.{order_at, no_redis}
use crypto_derivative_algo_t.Samples.{fresh, filled}

-- The hash of an older version of the order.
abbrev old_hash : Live
old_hash = record { order = order_at OrderStatus.unknown 2; expires = false }

abbrev with_old : Redis
with_old = record no_redis { live = λ k. if k == "A1" then some old_hash else none }

write_projection-IsIndexed_example : IsIndexed filled with_old (write_projection filled with_old)
write_projection-IsIndexed_example = write_projection-IsIndexed filled with_old

live_version-upsert_all_example :
    live_version ((upsert_all (filled ∷ fresh ∷ []) with_old).live "A1")
    ≡ newest "A1" (filled ∷ fresh ∷ []) 2
live_version-upsert_all_example = live_version-upsert_all (filled ∷ fresh ∷ []) with_old "A1"
