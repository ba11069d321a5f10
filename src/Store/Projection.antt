-- ===== src/Store/Projection.antt =====
-- What the upsert script does to the live hashes and the indexes.
use crypto_derivative_algo_t.Prelude.{
  ℕ, ◌≤◌, String, ◌≡◌, ◌≢◌, refl, Bool, true, false, not, Option, none, some, List, [], ◌∷◌, ◌&&◌,
  ◌==◌, string_eq, ==_iff, same_refl, arith, if◌then◌else◌, upper, ◌∙◌, ap,
}
use Prim.Native.Nat.{max}
use crypto_derivative_algo_t.Schema.Enums.{
  Exchange, MarketType, OrderStatus, OrderRoute, exchange_eq, market_type_eq, ConditionalStatus,
}
use crypto_derivative_algo_t.Schema.Statuses
use crypto_derivative_algo_t.Schema.Statuses.{is_terminal}
use crypto_derivative_algo_t.Schema.Order.{Order}
use crypto_derivative_algo_t.Store.Redis.{
  Redis, Live, Sets, Scores, is_stale, merge_hash, put_member, put_score, write_projection,
  upsert_projection_if_newer, is_regular_open, is_conditional_open, needs_recovery, sadd, zadd,
  is_unresolved,
}

abbrev pub live_version : Option Live → ℕ
live_version none = 0
live_version (some l) = l.order.version

pub version-merge_hash : (o : Order) (old : Option Live) → (merge_hash o old).version ≡ o.version
unfolding merge_hash
version-merge_hash o none = refl
version-merge_hash o (some l) = refl

-- The hash of the order itself, and the others.
pub live-write_projection :
    (o : Order) (r : Redis) (k : String)
    → (write_projection o r).live k ≡ (
        if o.order_id == k
        then some
            (record { order = merge_hash o (r.live o.order_id); expires = is_terminal o.status })
        else r.live k)
unfolding write_projection
live-write_projection o r k = refl

-- The version of a hash after an upsert: the newer one for the order's own, and the old one for all
-- others.
pub live_version-upsert :
    (o : Order) (r : Redis) (k : String)
    → live_version ((upsert_projection_if_newer o r).1.live k) ≡ (
        if o.order_id == k
        then (if is_stale o.version (r.live o.order_id) then live_version (r.live k) else o.version)
        else live_version (r.live k))
unfolding upsert_projection_if_newer
live_version-upsert o r k =
    ground (arith, live-write_projection o r k, version-merge_hash o (r.live o.order_id))

-- An upsert never lowers the version of a hash, and afterwards the order's own hash is at least as
-- new as the order that was offered.
pub upsert_monotone :
    (o : Order) (r : Redis) (k : String)
    → (live_version (r.live k) ≤ live_version ((upsert_projection_if_newer o r).1.live k))
      × (o.version ≤ live_version ((upsert_projection_if_newer o r).1.live o.order_id))
unfolding is_stale
upsert_monotone o r k = ground (
  arith,
  live_version-upsert o r k,
  live_version-upsert o r o.order_id,
  ==_iff o.order_id k,
  same_refl o.order_id,
)

-- Where an order belongs, by its route and its two statuses.
abbrev pub regular_member : Option OrderRoute → OrderStatus → Bool
regular_member (some OrderRoute.regular) s = Statuses.is_regular_open s
regular_member (some OrderRoute.conditional) s = false
regular_member none s = false

abbrev pub conditional_member : Option OrderRoute → OrderStatus → Option ConditionalStatus → Bool
conditional_member (some OrderRoute.conditional) s c =
    Statuses.is_regular_open s && Statuses.is_conditional_trackable c
conditional_member (some OrderRoute.regular) s c = false
conditional_member none s c = false

abbrev pub recovery_member : Option OrderRoute → OrderStatus → Option ConditionalStatus → Bool
recovery_member r OrderStatus.submitted c = true
recovery_member r OrderStatus.pending_cancel c = true
recovery_member r OrderStatus.unknown c = true
recovery_member r s c = conditional_member r s c

abbrev pub unknown_member : OrderStatus → Option ConditionalStatus → Bool
unknown_member OrderStatus.unknown c = true
unknown_member s (some ConditionalStatus.unknown) = true
unknown_member s c = false

-- The indexes after an applied upsert, at every key and member.
pub record IsIndexed (o : Order) (r r' : Redis) : Type 0 where
  pub own_regular :
      r'.regular_open o.exchange o.market_type o.order_id ≡ regular_member o.order_route o.status
  pub own_conditional :
      r'.conditional_open o.exchange o.market_type o.order_id
      ≡ conditional_member o.order_route o.status o.conditional_status
  pub own_recovery : r'.recovery o.exchange o.market_type o.order_id ≡ (
      if recovery_member o.order_route o.status o.conditional_status
      then some o.updated_ts
      else none)
  pub own_unknown :
      r'.unknown o.exchange o.market_type o.order_id
      ≡ (if unknown_member o.status o.conditional_status then some o.updated_ts else none)
  pub own_symbol :
      r'.by_symbol (upper o.symbol) o.exchange o.market_type o.order_id
      ≡ Statuses.is_regular_open o.status
  pub other_symbols :
      (s : String) (e : Exchange) (m : MarketType) (k : String)
      → s ≢ upper o.symbol
      → r'.by_symbol s e m k ≡ r.by_symbol s e m k
  pub others :
      (e : Exchange) (m : MarketType) (k : String)
      → k ≢ o.order_id
      → (r'.regular_open e m k ≡ r.regular_open e m k)
        × (r'.conditional_open e m k ≡ r.conditional_open e m k)
        × (r'.recovery e m k ≡ r.recovery e m k)
        × (r'.unknown e m k ≡ r.unknown e m k)
        × ((s : String) → r'.by_symbol s e m k ≡ r.by_symbol s e m k)

put_member_self :
    (e : Exchange) (m : MarketType) (i : String) (b : Bool) (s : Sets)
    → put_member e m i b s e m i ≡ b
unfolding put_member
put_member_self e m i b s = rw (same_refl e, same_refl m, same_refl i)

put_score_self :
    (e : Exchange) (m : MarketType) (i : String) (b : Option ℕ) (s : Scores)
    → put_score e m i b s e m i ≡ b
unfolding put_score
put_score_self e m i b s = rw (same_refl e, same_refl m, same_refl i)

put_member_ne :
    (e e' : Exchange) (m m' : MarketType) (i k : String) (b : Bool) (s : Sets)
    → k ≢ i
    → put_member e m i b s e' m' k ≡ s e' m' k
unfolding put_member
put_member_ne e e' m m' i k b s h = ground (arith, ==_iff i k)

put_score_ne :
    (e e' : Exchange) (m m' : MarketType) (i k : String) (b : Option ℕ) (s : Scores)
    → k ≢ i
    → put_score e m i b s e' m' k ≡ s e' m' k
unfolding put_score
put_score_ne e e' m m' i k b s h = ground (arith, ==_iff i k)

module _ (e : Exchange) (m : MarketType) (i : String) where
  sadd_self : (b : Bool) (s : Sets) → sadd e m i b (put_member e m i false s) e m i ≡ b
  sadd_self true s = put_member_self e m i true (put_member e m i false s)
  sadd_self false s = put_member_self e m i false s

  zadd_self :
      (b : Bool) (t : ℕ) (s : Scores)
      → zadd e m i b t (put_score e m i none s) e m i ≡ (if b then some t else none)
  zadd_self true t s = put_score_self e m i (some t) (put_score e m i none s)
  zadd_self false t s = put_score_self e m i none s

  module _ (e' : Exchange) (m' : MarketType) (k : String) (other : k ≢ i) where
    sadd_ne : (b : Bool) (s : Sets) → sadd e m i b (put_member e m i false s) e' m' k ≡ s e' m' k
    sadd_ne true s =
        put_member_ne e e' m m' i k true (put_member e m i false s) other
        ∙ put_member_ne e e' m m' i k false s other
    sadd_ne false s = put_member_ne e e' m m' i k false s other

    zadd_ne :
        (b : Bool) (t : ℕ) (s : Scores)
        → zadd e m i b t (put_score e m i none s) e' m' k ≡ s e' m' k
    zadd_ne true t s =
        put_score_ne e e' m m' i k (some t) (put_score e m i none s) other
        ∙ put_score_ne e e' m m' i k none s other
    zadd_ne false t s = put_score_ne e e' m m' i k none s other

is_open : (s : OrderStatus) → not (is_terminal s) ≡ Statuses.is_regular_open s
is_open s = ground arith

regular_lem : (o : Order) → is_regular_open o ≡ regular_member o.order_route o.status
regular_lem o = ground arith

conditional_lem :
    (o : Order)
    → is_conditional_open o ≡ conditional_member o.order_route o.status o.conditional_status
conditional_lem o = ground arith

recovery_lem :
    (o : Order) → needs_recovery o ≡ recovery_member o.order_route o.status o.conditional_status
recovery_lem o = ground arith

unknown_lem : (o : Order) → is_unresolved o ≡ unknown_member o.status o.conditional_status
unknown_lem o = ground arith

-- The script leaves the order in exactly the indexes that it belongs to: the open orders of its
-- route and the symbol's orders while its status is one of the six open ones (for a conditional
-- order, while also its conditional status can still change), the orders to recover if it is
-- SUBMITTED, PENDING_CANCEL, UNKNOWN or an open conditional order, and the unknown ones if one of its
-- two statuses is UNKNOWN, with its update time as the score. No other order's membership changes in
-- any index, nor does any index of another symbol.
pub write_projection-IsIndexed : (o : Order) (r : Redis) → IsIndexed o r (write_projection o r)
unfolding write_projection
write_projection-IsIndexed o r = record {
  own_regular =
      sadd_self o.exchange o.market_type o.order_id (is_regular_open o) r.regular_open
      ∙ regular_lem o;
  own_conditional =
      sadd_self o.exchange o.market_type o.order_id (is_conditional_open o) r.conditional_open
      ∙ conditional_lem o;
  own_recovery =
      zadd_self o.exchange o.market_type o.order_id (needs_recovery o) o.updated_ts r.recovery
      ∙ rw (recovery_lem o) refl;
  own_unknown =
      zadd_self o.exchange o.market_type o.order_id (is_unresolved o) o.updated_ts r.unknown
      ∙ rw (unknown_lem o) refl;
  own_symbol = rw (same_refl (upper o.symbol)) (
      sadd_self o.exchange o.market_type o.order_id (not (is_terminal o.status))
        (r.by_symbol (upper o.symbol))
      ∙ is_open o.status);
  other_symbols = λ s e m k h. ground (arith, ==_iff (upper o.symbol) s);
  others = λ e m k h. (
    sadd_ne o.exchange o.market_type o.order_id e m k h (is_regular_open o) r.regular_open,
    sadd_ne o.exchange o.market_type o.order_id e m k h (is_conditional_open o) r.conditional_open,
    zadd_ne o.exchange o.market_type o.order_id e m k h (needs_recovery o) o.updated_ts r.recovery,
    zadd_ne o.exchange o.market_type o.order_id e m k h (is_unresolved o) o.updated_ts r.unknown,
    λ s. ground (
      arith,
      ==_iff (upper o.symbol) s,
      sadd_ne o.exchange o.market_type o.order_id e m k h (not (is_terminal o.status))
          (r.by_symbol (upper o.symbol)),
    ),
  );
}

-- Offering orders one after the other.
unfoldable pub upsert_all : List Order → Redis → Redis
upsert_all [] r = r
upsert_all (o ∷ rest) r = upsert_all rest (upsert_projection_if_newer o r).1

-- The highest of a version and those of the orders of a list that have one id.
abbrev pub newest : String → List Order → ℕ → ℕ
newest k [] v = v
newest k (o ∷ rest) v = newest k rest (if o.order_id == k then max o.version v else v)

live_version-upsert_max :
    (o : Order) (r : Redis) (k : String)
    → live_version ((upsert_projection_if_newer o r).1.live k) ≡ (
        if o.order_id == k
        then max o.version (live_version (r.live k))
        else live_version (r.live k))
unfolding is_stale
live_version-upsert_max o r k = ground (arith, live_version-upsert o r k, ==_iff o.order_id k)

-- In whatever order projections arrive, each hash ends at the highest version that was offered for
-- it, or that it had.
pub live_version-upsert_all :
    (orders : List Order) (r : Redis) (k : String)
    → live_version ((upsert_all orders r).live k) ≡ newest k orders (live_version (r.live k))
unfolding upsert_all
live_version-upsert_all [] r k = refl
live_version-upsert_all (o ∷ rest) r k =
    live_version-upsert_all rest (upsert_projection_if_newer o r).1 k
    ∙ ap (newest k rest) (live_version-upsert_max o r k)
