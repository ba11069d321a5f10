-- ===== src/Witnesses/Edges.antt =====
-- Properties of the requests to Binance and the ids, at concrete inputs.
use crypto_derivative_algo_t.Prelude.{false, Option, none, some, [], ◌∷◌, count_if, if◌then◌else◌}
use crypto_derivative_algo_t.Schema.Order.{Order, OrderRequest}
use crypto_derivative_algo_t.Failure.{runtime_error}
use crypto_derivative_algo_t.Store.Action.{Action, raise}
use crypto_derivative_algo_t.Intents.Handler.{Intent, RiskDecision, is_seen, process_all}
use crypto_derivative_algo_t.Intents.Once.{is_processed, has_key, processed_once}
use crypto_derivative_algo_t.Samples.{empty_world}
use crypto_derivative_algo_t.Prelude.{
  ltb, ℕ, ◌≢◌, ◌≡◌, refl, String, string_eq, true, upper, strip, ==_iff, none, some, arith,
  if◌then◌else◌,
}
use crypto_derivative_algo_t.Schema.Enums
use crypto_derivative_algo_t.Schema.Enums.{
  Exchange, MarketType, OrderStatus, ConditionalStatus, PositionSide, PositionAction,
}
use crypto_derivative_algo_t.Schema.Order.{Order}
use crypto_derivative_algo_t.Schema.Normal.{IsNormal}
use crypto_derivative_algo_t.Binance.Router.{regular_request, conditional_request}
use crypto_derivative_algo_t.Binance.Requests.{
  Gives, IsRegularRequest, IsConditionalRequest, regular_request_accepts,
  conditional_request_accepts,
}
use crypto_derivative_algo_t.Ids.Snowflake.{Generator, generate_int, generate_many, waiting}
use crypto_derivative_algo_t.Ids.Unique.{IsValid, last_id}
use crypto_derivative_algo_t.Ids.Series.{
  IsIncreasing, generate_many-IsIncreasing, join_parts-injective, generate_int_ends,
}
use crypto_derivative_algo_t.Samples.{terms}
use crypto_derivative_algo_t.Samples.{fresh, normal}

regular_request_accepts_example : Gives (IsRegularRequest fresh) (regular_request fresh)
regular_request_accepts_example =
    regular_request_accepts fresh normal refl (λ e. ground (arith, ==_iff {A = String} "50000" ""))

abbrev stop_order : Order
stop_order = record fresh {
  terms = record terms {
    order_type = Enums.stop_limit;
    order_route = some Enums.conditional;
    trigger_price = some "49000";
    reduce_only = true;
  };
  progress = record fresh.progress { client_order_id = none; client_conditional_id = some "A1" };
}

stop_order-IsNormal : IsNormal stop_order
unfolding upper strip
stop_order-IsNormal = record {
  terms_well_formed = record {
    normal_symbol = refl;
    routed = refl;
    one_closing_flag = refl;
    priced = refl;
    triggered = refl;
    timed = λ _. refl;
    spot_metadata = λ h. cc;
    derivative_metadata = λ h. λ e. cc;
  };
  identified = ground (arith, ==_iff {A = String} "A1" "");
  regular_id = λ h. cc;
  conditional_id = λ h. ground (arith, ==_iff {A = String} "A1" "");
}

conditional_request_accepts_example :
    Gives (IsConditionalRequest stop_order) (conditional_request stop_order)
conditional_request_accepts_example =
    conditional_request_accepts stop_order stop_order-IsNormal refl
      (λ e. ground (arith, ==_iff {A = String} "50000" ""))
      (λ e. ground (arith, ==_iff {A = String} "49000" ""))

abbrev generator : Generator
generator = record { node_id = 3; last_ts_ms = some 5; sequence = 4095 }

abbrev standing_clock : ℕ → ℕ
standing_clock n = if ltb n 3 then 1704067200005 else 1704067200006

generator-IsValid : IsValid generator
generator-IsValid = record { node_fits = omega arith; sequence_fits = omega arith }

generate_many-IsIncreasing_example :
    IsIncreasing (last_id generator) (generate_many 2 9 standing_clock 0 generator)
generate_many-IsIncreasing_example =
    generate_many-IsIncreasing 2 9 standing_clock 0 generator generator-IsValid

abbrev some_time : ℕ
some_time = 5

abbrev some_node : ℕ
some_node = 3

abbrev some_sequence : ℕ
some_sequence = 7

join_parts-injective_example :
    (some_time ≡ some_time) × (some_node ≡ some_node) × (some_sequence ≡ some_sequence)
join_parts-injective_example =
    join_parts-injective some_time some_time some_node some_node some_sequence some_sequence
      (omega arith) (omega arith) (omega arith) (omega arith) refl

generate_int_ends_example : generate_int 9 standing_clock 0 generator ≢ waiting
generate_int_ends_example =
    generate_int_ends 9 3 standing_clock 0 generator (omega arith) (λ l h. ground arith)

abbrev intent : Intent
intent = record {
  signal_id = some " S1 ";
  strategy_name = some "box";
  exchange = none;
  symbol = none;
  side = none;
  generated_ts = none;
}

abbrev rejects_all : Intent → Option (Unit {0}) → RiskDecision
rejects_all i config = record {
  accepted = false;
  order_request = none;
  reason = some "STOP_TOO_TIGHT";
}

abbrev never_submits : OrderRequest → Intent → Action Order
never_submits r i = raise runtime_error

processed_once_example :
    count_if
      (is_processed "S1")
      (process_all none rejects_all never_submits (intent ∷ intent ∷ []) [] empty_world)
    ≡ (if is_seen "S1" [] then 0 else if has_key "S1" (intent ∷ intent ∷ []) then 1 else 0)
processed_once_example =
    processed_once none rejects_all never_submits (intent ∷ intent ∷ []) [] empty_world "S1"
