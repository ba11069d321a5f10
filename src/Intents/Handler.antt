-- ===== src/Intents/Handler.antt =====
-- handlers/dedup_handler.py and handlers/order_submit_handler.py. The store of keys is the one in
-- memory, InMemoryDedupStore; the one in Redis, whose keys expire, is not modelled. The risk handler, the repository of risk configurations and the gateway are arguments, as
-- they are of the constructor. Of an intent, the entries that the two files read are kept, as texts.
use Prim.Native.String.{◌++◌}
use crypto_derivative_algo_t.Prelude.{
  String, Bool, true, false, Option, none, some, List, [], ◌∷◌, ◌==◌, string_eq, if◌then◌else◌,
  text_or, strip,
}
use crypto_derivative_algo_t.Schema.Order.{Order, OrderRequest}
use crypto_derivative_algo_t.Failure.{Result}
use crypto_derivative_algo_t.Store.Action.{World, Action, pure, ◌>>=◌, try_except}

pub record Intent : Type 0 where
  pub signal_id : Option String
  pub strategy_name : Option String
  pub exchange : Option String
  pub symbol : Option String
  pub side : Option String
  pub generated_ts : Option String

-- key_for_intent
unfoldable pub key_for_intent : Intent → String
key_for_intent i =
    let signal = strip (text_or i.signal_id "") in
    if signal == ""
    then strip (text_or i.strategy_name "unknown")
      ++ ":"
      ++ strip (text_or i.exchange "unknown")
      ++ ":"
      ++ strip (text_or i.symbol "unknown")
      ++ ":"
      ++ strip (text_or i.side "unknown")
      ++ ":"
      ++ strip (text_or i.generated_ts "0")
    else signal

unfoldable pub is_seen : String → List String → Bool
is_seen k [] = false
is_seen k (x ∷ rest) = if x == k then true else is_seen k rest

-- InMemoryDedupStore.reserve: whether the key was new, and the keys afterwards.
unfoldable pub reserve : String → List String → Bool × List String
reserve k seen = if is_seen k seen then (false, seen) else (true, k ∷ seen)

-- RiskDecision, in the fields that the handler reads to decide.
pub record RiskDecision : Type 0 where
  pub accepted : Bool
  pub order_request : Option OrderRequest
  pub reason : Option String

-- OrderIntentProcessResult
pub data ProcessResult : Type 0 where
  duplicate : ProcessResult
  refused : String → ProcessResult
  submitted : Order → ProcessResult

module _ {Config : Type 0} (fetch_config : Option (String → Action (Option Config)))
    (evaluate_risk : Intent → Option Config → RiskDecision)
    (submit_order : OrderRequest → Intent → Action Order) where
  unfoldable pub fetch_by :
      Option (String → Action (Option Config)) → Option String → Action (Option Config)
  fetch_by none name = pure none
  fetch_by (some fetch) none = pure none
  fetch_by (some fetch) (some name) =
      if name == "" then pure none else try_except (fetch name) (λ _. pure none)

  unfoldable pub decide : Intent → RiskDecision → Action ProcessResult
  decide i d =
      if d.accepted
      then elim d.order_request [
        | none ↦ pure (refused (text_or d.reason "RISK_REJECTED"))
        | some req ↦ (do o ← submit_order req i; pure (submitted o))
      ]
      else pure (refused (text_or d.reason "RISK_REJECTED"))

  unfoldable pub process_new : Intent → Action ProcessResult
  process_new i = do
    config ← fetch_by fetch_config i.strategy_name
    decide i (evaluate_risk i config)

  -- process, with a deduplication handler, and with the keys that the store holds before and after it.
  unfoldable pub process : Intent → List String → Action ProcessResult × List String
  process i seen =
      let (is_new, seen') = reserve (key_for_intent i) seen in
      (if is_new then process_new i else pure duplicate, seen')

  -- One intent after the other; an exception ends one, and the next is taken.
  unfoldable pub process_all :
      List Intent → List String → World → List (Intent × Result ProcessResult)
  process_all [] seen w = []
  process_all (i ∷ rest) seen w =
      let (action, seen') = process i seen in
      let (r, w') = action w in (i, r) ∷ process_all rest seen' w'
