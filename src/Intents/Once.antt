-- ===== src/Intents/Once.antt =====
-- Of the intents with one key, the first alone is processed.
use crypto_derivative_algo_t.Prelude.{
  text_or, String, ◌≡◌, refl, Bool-cases, inl, inr, Bool, true, false, not, ◌&&◌, ◌||◌, Option,
  none, some, List, [], ◌∷◌, ◌==◌, string_eq, ==_iff, arith, if◌then◌else◌, count_if,
}
use crypto_derivative_algo_t.Schema.Order.{Order, OrderRequest}
use crypto_derivative_algo_t.Failure.{Result, ok, err}
use crypto_derivative_algo_t.Store.Action.{World, Action, pure, ◌>>=◌, continue}
use crypto_derivative_algo_t.Intents.Handler.{
  Intent, key_for_intent, is_seen, reserve, RiskDecision, ProcessResult, duplicate, refused,
  submitted, fetch_by, decide, process_new, process, process_all,
}

abbrev pub is_duplicate : Result ProcessResult → Bool
is_duplicate (ok duplicate) = true
is_duplicate _ = false

-- Whether an intent with this key was processed: it was not a duplicate.
abbrev pub is_processed : String → Intent × Result ProcessResult → Bool
is_processed k (i, r) = key_for_intent i == k && not (is_duplicate r)

unfoldable pub has_key : String → List Intent → Bool
has_key k [] = false
has_key k (i ∷ rest) = key_for_intent i == k || has_key k rest

module _ {Config : Type 0} (fetch_config : Option (String → Action (Option Config)))
    (evaluate_risk : Intent → Option Config → RiskDecision)
    (submit_order : OrderRequest → Intent → Action Order) where
  is_duplicate-submitted :
      (r : Result Order × World)
      → is_duplicate (continue r.0 (λ o. pure (submitted o)) r.1).0 ≡ false
  unfolding pure
  is_duplicate-submitted (ok o, w) = refl
  is_duplicate-submitted (err e, w) = refl

  is_duplicate-decide :
      (i : Intent) (d : RiskDecision) (w : World)
      → is_duplicate (decide fetch_config evaluate_risk submit_order i d w).0 ≡ false
  unfolding decide pure ◌>>=◌
  is_duplicate-decide i d w = by_decision d.accepted d.order_request
    where
      by_decision :
          (accepted : Bool) (req : Option OrderRequest)
          → is_duplicate
              ((if accepted
                  then elim req [
                    | none ↦ pure (refused (text_or d.reason "RISK_REJECTED"))
                    | some r ↦ (do o ← submit_order r i; pure (submitted o))
                  ]
                  else pure (refused (text_or d.reason "RISK_REJECTED")))
                w).0
            ≡ false
      by_decision false req = refl
      by_decision true none = refl
      by_decision true (some r) = is_duplicate-submitted (submit_order r i w)

  is_duplicate-process_new :
      (i : Intent) (w : World)
      → is_duplicate (process_new fetch_config evaluate_risk submit_order i w).0 ≡ false
  unfolding process_new ◌>>=◌
  is_duplicate-process_new i w =
      by_config (fetch_by fetch_config evaluate_risk submit_order fetch_config i.strategy_name w)
    where
      by_config :
          (r : Result (Option Config) × World)
          → is_duplicate
              (continue r.0
                (λ config.
                  decide fetch_config evaluate_risk submit_order i (evaluate_risk i config))
                r.1).0
            ≡ false
      by_config (ok config, v) = is_duplicate-decide i (evaluate_risk i config) v
      by_config (err e, v) = refl

  -- With the store of keys that is kept in memory, and so as long as the process runs: of a series of
  -- intents, exactly one with a given key is processed if one has it, and none if the store had the
  -- key; all others are answered as duplicates, also where the one ended in an exception. The store
  -- in Redis, which forgets a key after its time to live, is not the one that this speaks of.
  pub processed_once :
      (intents : List Intent) (seen : List String) (w : World) (k : String)
      → count_if
          (is_processed k)
          (process_all fetch_config evaluate_risk submit_order intents seen w)
        ≡ (if is_seen k seen then 0 else if has_key k intents then 1 else 0)
  unfolding process_all process reserve has_key is_seen pure
  processed_once [] seen w k = ground arith
  processed_once (i ∷ rest) seen w k = elim (Bool-cases (is_seen (key_for_intent i) seen)) [
    | inl e ↦ rw e (ground (arith, e, processed_once rest seen w k, ==_iff (key_for_intent i) k))
    | inr e ↦ rw e (
        ground (
          arith,
          e,
          is_duplicate-process_new i w,
          processed_once rest (key_for_intent i ∷ seen)
              (process_new fetch_config evaluate_risk submit_order i w).1 k,
          ==_iff (key_for_intent i) k,
        ))
  ]
