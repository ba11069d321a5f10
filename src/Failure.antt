-- ===== src/Failure.antt =====
-- What the gateway raises, as values: the built-in exceptions that its code names, its own
-- exceptions (order_state_machine.py, conditional_order_state_machine.py, order_repo.py,
-- gateway/dto/cancel_service_resp.py) and exchange/errors.py. Messages are not kept, except the
-- exchange's own.
use crypto_derivative_algo_t.Prelude.{ℕ, String, Option, Bool, true, false, ◌≡◌, refl}
use crypto_derivative_algo_t.Schema.Enums.{OrderStatus, ConditionalStatus}

-- ExchangeErrorCategory
pub data ErrorCategory : Type 0 where
  rate_limited ip_banned waf_blocked insufficient_balance invalid_symbol : ErrorCategory
  invalid_parameter unknown_execution service_unavailable internal_retryable : ErrorCategory
  system_throttle network exchange_rejected order_not_found : ErrorCategory

abbrev pub is_unknown_execution : ErrorCategory → Bool
is_unknown_execution unknown_execution = true
is_unknown_execution _ = false

-- `int | str`: Binance's codes are mostly negative.
pub data ErrorCode : Type 0 where
  plus minus : ℕ → ErrorCode
  text : String → ErrorCode

-- ExchangeApiError, without the exchange, the HTTP status and the raw response, which no decision reads.
pub record ApiError : Type 0 where
  pub category : ErrorCategory
  pub code : Option ErrorCode
  pub message : String

pub data CancelSkipReason : Type 0 where
  local_order_not_found already_cancelled already_filled already_rejected : CancelSkipReason
  already_expired conditional_order_not_cancelable : CancelSkipReason

pub data Failure : Type 0 where
  value_error runtime_error type_error attribute_error : Failure
  postgres_error redis_error : Failure
  invalid_transition : OrderStatus → OrderStatus → Failure
  invalid_conditional_transition : Option ConditionalStatus → ConditionalStatus → Failure
  stale_order_version : ℕ → ℕ → OrderStatus → Failure
  exchange_api_error : ApiError → Failure
  cancel_order_skipped : CancelSkipReason → Failure

pub data Result {ℓ} (Value : Type ℓ) : Type ℓ where
  ok : Value → Result Value
  err : Failure → Result Value

-- An exception skips what follows.
abbrev pub ◌>>=◌ {ℓ κ} : {V : Type ℓ} {W : Type κ} → Result V → (V → Result W) → Result W
err f >>= rest = err f
ok v >>= rest = rest v

abbrev pub ◌>>◌ {ℓ κ} : {V : Type ℓ} {W : Type κ} → Result V → Result W → Result W
first >> rest = first >>= λ _. rest

infixl 10 ◌>>=◌ ◌>>◌
-- `if test: raise e`
abbrev pub raise_if : Bool → Failure → Result (Unit {0})
raise_if true e = err e
raise_if false e = ok tt

-- A chain that succeeded ran each of its two parts.
pub >>=-eq-ok {ℓ κ} :
    {V : Type ℓ} {W : Type κ} (first : Result V) (rest : V → Result W) {w : W}
    → first >>= rest ≡ ok w
    → (v : V) × (first ≡ ok v) × (rest v ≡ ok w)
>>=-eq-ok (err f) rest h = cc
>>=-eq-ok (ok v) rest h = (v, refl, h)

pub ok-injective {ℓ} : {A : Type ℓ} {a b : A} → ok a ≡ ok b → a ≡ b
ok-injective h = cc

pub ok-ne-err {ℓ} : {A : Type ℓ} {a : A} {e : Failure} → ok a ≡ err e → ⊥
ok-ne-err h = cc
