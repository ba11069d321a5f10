-- ===== src/Gateway/Outcomes.antt =====
-- How the submission and the cancellation of one order end.
use crypto_derivative_algo_t.Prelude.{
  String, ◌≡◌, refl, Bool, true, false, Option, some, List, if◌then◌else◌,
}
use crypto_derivative_algo_t.Schema.Enums.{Exchange, MarketType, OrderStatus, RejectReason}
use crypto_derivative_algo_t.Schema.Order.{Order}
use crypto_derivative_algo_t.Failure.{
  Failure, ErrorCode, Result, ok, err, exchange_api_error, is_unknown_execution, value_error,
  runtime_error, type_error, attribute_error, postgres_error, redis_error, invalid_transition,
  invalid_conditional_transition, stale_order_version, cancel_order_skipped,
}
use crypto_derivative_algo_t.Store.Tables.{Tables}
use crypto_derivative_algo_t.Store.Action.{
  World, Action, ◌>>=◌, try_except, handle, continue, epoch_ms,
}
use crypto_derivative_algo_t.Gateway.Transition.{Update, set_status, mark_rejected, mark_unknown}
use crypto_derivative_algo_t.Gateway.Client.{ExchangeClient, Ack}
use crypto_derivative_algo_t.Gateway.StatusChange.{StatusPost, set_status_post}
use crypto_derivative_algo_t.Gateway.Submission.{
  acknowledge_exchange_ack, on_submit_error, send_order, submit_created,
}

-- The status that the failure of a sending calls for: nobody knows whether the exchange has an order
-- whose execution is unknown, and every other failure is a rejection.
abbrev pub status_after : Failure → OrderStatus
status_after (exchange_api_error e) =
    if is_unknown_execution e.category then OrderStatus.unknown else OrderStatus.rejected
status_after e = OrderStatus.rejected

-- The result and the world of a call of `_set_status` on the order that was sent, for this status, in
-- this world.
abbrev pub IsSetStatus : Order → OrderStatus → World → Result Order × World → Type 0
IsSetStatus sent status before r =
    (fields : List Update) × (r ≡ set_status sent status true true fields before)

module _ (client_for_market : Exchange → MarketType → Result ExchangeClient)
    (describe : Failure → String) (o : Order) where
  -- What came of sending an order in a world: the exchange took it, and it is acknowledged; or
  -- sending it failed, and it is settled in the very world that the failure has left.
  pub data IsSettled (w : World) (r : Result Order × World) : Type 0 where
    answered :
        (acked : Order) (before : World)
        → r.0 ≡ ok acked
        → IsSetStatus o OrderStatus.acknowledged before r
        → IsSettled w r
    failed :
        (e : Failure) (before : World)
        → send_order client_for_market describe o w ≡ (err e, before)
        → IsSetStatus o (status_after e) before r
        → IsSettled w r

  unknown_or_rejected :
      (unknown : Bool) (reason : RejectReason) (code : Option ErrorCode) (detail : Option String)
      (w : World)
      → IsSetStatus o
          (if unknown then OrderStatus.unknown else OrderStatus.rejected)
          w
          ((if unknown then mark_unknown o else mark_rejected o reason code detail) w)
  unfolding mark_unknown mark_rejected
  unknown_or_rejected true reason code detail w = (_, refl)
  unknown_or_rejected false reason code detail w = (_, refl)

  on_submit_error-IsSetStatus :
      (e : Failure) (w : World)
      → IsSetStatus o (status_after e) w (on_submit_error client_for_market describe o e w)
  unfolding on_submit_error mark_rejected
  on_submit_error-IsSetStatus (exchange_api_error e) w =
      unknown_or_rejected (is_unknown_execution e.category) _ e.code (some e.message) w
  on_submit_error-IsSetStatus value_error w = (_, refl)
  on_submit_error-IsSetStatus runtime_error w = (_, refl)
  on_submit_error-IsSetStatus type_error w = (_, refl)
  on_submit_error-IsSetStatus attribute_error w = (_, refl)
  on_submit_error-IsSetStatus postgres_error w = (_, refl)
  on_submit_error-IsSetStatus redis_error w = (_, refl)
  on_submit_error-IsSetStatus (invalid_transition a b) w = (_, refl)
  on_submit_error-IsSetStatus (invalid_conditional_transition a b) w = (_, refl)
  on_submit_error-IsSetStatus (stale_order_version a b c) w = (_, refl)
  on_submit_error-IsSetStatus (cancel_order_skipped a) w = (_, refl)

  OnOk : Result Order × World → Type 0
  OnOk (ok o', w') = (before : World) × IsSetStatus o OrderStatus.acknowledged before (ok o', w')
  OnOk (err e, w') = Unit {0}

  OnOk-called :
      (before : World) (r : Result Order × World)
      → IsSetStatus o OrderStatus.acknowledged before r
      → OnOk r
  unfolding OnOk
  OnOk-called before (ok o', w') s = (before, s)
  OnOk-called before (err e, w') s = tt

  OnOk-bind :
      {A : Type 0} (m : Action A) (f : A → Action Order) (w : World)
      → ((a : A) (v : World) → OnOk (f a v))
      → OnOk ((m >>= f) w)
  unfolding OnOk ◌>>=◌
  OnOk-bind {A} m f w h = by_result (m w)
    where
      by_result : (r : Result A × World) → OnOk (continue r.0 f r.1)
      by_result (ok a, v) = h a v
      by_result (err e, v) = tt

  acknowledge-OnOk :
      (client : ExchangeClient) (ack : Ack) (w : World)
      → OnOk (acknowledge_exchange_ack o ack client w)
  unfolding acknowledge_exchange_ack
  acknowledge-OnOk client ack w =
      OnOk-bind _ _ w λ now v. OnOk-bind _ _ v λ fields u. OnOk-called u _ (_, refl)

  send_order-OnOk : (w : World) → OnOk (send_order client_for_market describe o w)
  unfolding send_order
  send_order-OnOk w =
      OnOk-bind _ _ w λ client v. OnOk-bind _ _ v λ ack u. acknowledge-OnOk client ack u

  sent-IsSettled :
      (w : World)
      → IsSettled w (
          try_except
            (send_order client_for_market describe o)
            (on_submit_error client_for_market describe o)
            w)
  unfolding try_except OnOk
  sent-IsSettled w = by_result (send_order client_for_market describe o w) refl (send_order-OnOk w)
    where
      by_result :
          (r : Result Order × World)
          → send_order client_for_market describe o w ≡ r
          → OnOk r
          → IsSettled w (handle r.0 (on_submit_error client_for_market describe o) r.1)
      by_result (ok o', v) f (before, s) = answered o' before refl s
      by_result (err e, v) f s = failed e v f (on_submit_error-IsSetStatus e v)

-- How the submission of a created order ends: it raised, having written nothing, before anything
-- was sent; or the order was marked SUBMITTED, and what came of it is settled.
pub data SubmitOutcome (client_for_market : Exchange → MarketType → Result ExchangeClient)
    (describe : Failure → String) (o : Order) (t : Tables) (r : Result Order × World) : Type 0 where
  not_sent :
      (e : Failure) → r.0 ≡ err e → r.1.tables ≡ t → SubmitOutcome client_for_market describe o t r
  settled :
      (sent : Order) (w : World)
      → StatusPost o OrderStatus.submitted true true t (ok sent, w)
      → IsSettled client_for_market describe sent w r
      → SubmitOutcome client_for_market describe o t r

-- The submission of a created order either raises before the exchange is asked, with no table
-- changed, or marks the order SUBMITTED and then ends with a call of `_set_status` on it, whatever
-- the client of the exchange answers or raises: for ACKNOWLEDGED if the sending succeeds; and if it
-- raises, in the world that it left, for UNKNOWN if the exchange's error says that the execution is
-- unknown, and for REJECTED after any other exception.
pub submit_created_ends :
    (client_for_market : Exchange → MarketType → Result ExchangeClient)
    (describe : Failure → String) (o : Order) (w : World)
    → SubmitOutcome client_for_market describe o w.tables
        (submit_created client_for_market describe o w)
unfolding submit_created ◌>>=◌ epoch_ms
submit_created_ends client_for_market describe o w =
    by_result (set_status o OrderStatus.submitted true true _ clocked)
      (set_status_post o OrderStatus.submitted true true _ clocked)
  where
    clocked : World
    clocked = (epoch_ms w).1

    finish : Order → Action Order
    finish sent =
        try_except (send_order client_for_market describe sent)
          (on_submit_error client_for_market describe sent)

    by_result :
        (r : Result Order × World)
        → StatusPost o OrderStatus.submitted true true w.tables r
        → SubmitOutcome client_for_market describe o w.tables (continue r.0 finish r.1)
    by_result (ok sent, v) p = settled sent v p (sent-IsSettled client_for_market describe sent v)
    by_result (err e, v) p = not_sent e refl p
