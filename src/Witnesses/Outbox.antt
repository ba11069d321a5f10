-- ===== src/Witnesses/Outbox.antt =====
-- Properties of the outbox, at concrete inputs.
use crypto_derivative_algo_t.Prelude.{
  ℕ, ◌+◌, ◌≤◌, ◌≡◌, refl, true, false, none, List, [], ◌∷◌, map, length, All, arith,
}
use crypto_derivative_algo_t.Failure.{type_error, ok}
use crypto_derivative_algo_t.Service.OrderState.{created_event}
use crypto_derivative_algo_t.Samples.{fresh, name_failure}
use crypto_derivative_algo_t.Outbox.Rows.{
  OutboxRow, Settings, claimed, claim_unpublished, has_id, count_unpublished,
}
use crypto_derivative_algo_t.Outbox.World.{World, Answers, Sending, delivered, uncertain}
use crypto_derivative_algo_t.Outbox.Publisher.{Stats, publish_once, run_rounds}
use crypto_derivative_algo_t.Outbox.Delivery.{was_sent, AllDelivered, run_rounds-AllDelivered}
use crypto_derivative_algo_t.Outbox.Retries.{AllUntried, no_retry_is_counted}
use crypto_derivative_algo_t.Outbox.Claims.{claims_are_exclusive}
use crypto_derivative_algo_t.Outbox.Progress.{IsHealthy}
use crypto_derivative_algo_t.Outbox.Rounds.{rounds_suffice}

abbrev new_row : ℕ → OutboxRow
new_row k = record {
  event_id = k;
  event = created_event fresh;
  published_ts = none;
  retry_count = 0;
  last_error = none;
  next_attempt_ts = none;
  locked_by = none;
  locked_until_ts = none;
}

abbrev publisher : Settings
publisher = record {
  publisher_id = "host-1";
  topic = "orders";
  batch_size = 2;
  lock_ttl_ms = 30000;
  retry_delay_ms = 5000;
  max_retry_count = 20;
}

abbrev three_rows : List OutboxRow
three_rows = new_row 1 ∷ new_row 2 ∷ new_row 3 ∷ []

-- The broker ends each call as it is told; all else is well.
abbrev answering : (ℕ → Sending) → Answers
answering sendings = record {
  clock = λ n. 1000 + n;
  sendings = sendings;
  postgres_fails = λ n. false;
  held = λ n k. false;
  order = λ n events. events;
  others = λ n s. s;
}

abbrev waiting : (ℕ → Sending) → World
waiting sendings = record {
  shared = record { rows = three_rows; sent = [] };
  turn = 0;
  answers = answering sendings;
}

abbrev steady_broker : ℕ → Sending
steady_broker n = delivered

abbrev failing_broker : ℕ → Sending
failing_broker n = uncertain type_error

claims_are_exclusive_example :
    (length (claimed publisher 1000 (λ k. false) three_rows) ≤ 2)
    × ((k : ℕ)
        → has_id k (claimed publisher 1000 (λ k. false) three_rows) ≡ true
        → has_id k (
            claimed publisher 2000
              (λ k. false)
              (claim_unpublished publisher 1000 (λ k. false) (λ es. es) three_rows).1)
          ≡ false)
claims_are_exclusive_example =
    claims_are_exclusive publisher publisher 1000 2000 (λ k. false) (λ k. false) (λ es. es)
      three_rows (omega arith)

run_rounds-AllDelivered_example :
    AllDelivered "orders" (run_rounds name_failure 3 publisher (waiting failing_broker)).shared
run_rounds-AllDelivered_example =
    run_rounds-AllDelivered name_failure publisher 3 (waiting failing_broker)
      (record { keeps = λ n s d. d; grows = λ n s k e. e })
      ((λ e. cc e), ((λ e. cc e), ((λ e. cc e), tt)))

no_retry_is_counted_example :
    AllUntried (run_rounds name_failure 3 publisher (waiting failing_broker)).shared
    × ((s : Stats)
        → (publish_once name_failure publisher
            (run_rounds name_failure 3 publisher (waiting failing_broker))).0
          ≡ ok s
        → s.failed ≡ 0)
no_retry_is_counted_example =
    no_retry_is_counted name_failure publisher 3 (waiting failing_broker) (λ n s u. u)
      ((refl, refl), ((refl, refl), ((refl, refl), tt)))

steady-IsHealthy : IsHealthy (answering steady_broker)
steady-IsHealthy = record {
  sends = λ n. refl;
  answers = λ n. refl;
  alone = λ n s. refl;
  free = λ n k. refl;
  reorders = λ n k events. refl;
}

rounds_suffice_example :
    (count_unpublished (run_rounds name_failure 3 publisher (waiting steady_broker)).rows ≡ 0)
    × (map (λ r. r.event_id) (run_rounds name_failure 3 publisher (waiting steady_broker)).rows
        ≡ 1 ∷ 2 ∷ 3 ∷ [])
    × All
        (λ r.
          was_sent "orders" r.event_id
            (run_rounds name_failure 3 publisher (waiting steady_broker)).sent
          ≡ true)
        (run_rounds name_failure 3 publisher (waiting steady_broker)).rows
unfolding count_unpublished
rounds_suffice_example =
    rounds_suffice name_failure publisher 3 (waiting steady_broker) steady-IsHealthy (omega arith)
      (refl, (refl, (refl, tt))) ((λ e. cc e), ((λ e. cc e), ((λ e. cc e), tt))) (omega arith)
