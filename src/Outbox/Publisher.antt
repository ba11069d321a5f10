-- ===== src/Outbox/Publisher.antt =====
-- apps/execution_gateway/src/execution_gateway/publishers/outbox_publisher.py. `str(e)` of an
-- exception is an argument. The flags that stop the loop are not modelled: the loop is its rounds.
use crypto_derivative_algo_t.Prelude.{
  ℕ, zero, suc, ◌+◌, ◌*◌, ◌^◌, String, List, [], ◌∷◌, length, if◌then◌else◌, ltb,
}
use crypto_derivative_algo_t.Failure.{Failure, type_error}
use crypto_derivative_algo_t.Outbox.Rows
use crypto_derivative_algo_t.Outbox.Rows.{OutboxRow, Settings, ClaimedEvent}
use crypto_derivative_algo_t.Outbox.World.{
  World, Message, Action, pure, raise, try_except, ◌>>=◌, ◌>>◌, now_ms, statement, publish,
}

-- OutboxPublisherStats
pub record Stats : Type 0 where
  pub claimed : ℕ
  pub published : ℕ
  pub failed : ℕ

-- Acquiring a connection runs no statement of the model's: it is a call that may raise.
abbrev pub no_work : World → Unit {0} × List OutboxRow
no_work w = (tt, w.rows)

unfoldable pub acquire : Action (Unit {0})
acquire = statement no_work

abbrev pub claim_work : Settings → ℕ → World → List ClaimedEvent × List OutboxRow
claim_work p now w = Rows.claim_unpublished p now (w.held w.turn) (w.order w.turn) w.rows

-- The claim in its transaction.
unfoldable pub claim_unpublished : Settings → ℕ → Action (List ClaimedEvent)
claim_unpublished p now = statement (claim_work p now)

abbrev pub mark_work : Settings → ℕ → ℕ → World → Unit {0} × List OutboxRow
mark_work p k ts w = (tt, Rows.mark_published p.publisher_id k ts w.rows)

unfoldable pub mark_published : Settings → ℕ → ℕ → Action (Unit {0})
mark_published p k ts = statement (mark_work p k ts)

abbrev pub message : Settings → ClaimedEvent → Message
message p e = record {
  topic = p.topic;
  key = e.event.aggregate_id;
  event_id = e.event_id;
  event = e.event;
}

-- _publish_event
unfoldable pub publish_event : Settings → ClaimedEvent → Action (Unit {0})
publish_event p e = publish (message p e)

-- min(2**retry_count, 12)
unfoldable pub multiplier : ℕ → ℕ
multiplier n = if ltb 12 (2 ^ n) then 12 else 2 ^ n

unfoldable pub compute_retry_delay_ms : Settings → ℕ → ℕ
compute_retry_delay_ms p n = p.retry_delay_ms * multiplier n

-- The call of `mark_failed`, which takes keywords only and is given the connection by position: it
-- raises once its arguments are computed.
unfoldable pub call_mark_failed : Settings → ClaimedEvent → ℕ → String → ℕ → Action (Unit {0})
call_mark_failed p e now error delay = raise type_error

-- The body of the `try` for one event; once the message is sent, its second part follows.
unfoldable pub record_publication : Settings → ClaimedEvent → Stats → Action Stats
record_publication p e stats = do
  acquire
  ts ← now_ms
  mark_published p e.event_id ts
  pure (record stats { published = stats.published + 1 })

unfoldable pub publish_one : Settings → ClaimedEvent → Stats → Action Stats
publish_one p e stats = do publish_event p e; record_publication p e stats

module _ (error_text : Failure → String) where
  unfoldable pub on_publish_error : Settings → ClaimedEvent → Stats → Failure → Action Stats
  on_publish_error p e stats failure = do
    let stats' = record stats { failed = stats.failed + 1 }
    acquire
    now ← now_ms
    call_mark_failed p e now (error_text failure) (compute_retry_delay_ms p e.retry_count)
    pure stats'

  unfoldable pub publish_all : Settings → List ClaimedEvent → Stats → Action Stats
  publish_all p [] stats = pure stats
  publish_all p (e ∷ events) stats = do
    stats' ← try_except (publish_one p e stats) (on_publish_error p e stats)
    publish_all p events stats'

  -- publish_once
  unfoldable pub publish_once : Settings → Action Stats
  publish_once p = do
    now ← now_ms
    acquire
    events ← claim_unpublished p now
    publish_all p events (record { claimed = length events; published = 0; failed = 0 })

  -- _run_loop: a round that raises is logged, and the next one follows.
  unfoldable pub run_rounds : ℕ → Settings → World → World
  run_rounds zero p w = w
  run_rounds (suc n) p w = run_rounds n p (publish_once p w).1
