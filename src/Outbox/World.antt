-- ===== src/Outbox/World.antt =====
-- What the publisher of the outbox works on: the rows, the topic, and everything outside of the
-- process as answers given in advance. Other tasks insert events and other publishers work whenever
-- the publisher waits, before the call that it waits for takes effect.
use crypto_derivative_algo_t.Prelude.{ℕ, suc, String, Bool, List, ◌∷◌, if◌then◌else◌}
use crypto_derivative_algo_t.Failure.{Failure, Result, ok, err, postgres_error}
use crypto_derivative_algo_t.Store.Tables.{OutboxEvent}
use crypto_derivative_algo_t.Outbox.Rows.{OutboxRow, ClaimedEvent}

-- What `_publish_event` sends: the headers repeat what the value says.
pub record Message : Type 0 where
  pub topic : String
  pub key : String
  pub event_id : ℕ
  pub event : OutboxEvent

-- How a call of the broker ends. A call that raises may yet have delivered the message.
pub data Sending : Type 0 where
  delivered : Sending
  uncertain : Failure → Sending
  refused : Failure → Sending

pub record Shared : Type 0 where
  pub rows : List OutboxRow
  pub sent : List Message

pub record Answers : Type 0 where
  pub clock : ℕ → ℕ
  pub sendings : ℕ → Sending
  pub postgres_fails : ℕ → Bool
  -- The rows that other transactions have locked, and the order of RETURNING.
  pub held : ℕ → ℕ → Bool
  pub order : ℕ → List ClaimedEvent → List ClaimedEvent
  pub others : ℕ → Shared → Shared

-- `turn` counts what has been asked for.
pub record World : Type 0 where
  pub shared : Shared
  pub open shared use *
  pub turn : ℕ
  pub answers : Answers
  pub open answers use *

abbrev pub Action : Type 0 → Type 0
Action A = World → Result A × World

abbrev pub next_turn : World → World
next_turn w = record w { turn = suc w.turn }

module _ {A : Type 0} where
  unfoldable pub pure : A → Action A
  pure a w = (ok a, w)

  unfoldable pub raise : Failure → Action A
  raise e w = (err e, w)

  abbrev pub handle : Result A → (Failure → Action A) → Action A
  handle (ok a) h w = (ok a, w)
  handle (err e) h w = h e w

  -- `try: m` with `except Exception as e: h e`
  unfoldable pub try_except : Action A → (Failure → Action A) → Action A
  try_except m h w = let (r, w') = m w in handle r h w'

module _ {A B : Type 0} where
  abbrev pub continue : Result A → (A → Action B) → Action B
  continue (ok a) f w = f a w
  continue (err e) f w = (err e, w)

  infixl 10 ◌>>=◌ ◌>>◌
  unfoldable pub ◌>>=◌ : Action A → (A → Action B) → Action B
  ◌>>=◌ m f w = let (r, w') = m w in continue r f w'

  abbrev pub ◌>>◌ : Action A → Action B → Action B
  m >> n = m >>= λ _. n

-- _now_ms()
unfoldable pub now_ms : Action ℕ
now_ms w = (ok (w.clock w.turn), next_turn w)

-- A wait for another task.
abbrev pub after_others : World → World
after_others w = record w { shared = w.others w.turn w.shared; turn = suc w.turn }

-- One call of the database: the others act; it then raises, or does its work.
unfoldable pub statement : {A : Type 0} → (World → A × List OutboxRow) → Action A
statement work w =
    let w' = after_others w in
    if w.postgres_fails w.turn
    then (err postgres_error, w')
    else (ok (work w').0, record w' { shared = record w'.shared { rows = (work w').1 } })

abbrev pub deliver : Message → World → World
deliver m w = record w { shared = record w.shared { sent = m ∷ w.sent } }

abbrev pub end_sending : Sending → Message → Action (Unit {0})
end_sending delivered m w = (ok tt, deliver m w)
end_sending (uncertain e) m w = (err e, deliver m w)
end_sending (refused e) m w = (err e, w)

-- event_publisher.publish
unfoldable pub publish : Message → Action (Unit {0})
publish m w = end_sending (w.sendings w.turn) m (after_others w)
