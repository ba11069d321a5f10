-- ===== src/Outbox/Rows.antt =====
-- The rows of outbox_events and the statements on them of
-- packages/storage/src/storage/repositories/postgres/outbox_repo.py. The columns of the event itself
-- are the event that the order services write; `event_id` is the key. PostgreSQL leaves the order of
-- RETURNING open: it is an argument.
use crypto_derivative_algo_t.Prelude.{
  ℕ, zero, suc, ◌+◌, String, Bool, true, false, not, ◌&&◌, ◌||◌, Option, none, some, List, [], ◌∷◌,
  map, ◌==◌, nat_eq, string_eq, ltb, leb, if◌then◌else◌, is_none, count_if, take, filter_if,
}
use crypto_derivative_algo_t.Store.Tables.{OutboxEvent}

pub record OutboxRow : Type 0 where
  pub event_id : ℕ
  pub event : OutboxEvent
  pub published_ts : Option ℕ
  pub retry_count : ℕ
  pub last_error : Option String
  pub next_attempt_ts : Option ℕ
  pub locked_by : Option String
  pub locked_until_ts : Option ℕ

-- What CLAIM_RETURNING_COLUMNS gives of a row.
pub record ClaimedEvent : Type 0 where
  pub event_id : ℕ
  pub event : OutboxEvent
  pub retry_count : ℕ

abbrev pub returning : OutboxRow → ClaimedEvent
returning r = record { event_id = r.event_id; event = r.event; retry_count = r.retry_count }

-- The settings of a publisher.
pub record Settings : Type 0 where
  pub publisher_id : String
  pub topic : String
  pub batch_size : ℕ
  pub lock_ttl_ms : ℕ
  pub retry_delay_ms : ℕ
  pub max_retry_count : ℕ

-- `ts IS NULL OR ts <= now`
abbrev pub is_past : ℕ → Option ℕ → Bool
is_past now none = true
is_past now (some ts) = leb ts now

-- The WHERE of the claim.
unfoldable pub is_claimable : Settings → ℕ → OutboxRow → Bool
is_claimable p now r =
    is_none r.published_ts
    && ltb r.retry_count p.max_retry_count
    && is_past now r.next_attempt_ts
    && is_past now r.locked_until_ts

-- ORDER BY created_ts ASC, event_id ASC
unfoldable pub comes_first : OutboxRow → OutboxRow → Bool
comes_first r s =
    ltb r.event.created_ts s.event.created_ts
    || r.event.created_ts == s.event.created_ts && leb r.event_id s.event_id

unfoldable pub insert_by_age : OutboxRow → List OutboxRow → List OutboxRow
insert_by_age r [] = r ∷ []
insert_by_age r (s ∷ rows) = if comes_first r s then r ∷ s ∷ rows else s ∷ insert_by_age r rows

unfoldable pub sort_by_age : List OutboxRow → List OutboxRow
sort_by_age [] = []
sort_by_age (r ∷ rows) = insert_by_age r (sort_by_age rows)

-- The candidates: `held` says which rows another transaction has locked, and SKIP LOCKED passes over.
unfoldable pub candidates : Settings → ℕ → (ℕ → Bool) → List OutboxRow → List OutboxRow
candidates p now held rows =
    take p.batch_size
      (sort_by_age (filter_if (λ r. is_claimable p now r && not (held r.event_id)) rows))

unfoldable pub has_id : ℕ → List ClaimedEvent → Bool
has_id k [] = false
has_id k (e ∷ events) = e.event_id == k || has_id k events

abbrev pub is_among : List ClaimedEvent → OutboxRow → Bool
is_among events r = has_id r.event_id events

abbrev pub claimed : Settings → ℕ → (ℕ → Bool) → List OutboxRow → List ClaimedEvent
claimed p now held rows = map returning (candidates p now held rows)

-- UPDATE ... WHERE: every row that passes the test.
unfoldable pub update_where :
    (OutboxRow → Bool) → (OutboxRow → OutboxRow) → List OutboxRow → List OutboxRow
update_where test change [] = []
update_where test change (r ∷ rows) =
    (if test r then change r else r) ∷ update_where test change rows

abbrev pub lock_row : Settings → ℕ → OutboxRow → OutboxRow
lock_row p now r = record r {
  locked_by = some p.publisher_id;
  locked_until_ts = some (now + p.lock_ttl_ms);
}

-- claim_unpublished: the events that it returns, and the rows afterwards.
unfoldable pub claim_unpublished :
    Settings
    → ℕ
    → (ℕ → Bool)
    → (List ClaimedEvent → List ClaimedEvent)
    → List OutboxRow
    → List ClaimedEvent × List OutboxRow
unfolding candidates update_where has_id
claim_unpublished p now held order rows =
    let events = claimed p now held rows in
    (order events, update_where (is_among events) (lock_row p now) rows)

-- locked_by = $2, which is not true of NULL
abbrev pub is_locker : String → Option String → Bool
is_locker who none = false
is_locker who (some other) = other == who

-- event_id = $1 AND locked_by = $2 AND published_ts IS NULL
unfoldable pub is_held_by : String → ℕ → OutboxRow → Bool
is_held_by who k r = r.event_id == k && is_locker who r.locked_by && is_none r.published_ts

abbrev pub publish_row : ℕ → OutboxRow → OutboxRow
publish_row ts r = record r {
  published_ts = some ts;
  locked_by = none;
  locked_until_ts = none;
  last_error = none;
}

unfoldable pub mark_published : String → ℕ → ℕ → List OutboxRow → List OutboxRow
unfolding update_where
mark_published who k ts rows = update_where (is_held_by who k) (publish_row ts) rows

abbrev pub fail_row : ℕ → String → OutboxRow → OutboxRow
fail_row next error r = record r {
  retry_count = r.retry_count + 1;
  last_error = some error;
  next_attempt_ts = some next;
  locked_by = none;
  locked_until_ts = none;
}

-- `text[:n]`
unfoldable pub first_chars : ℕ → String → String
first_chars zero s = String.[]
first_chars (suc n) String.[] = String.[]
first_chars (suc n) (String.◌∷◌ c s) = String.◌∷◌ c (first_chars n s)

unfoldable pub mark_failed : String → ℕ → ℕ → String → ℕ → List OutboxRow → List OutboxRow
unfolding update_where
mark_failed who k now error delay rows =
    update_where (is_held_by who k) (fail_row (now + delay) (first_chars 2000 error)) rows

-- count_unpublished
unfoldable pub count_unpublished : List OutboxRow → ℕ
count_unpublished rows = count_if (λ r. is_none r.published_ts) rows
