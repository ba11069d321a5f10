-- ===== src/Outbox/Delivery.antt =====
-- An event that is marked as published has been sent.
use crypto_derivative_algo_t.Prelude.{
  ℕ, zero, suc, String, ◌≡◌, refl, Bool, true, false, ◌&&◌, ◌||◌, List, [], ◌∷◌, ◌==◌, nat_eq,
  string_eq, ==_iff, is_none, All, All-map, arith,
}
use crypto_derivative_algo_t.Failure.{Failure, Result, ok, err}
use crypto_derivative_algo_t.Outbox.Rows
use crypto_derivative_algo_t.Outbox.Rows.{
  OutboxRow, ClaimedEvent, Settings, update_where, is_held_by, publish_row, lock_row, is_among,
  claimed,
}
use crypto_derivative_algo_t.Outbox.World.{
  World, next_turn, after_others, deliver, Message, Shared, Answers, Action, now_ms,
}
use crypto_derivative_algo_t.Outbox.Publisher.{
  Stats, acquire, claim_work, claim_unpublished, mark_work, mark_published, message, publish_event,
  record_publication, on_publish_error, call_mark_failed, publish_one, publish_all, publish_once,
  run_rounds,
}
use crypto_derivative_algo_t.Outbox.Updates.{All-update_where, Triple-acquire}
use crypto_derivative_algo_t.Outbox.Ends.{
  Ends, Triple, Triple-pure, Triple-raise, Triple-statement, Triple-bind, Triple-try_except,
  Triple-now_ms, Triple-publish,
}

-- A message with this event id is on the topic.
abbrev pub was_sent : String → ℕ → List Message → Bool
was_sent t k [] = false
was_sent t k (m ∷ sent) = m.topic == t && m.event_id == k || was_sent t k sent

abbrev pub IsDelivered : String → List Message → OutboxRow → Type 0
IsDelivered t sent r = is_none r.published_ts ≡ false → was_sent t r.event_id sent ≡ true

-- No row is marked as published before its event is on the topic.
abbrev pub AllDelivered : String → Shared → Type 0
AllDelivered t s = All (IsDelivered t s.sent) s.rows

-- What the other tasks do keeps that, and takes no message back.
pub record IsOrderly (t : String) (a : Answers) : Type 0 where
  pub keeps : (n : ℕ) (s : Shared) → AllDelivered t s → AllDelivered t (a.others n s)
  pub grows :
      (n : ℕ) (s : Shared) (k : ℕ)
      → was_sent t k s.sent ≡ true
      → was_sent t k (a.others n s).sent ≡ true

-- A further message on the topic.
IsDelivered-deliver :
    (t : String) (m : Message) (sent : List Message) (rows : List OutboxRow)
    → All (IsDelivered t sent) rows
    → All (IsDelivered t (m ∷ sent)) rows
IsDelivered-deliver t m sent rows h =
    All-map (IsDelivered t sent) (IsDelivered t (m ∷ sent)) rows (λ r d e. ground (arith, d e)) h

module _ (t : String) where
  pub record Safe (w : World) : Type 0 where
    pub delivered : AllDelivered t w.shared
    pub orderly : IsOrderly t w.answers

  -- After the event `k` has been sent.
  pub record SafeWith (k : ℕ) (w : World) : Type 0 where
    pub safe : Safe w
    pub has_sent : was_sent t k w.sent ≡ true

  Safe-next_turn : (w : World) → Safe w → Safe (next_turn w)
  Safe-next_turn w h = record { delivered = h.delivered; orderly = h.orderly }

  Safe-after_others : (w : World) → Safe w → Safe (after_others w)
  Safe-after_others w h = record {
    delivered = h.orderly.keeps w.turn w.shared h.delivered;
    orderly = h.orderly;
  }

  SafeWith-next_turn : (k : ℕ) (w : World) → SafeWith k w → SafeWith k (next_turn w)
  SafeWith-next_turn k w h = record { safe = Safe-next_turn w h.safe; has_sent = h.has_sent }

  SafeWith-after_others : (k : ℕ) (w : World) → SafeWith k w → SafeWith k (after_others w)
  SafeWith-after_others k w h = record {
    safe = Safe-after_others w h.safe;
    has_sent = h.safe.orderly.grows w.turn w.shared k h.has_sent;
  }

  Safe-deliver : (m : Message) (w : World) → Safe w → Safe (deliver m w)
  Safe-deliver m w h = record {
    delivered = IsDelivered-deliver t m w.sent w.rows h.delivered;
    orderly = h.orderly;
  }

  SafeWith-deliver :
      (m : Message) (w : World) → m.topic ≡ t → Safe w → SafeWith m.event_id (deliver m w)
  SafeWith-deliver m w e h = record {
    safe = Safe-deliver m w h;
    has_sent = ground (arith, ==_iff m.topic t, ==_iff m.event_id m.event_id);
  }

  -- An update of rows that publishes only what has been sent.
  Safe-update_where :
      (test : OutboxRow → Bool) (change : OutboxRow → OutboxRow) (w : World)
      → ((r : OutboxRow) → test r ≡ true → IsDelivered t w.sent r → IsDelivered t w.sent (change r))
      → Safe w
      → Safe (record w { shared = record w.shared { rows = update_where test change w.rows } })
  Safe-update_where test change w f h = record {
    delivered = All-update_where (IsDelivered t w.sent) test change w.rows f h.delivered;
    orderly = h.orderly;
  }

module _ (p : Settings) where
  abbrev Kept : {A : Type 0} → Action A → Type 0
  Kept m = Triple (Safe p.topic) m (λ a. Safe p.topic) (Safe p.topic)

  acquire-Kept : Kept acquire
  acquire-Kept = Triple-acquire _ _ (Safe-after_others p.topic) (λ w h. h)

  now_ms-Kept : Kept now_ms
  now_ms-Kept = Triple-now_ms _ _ (Safe-next_turn p.topic)

  claim_unpublished-Kept : (now : ℕ) → Kept (claim_unpublished p now)
  unfolding claim_unpublished Rows.claim_unpublished
  claim_unpublished-Kept now =
      Triple-statement (claim_work p now) (Safe-after_others p.topic) (λ w h. h)
        (λ w.
          Safe-update_where p.topic (is_among (claimed p now (w.held w.turn) w.rows))
            (lock_row p now) w (λ r e d. d))

  mark_published-Kept :
      (k ts : ℕ)
      → Triple (SafeWith p.topic k) (mark_published p k ts) (λ u. Safe p.topic) (Safe p.topic)
  unfolding mark_published Rows.mark_published is_held_by
  mark_published-Kept k ts =
      Triple-statement (mark_work p k ts) (SafeWith-after_others p.topic k) (λ w h. h.safe)
        (λ w h.
          Safe-update_where p.topic (is_held_by p.publisher_id k) (publish_row ts) w
            (λ r e d published. ground (arith, e, h.has_sent, ==_iff r.event_id k)) h.safe)

  record_publication-Kept :
      (e : ClaimedEvent) (stats : Stats)
      → Triple
          (SafeWith p.topic e.event_id)
          (record_publication p e stats)
          (λ s. Safe p.topic)
          (Safe p.topic)
  unfolding record_publication
  record_publication-Kept e stats =
      Triple-bind _ (λ u. SafeWith p.topic e.event_id) _ _ _ _
        (Triple-acquire _ _ (SafeWith-after_others p.topic e.event_id) (λ w h. h.safe))
        (λ u.
          Triple-bind _ (λ ts. SafeWith p.topic e.event_id) _ _ _ _
            (Triple-now_ms _ _ (SafeWith-next_turn p.topic e.event_id))
            (λ ts.
              Triple-bind _ (λ u. Safe p.topic) _ _ _ _ (mark_published-Kept e.event_id ts)
                (λ u. Triple-pure _ (λ w h. h))))

  publish_one-Kept : (e : ClaimedEvent) (stats : Stats) → Kept (publish_one p e stats)
  unfolding publish_one publish_event
  publish_one-Kept e stats =
      Triple-bind _ (λ u. SafeWith p.topic e.event_id) _ _ _ _
        (Triple-publish (Safe p.topic) (SafeWith p.topic e.event_id) (Safe p.topic) (message p e)
          (Safe-after_others p.topic) (λ w. SafeWith-deliver p.topic (message p e) w refl)
          (Safe-deliver p.topic (message p e)) (λ w h. h))
        (λ u. record_publication-Kept e stats)

  module _ (error_text : Failure → String) where
    on_publish_error-Kept :
        (e : ClaimedEvent) (stats : Stats) (x : Failure)
        → Kept (on_publish_error error_text p e stats x)
    unfolding on_publish_error call_mark_failed
    on_publish_error-Kept e stats x = Triple-bind _ _ _ _ _ _ acquire-Kept (λ u.
        Triple-bind _ _ _ _ _ _ now_ms-Kept (λ now.
          Triple-bind _ (λ u. Safe p.topic) _ _ _ _ (Triple-raise _ (λ w h. h))
            (λ u. Triple-pure _ (λ w h. h))))

    publish_all-Kept :
        (events : List ClaimedEvent) (stats : Stats) → Kept (publish_all error_text p events stats)
    unfolding publish_all
    publish_all-Kept [] stats = Triple-pure _ (λ w h. h)
    publish_all-Kept (e ∷ events) stats =
        Triple-bind _ _ _ _ _ _
          (Triple-try_except _ _ _ _ _ _ (publish_one-Kept e stats) (on_publish_error-Kept e stats))
          (publish_all-Kept events)

    publish_once-Kept : Kept (publish_once error_text p)
    unfolding publish_once
    publish_once-Kept = Triple-bind _ _ _ _ _ _ now_ms-Kept (λ now.
        Triple-bind _ _ _ _ _ _ acquire-Kept (λ u.
          Triple-bind _ _ _ _ _ _ (claim_unpublished-Kept now)
            (λ events. publish_all-Kept events _)))

  run_rounds-Safe :
      (error_text : Failure → String) (n : ℕ) (w : World)
      → Safe p.topic w
      → Safe p.topic (run_rounds error_text n p w)
  unfolding run_rounds
  run_rounds-Safe error_text zero w h = h
  run_rounds-Safe error_text (suc n) w h =
      run_rounds-Safe error_text n _ (safe_after _ _ ((publish_once-Kept error_text).ends w h))
    where
      safe_after :
          (r : Result Stats) (v : World)
          → Ends (λ s. Safe p.topic) (Safe p.topic) r v
          → Safe p.topic v
      safe_after (ok s) v h = h
      safe_after (err e) v h = h

-- If the other tasks publish nothing that is not on the topic and take no message back, then after
-- any number of rounds, whatever the database and the broker answer, every row that is marked as
-- published has its event on the topic.
pub run_rounds-AllDelivered :
    (error_text : Failure → String) (p : Settings) (n : ℕ) (w : World)
    → IsOrderly p.topic w.answers
    → AllDelivered p.topic w.shared
    → AllDelivered p.topic (run_rounds error_text n p w).shared
run_rounds-AllDelivered error_text p n w orderly d =
    (run_rounds-Safe p error_text n w (record { delivered = d; orderly = orderly })).delivered
